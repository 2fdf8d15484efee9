-- ===== src/Agent/Examples.antt =====
-- Scoring at concrete shortlists.
use tekijin.Prelude.{◌≡◌, refl, arith, some, List, [], ◌∷◌, head?}
use tekijin.Scorer.{ScoredCandidate, rank, rank_scored, candidates, unique, score_all, sort, insert}
use tekijin.Agent.State.{AgentState}
use tekijin.Agent.Pick.{c6_score, referral_pin, referral_reason, rank_query}
use tekijin.Agent.Pick.Shortlist.{IsShortlist, c6_score-IsShortlist}
use tekijin.Agent.Pick.Seat.{c6_score-referral}
use tekijin.Agent.Graph.Flow.{row, flow, asked}

-- One person declined, one row survived.
abbrev retry : AgentState
retry = record asked { recommendations = row 12 ∷ []; declined_ids = 13 ∷ [] }

retry-IsShortlist : IsShortlist retry
retry-IsShortlist = record {
  few = omega arith;
  distinct = (refl, tt);
  allowed = λ n e. ground arith;
}

c6_score-IsShortlist_example : IsShortlist (c6_score flow retry)
c6_score-IsShortlist_example = c6_score-IsShortlist flow retry retry-IsShortlist

abbrev referred : AgentState
referred = record asked { referred_responder_id = some 13 }

c6_score-referral_example :
    (first : ScoredCandidate) × (rest : List ScoredCandidate) × ((c6_score flow
        referred).recommendations
      ≡ first ∷ rest)
    × (first.person_id ≡ 13)
    × (head? first.reasons ≡ some referral_reason)
c6_score-referral_example =
    c6_score-referral flow referred 13 (row 13) refl refl (unfold referral_pin in refl)
      (unfold rank_query rank rank_scored candidates unique score_all sort insert in refl)
