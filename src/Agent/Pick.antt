-- ===== src/Agent/Pick.antt =====
-- agent/nodes.py: `c6_score` and its helpers.
pub mod Clean
pub mod Shortlist
pub mod Seat
pub mod Branch
use tekijin.Prelude.{
  ℕ, suc, ◌-◌, ◌+◌, String, ◌<>◌, Bool, true, false, not, ◌&&◌, ◌||◌, Option, none, some, List, [],
  ◌∷◌, ◌++◌, map, if◌then◌else◌, length, ltb, ◌==◌, is_nonempty, select, elem, is_id, is_text,
  is_str,
}
use tekijin.Route.{Route, prior_answer, RetrievalResult}
use tekijin.Scorer.{ScoredReason, ScoredCandidate, ids, RankQuery}
use tekijin.Agent.State.{Asker, AgentState}
use tekijin.Agent.Deps.{Deps}

-- `asker.get("id") if asker else None`
abbrev pub asker_id : Option Asker → Option ℕ
asker_id none = none
asker_id (some asker) = asker.id

abbrev is_prior_answer : Route → Bool
is_prior_answer prior_answer = true
is_prior_answer _ = false

unfoldable pub candidate_pool : Deps → RetrievalResult → List ℕ
candidate_pool d r = elim d.employee_source [ none ↦ r.candidate_people | some roster ↦ roster ]

-- `if not enabled or not branch or employee_branches is None: return None`
live_branch : Bool → Option String → Option (ℕ → Option String) → Option String
live_branch true (some branch) (some branches) = if is_text branch then some branch else none
live_branch _ _ _ = none

unfoldable pub requested_branch : Deps → AgentState → Option String
unfolding live_branch
requested_branch d s =
    live_branch d.branch_constraint_enabled s.intent.constraint_branch d.employee_branches

-- `getattr(by_id.get(id), "branch", None) == branch`
unfoldable pub is_at : Deps → String → ℕ → Bool
is_at d branch n = elim d.employee_branches [
  | none ↦ false
  | some branches ↦ is_str (branches n) branch
]

pub constraint_note : String → ScoredReason
constraint_note branch = record {
  type = "constraint";
  detail = branch <> "に該当者が足りないため、他拠点から含めています";
}

unfoldable pub note_one : Deps → String → ScoredCandidate → ScoredCandidate
unfolding is_at constraint_note
note_one d branch c =
    if is_at d branch c.person_id
    then c
    else record c { reasons = c.reasons ++ (constraint_note branch ∷ []) }

unfoldable pub note_unmet_branch : Deps → AgentState → List ScoredCandidate → List ScoredCandidate
note_unmet_branch d s recs = elim (requested_branch d s) [
  | none ↦ recs
  | some branch ↦ map (note_one d branch) recs
]

-- `c not in set(matching)`
abbrev pub is_other : List ℕ → ℕ → Bool
is_other matching n = not (elem n matching)

unfoldable pub split_by_branch : Deps → AgentState → List ℕ → List ℕ × List ℕ
split_by_branch d s candidates = elim (requested_branch d s) [
  | none ↦ (candidates, [])
  | some branch ↦
      let matching = select (is_at d branch) candidates in
      (matching, select (is_other matching) candidates)
]

unfoldable pub rank_query : Deps → AgentState → RankQuery
rank_query d s = record {
  topics = s.intent.topics;
  asker_id = asker_id s.asker;
  now = s.now.micros;
  question_similarity =
      if d.question_fit_enabled then some s.retrieval.person_question_similarity else none;
}

-- The condition under which a pin is kept.
abbrev pin_if : Bool → Option ℕ → AgentState → Option ℕ
pin_if live none s = none
pin_if live (some n) s =
    if live
      && (not (elem n s.declined_ids)
          && (not (is_id (asker_id s.asker) n) && not (elem n (ids s.recommendations))))
    then some n
    else none

unfoldable pub prior_pin : AgentState → Option ℕ
prior_pin s = pin_if (is_prior_answer s.routing.route) s.pinned_responder_id s

unfoldable pub referral_pin : AgentState → Option ℕ
referral_pin s = pin_if true s.referred_responder_id s

pub referral_reason : ScoredReason
referral_reason = record { type = "referral"; detail = "担当者からの推薦" }

-- `fresh[0]["reasons"] = [referral, *fresh[0]["reasons"]]`
vouch : List ScoredCandidate → List ScoredCandidate
unfolding referral_reason
vouch [] = []
vouch (c ∷ fresh) = record c { reasons = referral_reason ∷ c.reasons } ∷ fresh

seat : Deps → AgentState → ℕ → List ScoredCandidate
seat d s pin = note_unmet_branch d s (d.scorer.rank (rank_query d s) (pin ∷ []) 1)

-- The candidates that a pin seats before the pool is asked.
unfoldable pub seated : Deps → AgentState → List ScoredCandidate
unfolding vouch seat
seated d s = elim (referral_pin s) [
  | some pin ↦ vouch (seat d s pin)
  | none ↦ elim (prior_pin s) [ some pin ↦ seat d s pin | none ↦ [] ]
]

-- `rank(matching, remaining) if matching else []`
pub branch_first : Deps → AgentState → List ℕ → ℕ → List ScoredCandidate
branch_first d s matching remaining =
    if is_nonempty matching then d.scorer.rank (rank_query d s) matching remaining else []

-- `rank(others, short)` under `if short > 0`.
others_after : Deps → AgentState → List ℕ → ℕ → List ScoredCandidate
others_after d s others short =
    if ltb 0 short then d.scorer.rank (rank_query d s) others short else []

-- The branch's people first, then the others for the slots that are left.
pick_constrained : Deps → AgentState → List ℕ → List ℕ → ℕ → List ScoredCandidate
unfolding branch_first others_after
pick_constrained d s matching others remaining =
    let picked = branch_first d s matching remaining in
    note_unmet_branch d s (picked ++ others_after d s others (remaining - length picked))

-- `if candidates:` under `if remaining > 0:`; `split` is the result of `_split_by_branch`.
pick_split : Deps → AgentState → List ℕ × List ℕ → List ℕ → ℕ → List ScoredCandidate
unfolding pick_constrained
pick_split d s (matching, []) candidates remaining =
    d.scorer.rank (rank_query d s) candidates remaining
pick_split d s (matching, n ∷ others) candidates remaining =
    pick_constrained d s matching (n ∷ others) remaining

-- `p not in declined and p not in filled_ids`
abbrev pub is_open : List ℕ → List ℕ → ℕ → Bool
is_open declined filled n = not (elem n declined) && not (elem n filled)

-- The people of the pool whom scoring may still show.
unfoldable pub open_candidates : Deps → AgentState → List ℕ → List ℕ
open_candidates d s filled = select (is_open s.declined_ids filled) (candidate_pool d s.retrieval)

unfoldable pub backfill : Deps → AgentState → List ℕ → ℕ → List ScoredCandidate
unfolding pick_split
backfill d s filled remaining =
    let candidates = open_candidates d s filled in
    if ltb 0 remaining && is_nonempty candidates
    then pick_split d s (split_by_branch d s candidates) candidates remaining
    else []

-- `_scored`: a referral is consumed by the pass.
unfoldable pub scored : List ScoredCandidate → AgentState → AgentState
scored recs s = record s { recommendations = recs; referred_responder_id = none }

abbrev pub top_k : ℕ
top_k = 3

-- The rows that a pass adds behind those that survived a decline.
unfoldable pub fresh_rows : Deps → AgentState → ℕ → List ScoredCandidate
fresh_rows d s remaining =
    let pinned = seated d s in
    pinned ++ backfill d s (ids s.recommendations ++ ids pinned) (remaining - length pinned)

unfoldable pub c6_score : Deps → AgentState → AgentState
c6_score d s =
    let existing = s.recommendations in
    let remaining = top_k - length existing in
    if not (is_nonempty s.intent.topics) || remaining == 0
    then scored existing s
    else scored (existing ++ fresh_rows d s remaining) s
