-- ===== src/Agent/Graph/Examples.antt =====
-- The graph at the concrete flow, step by step.
use tekijin.Prelude.{ℕ, zero, suc, ◌≡◌, ◌≢◌, refl, Option, none, some, [], ◌∷◌, arith}
use tekijin.Scorer.{ids}
use tekijin.Agent.State.{AgentState, Reply, payload}
use tekijin.Agent.Deps.{Deps}
use tekijin.Agent.Nodes
use tekijin.Agent.Nodes.{Result, ok, raise, index_error}
use tekijin.Agent.Handoff
use tekijin.Agent.Pick
use tekijin.Agent.Graph.{Node, reset, send, c7_draft, ask, step, exec, next, Reach, start, move}
use tekijin.Agent.Graph.Flow.{flow, vague_flow, asked}
use tekijin.Agent.Graph.Segment.{out_of_fuel, segment, segment_stops}
use tekijin.Route.{decide_route}
use tekijin.Scorer.{rank, rank_scored, candidates, unique, score_all, sort, insert}
use tekijin.Agent.State.{text}
use tekijin.Agent.Graph.Safety.{IsGoodNext, Reach-IsGood}
use tekijin.Agent.Graph.Handing.{Reach-no_index_error}

abbrev pub onward :
    (Option Node → AgentState → Result (Option Node × AgentState))
    → Result (Option Node × AgentState)
    → Result (Option Node × AgentState)
onward go (raise e) = raise e
onward go (ok (m, t)) = go m t

-- Some steps of a run, each with the same reply.
abbrev pub steps : Deps → Reply → ℕ → Option Node → AgentState → Result (Option Node × AgentState)
steps d reply zero m s = ok (m, s)
steps d reply (suc k) none s = ok (none, s)
steps d reply (suc k) (some n) s = onward (steps d reply k) (step d n s reply)

abbrev pub state_of : AgentState → Result (Option Node × AgentState) → AgentState
state_of s (ok (m, t)) = t
state_of s (raise e) = s

-- What some steps come to is reached, unless a node raises.
abbrev Reaches : Deps → Result (Option Node × AgentState) → Type 0
Reaches d (ok (m, t)) = Reach d m t
Reaches d (raise e) = Unit

Reaches-move :
    (d : Deps) (n : Node) (s : AgentState) (reply : Reply) (r : Result (Option Node × AgentState))
    → Reach d (some n) s
    → step d n s reply ≡ r
    → Reaches d r
Reaches-move d n s reply (ok (m, t)) h e = move reply h e
Reaches-move d n s reply (raise x) h e = tt

Reaches-onward :
    (d : Deps) (go : Option Node → AgentState → Result (Option Node × AgentState))
    (r : Result (Option Node × AgentState))
    → Reaches d r
    → ((m : Option Node) (t : AgentState) → Reach d m t → Reaches d (go m t))
    → Reaches d (onward go r)
Reaches-onward d go (ok (m, t)) h k = k m t h
Reaches-onward d go (raise e) h k = tt

steps-Reaches :
    (d : Deps) (reply : Reply) (k : ℕ) (m : Option Node) (s : AgentState)
    → Reach d m s
    → Reaches d (steps d reply k m s)
steps-Reaches d reply zero m s h = h
steps-Reaches d reply (suc k) none s h = h
steps-Reaches d reply (suc k) (some n) s h =
    Reaches-onward d (steps d reply k) (step d n s reply)
      (Reaches-move d n s reply (step d n s reply) h refl) (λ m t r. steps-Reaches d reply k m t r)

-- The run up to the draft, and up to the hand-off.
abbrev pub run : ℕ → Result (Option Node × AgentState)
run k = steps flow payload k (some reset) asked

abbrev at_draft : AgentState
at_draft = state_of asked (run 8)

abbrev pub at_send : AgentState
at_send = state_of asked (run 9)

run-at_draft : Reach flow (some c7_draft) at_draft
unfolding step exec next Nodes.reset Nodes.c1_intent Nodes.c2_sufficiency Nodes.can_route
    Nodes.c3_embed Nodes.c4_retrieve Nodes.c5_route Handoff.answerability
    Handoff.answerability_evidence Pick.c6_score Pick.scored Pick.fresh_rows Pick.seated
    Pick.backfill Pick.referral_pin Pick.prior_pin Pick.open_candidates Pick.candidate_pool
    Pick.split_by_branch Pick.requested_branch Pick.note_unmet_branch Pick.note_one Pick.is_at
    Pick.rank_query decide_route rank rank_scored candidates unique score_all sort insert
run-at_draft = steps-Reaches flow payload 8 (some reset) asked (start asked)

pub run-at_send : Reach flow (some send) at_send
unfolding step exec next Nodes.reset Nodes.c1_intent Nodes.c2_sufficiency Nodes.can_route
    Nodes.c3_embed Nodes.c4_retrieve Nodes.c5_route Handoff.answerability
    Handoff.answerability_evidence Pick.c6_score Pick.scored Pick.fresh_rows Pick.seated
    Pick.backfill Pick.referral_pin Pick.prior_pin Pick.open_candidates Pick.candidate_pool
    Pick.split_by_branch Pick.requested_branch Pick.note_unmet_branch Pick.note_one Pick.is_at
    Pick.rank_query decide_route rank rank_scored candidates unique score_all sort insert
    Handoff.c7_draft
run-at_send = steps-Reaches flow payload 9 (some reset) asked (start asked)

-- The one person of the requested branch, then two from elsewhere.
at_send-people : ids at_send.recommendations ≡ 14 ∷ 12 ∷ 13 ∷ []
unfolding step exec next Nodes.reset Nodes.c1_intent Nodes.c2_sufficiency Nodes.can_route
    Nodes.c3_embed Nodes.c4_retrieve Nodes.c5_route Handoff.answerability
    Handoff.answerability_evidence Pick.c6_score Pick.scored Pick.fresh_rows Pick.seated
    Pick.backfill Pick.referral_pin Pick.prior_pin Pick.open_candidates Pick.candidate_pool
    Pick.split_by_branch Pick.requested_branch Pick.note_unmet_branch Pick.note_one Pick.is_at
    Pick.rank_query decide_route rank rank_scored candidates unique score_all sort insert
    Handoff.c7_draft
at_send-people = refl

Reach-no_index_error_example : step flow c7_draft at_draft payload ≢ raise index_error
Reach-no_index_error_example = Reach-no_index_error payload run-at_draft

Reach-IsGood_example : IsGoodNext flow (some send) at_send
Reach-IsGood_example = Reach-IsGood run-at_send

-- The analysis finds no topic, so that the run asks back.
abbrev pub at_ask : AgentState
at_ask = state_of asked (steps vague_flow payload 3 (some reset) asked)

pub run-at_ask : Reach vague_flow (some ask) at_ask
unfolding step exec next Nodes.reset Nodes.c1_intent Nodes.c2_sufficiency Nodes.can_route
run-at_ask = steps-Reaches vague_flow payload 3 (some reset) asked (start asked)

segment_stops_example : segment flow 14 reset asked ≢ out_of_fuel
segment_stops_example = segment_stops flow 14 reset asked (omega arith)

-- The responder accepts.
abbrev at_handed : AgentState
at_handed = state_of asked (steps flow (text "accepted") 1 (some send) at_send)
