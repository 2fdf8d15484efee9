-- ===== src/Agent/Graph/Segment.antt =====
-- A run between two pauses: agent/graph.py. The nodes `ask` and `send` wait for a person.
use tekijin.Prelude.{
  ℕ, zero, suc, ◌<◌, ◌≡◌, ◌≢◌, refl, Bool, true, false, Option, none, some, arith, if◌then◌else◌,
  Bool-cases, inl, inr,
}
use tekijin.Agent.State
use tekijin.Agent.State.{AgentState}
use tekijin.Agent.Deps.{Deps}
use tekijin.Agent.Nodes.{Result, ok, raise, Error}
use tekijin.Agent.Graph.{
  Node, reset, c1_intent, c2_sufficiency, ask, c3_embed, knowledge_answer, c4_retrieve, c5_route,
  self_answer, additive_answer, prior_answer, c6_score, answerability, c7_draft, send, reroute,
  next, exec, step, then_next,
}

abbrev pub is_pause : Node → Bool
is_pause ask = true
is_pause send = true
is_pause _ = false

-- How a segment of a run stops.
pub data Stop : Type 0 where
  paused : Node → AgentState → Stop
  ended : AgentState → Stop
  failed : Error → Stop
  out_of_fuel : Stop

after_step : (Node → AgentState → Stop) → Result (Option Node × AgentState) → Stop
after_step go (raise e) = failed e
after_step go (ok (none, t)) = ended t
after_step go (ok (some m, t)) = go m t

-- Runs nodes from one on until a node waits for a person, the run ends or a node raises.
pub segment : Deps → ℕ → Node → AgentState → Stop
unfolding after_step
segment d zero n s = out_of_fuel
segment d (suc fuel) n s =
    let rest = after_step (segment d fuel) (step d n s State.payload) in
    if is_pause n then paused n s else rest

-- How many nodes can run from one on before a pause.
abbrev pub height : Node → ℕ
height reset = 13
height c1_intent = 12
height c2_sufficiency = 11
height c3_embed = 10
height knowledge_answer = 9
height c4_retrieve = 8
height c5_route = 7
height self_answer = 6
height prior_answer = 5
height additive_answer = 5
height reroute = 5
height c6_score = 4
height answerability = 3
height c7_draft = 2
height _ = 1

-- Every edge that leaves no pause goes down.
pub next-height :
    (d : Deps) (n : Node) (s : AgentState) {m : Node}
    → is_pause n ≡ false
    → next d n s ≡ some m
    → height m < height n
unfolding next
next-height d reset s p e = ground arith
next-height d _ s p e = ground arith

then_next-some :
    (d : Deps) (n : Node) (r : Result AgentState) {m : Node} {t : AgentState}
    → then_next d n r ≡ ok (some m, t)
    → (s : AgentState) × (next d n s ≡ some m) × (s ≡ t)
then_next-some d n (ok s) e = (s, ground arith, ground arith)
then_next-some d n (raise x) e = cc

step-height :
    (d : Deps) (n : Node) (s : AgentState) (reply : State.Reply) {m : Node} {t : AgentState}
    → is_pause n ≡ false
    → step d n s reply ≡ ok (some m, t)
    → height m < height n
unfolding step
step-height d n s reply p e =
    let (s', e', same) = then_next-some d n (exec d n s reply) e in next-height d n s' p e'

after_step-stops :
    (go : Node → AgentState → Stop) (r : Result (Option Node × AgentState))
    → ((m : Node) (t : AgentState) → r ≡ ok (some m, t) → go m t ≢ out_of_fuel)
    → after_step go r ≢ out_of_fuel
unfolding after_step
after_step-stops go (raise e) h = λ e. cc
after_step-stops go (ok (none, t)) h = λ e. cc
after_step-stops go (ok (some m, t)) h = h m t refl

-- With fuel above the height of its first node, a segment does not run out of fuel: it pauses for
-- a person, ends or raises.
pub segment_stops :
    (d : Deps) (fuel : ℕ) (n : Node) (s : AgentState)
    → height n < fuel
    → segment d fuel n s ≢ out_of_fuel
unfolding segment
segment_stops d zero n s h = absurd (omega arith)
segment_stops d (suc fuel) n s h = elim (Bool-cases (is_pause n)) [
  | inl e ↦ rw e (λ e'. cc)
  | inr e ↦ rw e (
      after_step-stops (segment d fuel) (step d n s State.payload)
        (λ m t e'. segment_stops d fuel m t (omega (arith, step-height d n s State.payload e e'))))
]
