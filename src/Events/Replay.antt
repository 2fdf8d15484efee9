-- ===== src/Events/Replay.antt =====
-- The progress that is replayed for a run that waits: api/events.py over agent/graph.py.
use tekijin.Prelude.{
  ◌≡◌, refl, true, false, Option, none, some, List, [], ◌∷◌, ◌++◌, is_some, arith, inl, inr,
  Bool-cases, is_text, not,
}
use mathlib.Core.Path.{subst}
use tekijin.Agent.{
  AgentState, Reply, Result, ok, raise, c1_intent, c2_sufficiency, c3_embed, c4_retrieve, c5_route,
  prior_answer, c6_score, scored, answerability, c7_draft, draft_for, send, reroute, c8_update,
  knowledge_answer, self_answer, self_answered, additive_answer, document, say, ask, reset,
}
use tekijin.Agent.Deps.{Deps}
use tekijin.Agent.Graph
use tekijin.Agent.Graph.{Node, Reach, start, move, exec, step, next}
use tekijin.Agent.Graph.Safety.{Reach-IsGood}
use tekijin.Events.Wire.{
  ServerSentEvent, node_event, progress_events, reference_of, the, understanding,
}

-- Nothing but the analysis has run since `reset`.
pub record IsUnrouted (s : AgentState) : Type 0 where
  pub unrouted : is_some s.routing.reason ≡ false
  pub unshown : s.recommendations ≡ []
  pub undrafted : s.draft ≡ none
  pub alone : s.additive.text ≡ none

-- What the marks of a run say at each node.
abbrev IsMarked : Node → AgentState → Type 0
IsMarked Graph.reset s = Unit
IsMarked Graph.c1_intent s = IsUnrouted s
IsMarked Graph.c2_sufficiency s = IsUnrouted s
IsMarked Graph.ask s = IsUnrouted s
IsMarked Graph.c3_embed s = IsUnrouted s
IsMarked Graph.knowledge_answer s = IsUnrouted s
IsMarked Graph.c4_retrieve s = IsUnrouted s
IsMarked Graph.c5_route s = IsUnrouted s
IsMarked Graph.off_topic s = Unit
IsMarked Graph.unresolved_intent s = Unit
IsMarked Graph.self_answered s = Unit
IsMarked Graph.send s = (is_some s.routing.reason ≡ true) × (is_some s.draft ≡ true)
IsMarked _ s = is_some s.routing.reason ≡ true

abbrev IsMarkedNext : Option Node → AgentState → Type 0
IsMarkedNext none s = Unit
IsMarkedNext (some n) s = IsMarked n s

abbrev Marks : Result (Option Node × AgentState) → Type 0
Marks (ok (m, s)) = IsMarkedNext m s
Marks (raise e) = Unit

reset-Marks : (d : Deps) (s : AgentState) (reply : Reply) → Marks (step d Graph.reset s reply)
unfolding step exec next reset
reset-Marks d s reply = elim (Bool-cases (not (is_text (d.strip s.question)))) [
  | inl e ↦ rw e tt
  | inr e ↦ elim (Bool-cases s.now.aware) [
    | inl e' ↦ rw (e, e') tt
    | inr e' ↦
        rw (e, e') (record { unrouted = refl; unshown = refl; undrafted = refl; alone = refl })
  ]
]

c6_score-routing : (d : Deps) (s : AgentState) → (c6_score d s).routing ≡ s.routing
unfolding c6_score scored
c6_score-routing d s = ground arith

step-Marks :
    (d : Deps) (n : Node) (s : AgentState) (reply : Reply) → IsMarked n s → Marks (step d n s reply)
unfolding step exec next c1_intent c2_sufficiency ask c3_embed c4_retrieve c5_route prior_answer
    answerability c7_draft draft_for send c8_update reroute knowledge_answer self_answer
    self_answered additive_answer document say
step-Marks d Graph.reset s reply g = reset-Marks d s reply
step-Marks d Graph.c6_score s reply g = ground (arith, c6_score-routing d s)
step-Marks d _ s reply g = ground arith

Reach-IsMarked : {d : Deps} {m : Option Node} {s : AgentState} → Reach d m s → IsMarkedNext m s
Reach-IsMarked (start s) = tt
Reach-IsMarked {d} (move {n} {s} reply r e) =
    subst Marks e (step-Marks d n s reply (Reach-IsMarked r))

-- What a node sends when its update leaves this state.
abbrev pub sends : Deps → Node → AgentState → List ServerSentEvent
sends d n s = the (node_event d n s s none)

-- The progress that is replayed for a run that waits for a clarification is the understanding alone.
pub progress_events-ask :
    {d : Deps} {s : AgentState}
    → Reach d (some Graph.ask) s
    → progress_events s ≡ understanding s s.similar_asker_count ∷ []
unfolding progress_events
progress_events-ask r =
    let g = Reach-IsMarked r in rw (g.unrouted, g.unshown, g.undrafted, g.alone) refl

-- The progress that is replayed for a run that waits for a responder is the understanding, what the
-- route decision sends, the reference if there is one, what the scoring sends and what the draft
-- sends, in this order: the events that these nodes send live when they leave these values.
pub progress_events-send :
    {d : Deps} {s : AgentState}
    → Reach d (some Graph.send) s
    → progress_events s
      ≡ understanding s s.similar_asker_count
        ∷ (sends d Graph.c5_route s
            ++ (the (reference_of (some s.additive))
                ++ (sends d Graph.c6_score s ++ sends d Graph.c7_draft s)))
unfolding progress_events node_event
progress_events-send r =
    let (routed, drafted) = Reach-IsMarked r in
    let (sound, expert, passed) = Reach-IsGood r in rw (routed, drafted, expert.someone) refl
