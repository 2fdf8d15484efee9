-- ===== src/Agent/Graph.antt =====
-- agent/graph.py: the routers and the wiring of the nodes, and a run as a sequence of steps.
-- A node runs, the update is merged, and the router picks the next node; `none` is END.
pub mod Segment
pub mod Safety
pub mod Handing
pub mod Terminals
pub mod Flow
pub mod Examples
use tekijin.Prelude.{
  String, Bool, true, false, ◌&&◌, Option, none, some, List, [], ◌∷◌, if◌then◌else◌, is_nonempty,
  is_some, str_eq, ◌≡◌,
}
use tekijin.Route.{Route, person}
use tekijin.Route
use tekijin.Agent.State.{AgentState, Reply, Answer, text}
use tekijin.Agent.State
use tekijin.Agent.Deps.{Deps}
use tekijin.Agent.Pick
use tekijin.Agent.Nodes
use tekijin.Agent.Nodes.{Result, ok, raise, Error}
use tekijin.Agent.Handoff
use tekijin.Agent.Answering

pub data Node : Type 0 where
  reset c1_intent c2_sufficiency ask c3_embed knowledge_answer c4_retrieve c5_route : Node
  self_answer additive_answer prior_answer c6_score answerability c7_draft send reroute : Node
  c8_update off_topic document no_candidate no_expert unresolved_intent self_answered : Node

after_c1 : AgentState → Node
after_c1 s = if s.intent.out_of_scope then off_topic else c2_sufficiency

after_c2 : AgentState → Node
after_c2 s =
    if s.sufficiency.intent_unresolved
    then unresolved_intent
    else if s.sufficiency.sufficient
    then c3_embed
    else ask

abbrev pub is_document : Route → Bool
is_document Route.document = true
is_document _ = false

unfoldable pub after_c6 : AgentState → Node
after_c6 s =
    if is_document s.routing.route
    then document
    else if is_nonempty s.recommendations
    then c7_draft
    else no_candidate

after_knowledge_answer : AgentState → Node
after_knowledge_answer s = if s.self_answer.grounded then self_answered else c4_retrieve

after_self_answer : AgentState → Node
after_self_answer s =
    if s.self_answer.grounded
    then self_answered
    else if is_document s.routing.route
    then c6_score
    else prior_answer

after_answerability : AgentState → Node
after_answerability s = if s.verdict.answerable then c7_draft else no_expert

-- `outcome == label`
abbrev pub is_outcome : Option Reply → String → Bool
is_outcome none label = false
is_outcome (some (text t)) label = str_eq t label
is_outcome (some State.payload) label = false

after_send : AgentState → Node
after_send s =
    if is_outcome s.outcome "declined"
    then reroute
    else if is_outcome s.outcome "accepted"
    then c8_update
    else if is_outcome s.outcome "redraft"
    then c7_draft
    else send

-- The targets that `build_agent` sets by what is wired.
abbrev pub critique_wired : Deps → Bool
critique_wired d = is_some d.assess

abbrev pub self_answer_wired : Deps → Bool
self_answer_wired d = is_some d.compose

abbrev pub knowledge_wired : Deps → Bool
knowledge_wired d = is_some d.answer_from_knowledge

person_target : Deps → Node
person_target d =
    if self_answer_wired d && d.additive_self_answer_enabled then additive_answer else c6_score

route_target : Deps → Route → Node
unfolding person_target
route_target d Route.person = person_target d
route_target d Route.prior_answer = if self_answer_wired d then self_answer else prior_answer
route_target d Route.document = if self_answer_wired d then self_answer else c6_score

unfoldable pub handoff_target : Deps → Node → Node
handoff_target d c7_draft = if critique_wired d then answerability else c7_draft
handoff_target d other = other

-- The edges of the compiled graph.
unfoldable pub next : Deps → Node → AgentState → Option Node
unfolding after_c1 after_c2 after_c6 after_knowledge_answer after_self_answer after_answerability
    after_send route_target handoff_target
next d reset s = some c1_intent
next d c1_intent s = some (after_c1 s)
next d c2_sufficiency s = some (after_c2 s)
next d ask s = some c1_intent
next d c3_embed s = some (if knowledge_wired d then knowledge_answer else c4_retrieve)
next d knowledge_answer s = some (after_knowledge_answer s)
next d c4_retrieve s = some c5_route
next d c5_route s = some (route_target d s.routing.route)
next d self_answer s = some (after_self_answer s)
next d additive_answer s = some c6_score
next d prior_answer s = some c6_score
next d c6_score s = some (handoff_target d (after_c6 s))
next d answerability s = some (after_answerability s)
next d c7_draft s = some send
next d send s = some (after_send s)
next d reroute s = some c6_score
next d _ s = none

-- What a node does to the state; only `ask` and `send` read the reply.
unfoldable pub exec : Deps → Node → AgentState → Reply → Result AgentState
exec d reset s reply = Nodes.reset d s
exec d c1_intent s reply = ok (Nodes.c1_intent d s)
exec d c2_sufficiency s reply = ok (Nodes.c2_sufficiency d s)
exec d ask s reply = ok (Nodes.ask d s reply)
exec d c3_embed s reply = ok (Nodes.c3_embed d s)
exec d knowledge_answer s reply = ok (Answering.knowledge_answer d s)
exec d c4_retrieve s reply = ok (Nodes.c4_retrieve d s)
exec d c5_route s reply = ok (Nodes.c5_route d s)
exec d self_answer s reply = Answering.self_answer d s
exec d additive_answer s reply = ok (Answering.additive_answer d s)
exec d prior_answer s reply = ok (Nodes.prior_answer s)
exec d c6_score s reply = ok (Pick.c6_score d s)
exec d answerability s reply = ok (Handoff.answerability d s)
exec d c7_draft s reply = Handoff.c7_draft d s
exec d send s reply = ok (Handoff.send s reply)
exec d reroute s reply = ok (Handoff.reroute s)
exec d c8_update s reply = ok (Handoff.c8_update s)
exec d off_topic s reply = ok (Answering.say Answer.off_topic s)
exec d document s reply = ok (Answering.document s)
exec d no_candidate s reply = ok (Answering.say Answer.no_candidate s)
exec d no_expert s reply = ok (Answering.say Answer.no_expert s)
exec d unresolved_intent s reply = ok (Answering.say Answer.unresolved s)
exec d self_answered s reply = ok (Answering.self_answered s)

abbrev pub then_next : Deps → Node → Result AgentState → Result (Option Node × AgentState)
then_next d n (ok s) = ok (next d n s, s)
then_next d n (raise e) = raise e

unfoldable pub step : Deps → Node → AgentState → Reply → Result (Option Node × AgentState)
step d n s reply = then_next d n (exec d n s reply)

-- What a run that starts with a fresh `invoke` reaches, whatever the people reply.
pub data Reach (d : Deps) : Option Node → AgentState → Type 0 where
  start : (s : AgentState) → Reach d (some reset) s
  move :
      {n : Node} {s : AgentState} {m : Option Node} {t : AgentState} (reply : Reply)
      → Reach d (some n) s
      → step d n s reply ≡ ok (m, t)
      → Reach d m t
