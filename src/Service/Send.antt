-- ===== src/Service/Send.antt =====
-- api/service.py: how an update of the graph is timed and sent.
use Prim.Native.Nat.{◌/◌, ◌%◌}
use tekijin.Prelude.{
  ℕ, suc, ◌+◌, ◌-◌, String, ◌&&◌, ◌||◌, Option, none, some, List, [], ◌∷◌, ◌++◌, if◌then◌else◌,
  is_nonempty, is_str, ltb, ◌==◌,
}
use tekijin.Scorer.{ScoredCandidate}
use tekijin.Agent.{AgentState}
use tekijin.Agent.Graph
use tekijin.Agent.Graph.{Node, c6_score, reset, next, exec, critique_wired, is_document}
use tekijin.Events.{ServerSentEvent, node_event, is_terminal, recommended}
use tekijin.Store.{EventRow}
use tekijin.Service.State.{Env}
use tekijin.Service.Persist.{
  Segment, is_deferred, send_one, persist_update, persist_recommendations,
}

-- The nodes by the names that `build_agent` gives them.
abbrev pub node_name : Node → String
node_name reset = "reset"
node_name Graph.c1_intent = "c1_intent"
node_name Graph.c2_sufficiency = "c2_sufficiency"
node_name Graph.ask = "ask"
node_name Graph.c3_embed = "c3_embed"
node_name Graph.knowledge_answer = "knowledge_answer"
node_name Graph.c4_retrieve = "c4_retrieve"
node_name Graph.c5_route = "c5_route"
node_name Graph.self_answer = "self_answer"
node_name Graph.additive_answer = "additive_answer"
node_name Graph.prior_answer = "prior_answer"
node_name c6_score = "c6_score"
node_name Graph.answerability = "answerability"
node_name Graph.c7_draft = "c7_draft"
node_name Graph.send = "send"
node_name Graph.reroute = "reroute"
node_name Graph.c8_update = "c8_update"
node_name Graph.off_topic = "off_topic"
node_name Graph.document = "document"
node_name Graph.no_candidate = "no_candidate"
node_name Graph.no_expert = "no_expert"
node_name Graph.unresolved_intent = "unresolved_intent"
node_name Graph.self_answered = "self_answered"

-- The time of this stage: from the end of the stage before.
unfoldable pub time_stage : Env → String → Segment → Segment
time_stage env stage seg =
    let now = env.node_clock seg.readings in
    record seg {
      rows = elim seg.question_id [
        | none ↦ seg.rows
        | some id ↦ seg.rows ++ ((stage, seg.prev, now, none) ∷ [])
      ];
      prev = now;
      readings = suc seg.readings;
    }

abbrev pub total_micros : List EventRow → ℕ
total_micros [] = 0
total_micros ((stage, started, ended, meta) ∷ rows) = (ended - started) + total_micros rows

-- `round(total * 1000)`: to the nearest, and to the even one from the middle.
unfoldable pub segment_latency_ms : List EventRow → ℕ
segment_latency_ms rows =
    let micros = total_micros rows in
    let whole = micros / 1000 in
    let rest = micros % 1000 in
    if ltb 500 rest || (rest == 500 && whole % 2 == 1) then suc whole else whole

abbrev pub latency_of : Node → Segment → Option ℕ
latency_of n seg =
    if is_terminal n && is_nonempty seg.rows then some (segment_latency_ms seg.rows) else none

-- The rows and the event that wait for the critic; they come from the state where an earlier
-- segment scored them.
abbrev pub held_back :
    AgentState
    → Option (List ScoredCandidate)
    → Option ServerSentEvent
    → List ScoredCandidate × Option ServerSentEvent
held_back s none event = (s.recommendations, some (recommended s.recommendations))
held_back s (some recs) event = (recs, event)

abbrev pub decided : Option ServerSentEvent → Option Segment → Option Segment
decided event none = none
decided event (some seg) =
    some (send_one event (record seg { pending_recommend = none; pending_recs = none }))

-- The critic's decision: the rows that it lets pass are stored and shown.
unfoldable pub decide_critic : Env → AgentState → Segment → Option Segment
decide_critic env s seg =
    let (recs, event) = held_back s seg.pending_recs seg.pending_recommend in
    let stored = decided event (persist_recommendations env recs seg) in
    if s.verdict.answerable then stored else decided none (some seg)

-- The event of an update, held back where the source holds it back.
unfoldable pub send_event : Env → Node → AgentState → AgentState → Segment → Option Segment
send_event env c6_score before s seg =
    let event = node_event env.deps c6_score before s none in
    if is_str seg.route "document"
    then some seg
    else if is_deferred env s
    then some (record seg { pending_recommend = event })
    else some (send_one event seg)
send_event env Graph.answerability before s seg = decide_critic env s seg
send_event env n before s seg =
    some (send_one (node_event env.deps n before s (latency_of n seg)) seg)

-- The node's update is merged and the next node is known: the state is saved.
abbrev pub saved_update : Env → Node → AgentState → Segment → Segment
saved_update env n s seg = record seg {
  checkpoint = record (seg.checkpoint) { next = next env.deps n s; values = s };
}

abbrev pub sent_update : Env → Node → AgentState → AgentState → Option Segment → Option Segment
sent_update env n before s none = none
sent_update env n before s (some seg) = send_event env n before s (time_stage env (node_name n) seg)

-- One update of the stream: it is persisted, timed and sent.
unfoldable pub take_update : Env → Node → AgentState → AgentState → Segment → Option Segment
take_update env n before s seg = sent_update env n before s (persist_update env n s seg)
