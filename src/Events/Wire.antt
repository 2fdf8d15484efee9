-- ===== src/Events/Wire.antt =====
-- api/events.py: how a node's update becomes an event. An event keeps its data as a record; the
-- service serialises it.
use Prim.Native.Nat.{zero, ◌/◌, ◌%◌}
use tekijin.Prelude.{
  ℕ, suc, String, ◌<>◌, Option, none, some, List, [], ◌∷◌, ◌++◌, map, if◌then◌else◌, Bool, true,
  false, is_nonempty, is_text, is_some, or_empty, ltb, ◌==◌,
}
use tekijin.Prelude.Int.{ℤ}
use tekijin.Route.{Score, Route, RouteReason}
use tekijin.Scorer.{ScoredReason, ScoredCandidate}
use tekijin.Agent.{AgentState, Additive, Citation, Answer, similar_update, additive_update}
use tekijin.Agent.Deps.{Deps}
use tekijin.Agent.Graph.{Node}
use tekijin.Agent.Graph

-- One decimal digit.
abbrev digit : ℕ → String
digit n =
    if n == 0
    then "0"
    else if n == 1
    then "1"
    else if n == 2
    then "2"
    else if n == 3
    then "3"
    else if n == 4
    then "4"
    else if n == 5
    then "5"
    else if n == 6
    then "6"
    else if n == 7
    then "7"
    else if n == 8
    then "8"
    else "9"

-- The decimal digits, as many as the fuel allows.
abbrev decimal : ℕ → ℕ → String
decimal zero n = ""
decimal (suc fuel) n =
    let rest = decimal fuel (n / 10) in if ltb n 10 then digit n else rest <> digit (n % 10)

-- `f"E{employee_id:03d}"`; a number has fewer digits than `suc` of it.
unfoldable pub format_employee_id : ℕ → String
format_employee_id n =
    let digits = decimal (suc n) n in
    "E" <> ((if ltb n 10 then "00" else if ltb n 100 then "0" else "") <> digits)

-- A candidate as the client sees it.
pub record WireCandidate : Type 0 where
  pub person_id : String
  pub name : String
  pub dept : Option String
  pub score : ℤ
  pub confidence : String
  pub reasons : List ScoredReason

unfoldable pub external : ScoredCandidate → WireCandidate
external c = record {
  person_id = format_employee_id c.person_id;
  name = c.name;
  dept = c.dept;
  score = c.score;
  confidence = c.confidence;
  reasons = c.reasons;
}

pub record UnderstoodData : Type 0 where
  pub topics : List String
  pub products : List String
  pub situation : Option String
  pub question_type : String
  pub confidence : Score
  pub similar_asker_count : ℕ

pub record MessageData : Type 0 where
  pub status : String
  pub message : Option Answer
  pub doc_id : Option String
  pub fallback_responder : Option WireCandidate
  pub citations : List Citation
  pub latency_ms : Option ℕ

-- The events by name, with their data.
pub data ServerSentEvent : Type 0 where
  understood : UnderstoodData → ServerSentEvent
  followup : String → List String → ServerSentEvent
  route : Route → Option RouteReason → Score → ServerSentEvent
  reference : String → List Citation → ServerSentEvent
  recommend : List WireCandidate → ServerSentEvent
  draft : String → ServerSentEvent
  done : String → Option Answer → Option ℕ → ServerSentEvent
  message : MessageData → ServerSentEvent
  error : ServerSentEvent

abbrev pub event_name : ServerSentEvent → String
event_name (understood u) = "understood"
event_name (followup q missing) = "followup"
event_name (route r reason c) = "route"
event_name (reference a citations) = "reference"
event_name (recommend recs) = "recommend"
event_name (draft t) = "draft"
event_name (done status a latency) = "done"
event_name (message m) = "message"
event_name error = "error"

-- `_TERMINAL_STATUS`
unfoldable pub terminal_status : Node → Option String
terminal_status Graph.off_topic = some "off_topic"
terminal_status Graph.document = some "document"
terminal_status Graph.unresolved_intent = some "unresolved"
terminal_status Graph.no_candidate = some "no_candidate"
terminal_status Graph.no_expert = some "no_expert"
terminal_status Graph.self_answered = some "self_answered"
terminal_status _ = none

-- `node in TERMINAL_NODES`
unfoldable pub is_terminal : Node → Bool
is_terminal Graph.c8_update = true
is_terminal n = is_some (terminal_status n)

-- `event in TERMINAL_EVENTS`
unfoldable pub is_terminal_event : ServerSentEvent → Bool
is_terminal_event (done status a latency) = true
is_terminal_event (message m) = true
is_terminal_event _ = false

abbrev pub or_zero : Option ℕ → ℕ
or_zero none = 0
or_zero (some n) = n

-- The `similar_asker_count` in the update of `c1_intent`, 0 where it is not written.
unfoldable pub counted : Deps → AgentState → AgentState → ℕ
counted d before after =
    if d.is_disallowed before.question then 0 else or_zero (similar_update d before after.intent)

abbrev pub understanding : AgentState → ℕ → ServerSentEvent
understanding s n = understood (record {
  topics = s.intent.topics;
  products = s.intent.products;
  situation = s.intent.situation;
  question_type = s.intent.question_type;
  confidence = s.intent.confidence;
  similar_asker_count = n;
})

abbrev pub routed : AgentState → ServerSentEvent
routed s = route s.routing.route s.routing.reason s.routing.confidence

abbrev pub recommended : List ScoredCandidate → ServerSentEvent
recommended recs = recommend (map external recs)

-- Only a text that is not empty is a reference.
abbrev pub reference_of : Option Additive → Option ServerSentEvent
reference_of none = none
reference_of (some a) = elim a.text [
  | none ↦ none
  | some t ↦ if is_text t then some (reference t a.citations) else none
]

-- A terminal's message. `document` is the only one whose update has a document and a fallback.
abbrev pub plain_message : String → AgentState → Option ℕ → MessageData
plain_message status s latency = record {
  status = status;
  message = s.terminal.answer;
  doc_id = none;
  fallback_responder = none;
  citations = [];
  latency_ms = latency;
}

abbrev pub wired : Option ScoredCandidate → Option WireCandidate
wired none = none
wired (some c) = some (external c)

-- One node's update as an event. The keys that the node writes are read in the state after it;
-- those that it may leave out come from its update.
unfoldable pub node_event :
    Deps → Node → AgentState → AgentState → Option ℕ → Option ServerSentEvent
unfolding counted
node_event d Graph.c1_intent before after latency =
    some (understanding after (counted d before after))
node_event d Graph.c5_route before after latency = some (routed after)
node_event d Graph.additive_answer before after latency = reference_of (additive_update d before)
node_event d Graph.c6_score before after latency = some (recommended after.recommendations)
node_event d Graph.c7_draft before after latency = some (draft (or_empty after.draft))
node_event d Graph.c8_update before after latency = some (done "sent" after.terminal.answer latency)
node_event d Graph.off_topic before after latency =
    some (message (plain_message "off_topic" after latency))
node_event d Graph.document before after latency = some (
    message (record (plain_message "document" after latency) {
      doc_id = after.terminal.document_id;
      fallback_responder = wired after.terminal.fallback_responder;
    }))
node_event d Graph.unresolved_intent before after latency =
    some (message (plain_message "unresolved" after latency))
node_event d Graph.no_candidate before after latency =
    some (message (plain_message "no_candidate" after latency))
node_event d Graph.no_expert before after latency =
    some (message (plain_message "no_expert" after latency))
node_event d Graph.self_answered before after latency = some (
    message (record (plain_message "self_answered" after latency) {
      citations = after.self_answer.citations;
    }))
node_event d _ before after latency = none

abbrev pub the : Option ServerSentEvent → List ServerSentEvent
the none = []
the (some e) = e ∷ []

-- The progress that a run already produced, rebuilt from its state.
unfoldable pub progress_events : AgentState → List ServerSentEvent
progress_events s =
    understanding s s.similar_asker_count ∷ (if is_some s.routing.reason then routed s ∷ [] else [])
    ++ (the (reference_of (some s.additive))
        ++ ((if is_nonempty s.recommendations then recommended s.recommendations ∷ [] else [])
            ++ (if is_some s.draft then draft (or_empty s.draft) ∷ [] else [])))

-- The pending interrupt of a run that waits before a node.
unfoldable pub reconnect_events : Node → AgentState → List ServerSentEvent
reconnect_events Graph.ask s =
    followup (or_empty s.sufficiency.followup_question) s.sufficiency.missing ∷ []
reconnect_events _ s = []

-- The stored terminal event, by its name and its serialised data.
unfoldable pub replay_terminal : AgentState → Option (String × String)
replay_terminal s = s.persistence.last_event

-- The payload of an interrupt, by the node that waits: only `ask` gives a follow-up question.
unfoldable pub interrupt_event : Node → AgentState → Option ServerSentEvent
interrupt_event Graph.ask s =
    some (followup (or_empty s.sufficiency.followup_question) s.sufficiency.missing)
interrupt_event _ s = none
