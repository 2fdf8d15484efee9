-- ===== src/Service/Persist.antt =====
-- api/service.py: what a run of the graph persists as its nodes end.

use tekijin.Prelude.{
  ℕ, String, Bool, not, ◌&&◌, Option, none, some, List, [], ◌∷◌, ◌++◌, if◌then◌else◌, is_nonempty,
  is_text, is_str,
}
use tekijin.Route.{Route}
use tekijin.Scorer.{ScoredCandidate}
use tekijin.Agent.{AgentState}
use tekijin.Agent.Graph
use tekijin.Agent.Graph.{Node, c6_score, reset, next, exec, critique_wired, is_document}
use tekijin.Events.{the, ServerSentEvent, is_terminal_event, recommended}
use tekijin.Store.{
  Database, EventRow, update_question_topics, update_question_body, update_question_route,
  mark_question_resolved, mark_self_resolved, insert_shown_recommendations,
  shown_recommendation_ids,
}
use tekijin.Service.State.{Checkpoint, Env}

-- The local variables of `_run`, with the saved state of the session and the database. `rows` are
-- the timed stages and `readings` the number of times the clock was read.
pub record Segment : Type 0 where
  pub database : Database
  pub checkpoint : Checkpoint
  pub question_id : Option String
  pub rec_ids : Option (List ℕ)
  pub terminal : Option ServerSentEvent
  pub route : Option String
  pub pending_recommend : Option ServerSentEvent
  pub pending_recs : Option (List ScoredCandidate)
  pub rows : List EventRow
  pub prev : ℕ
  pub readings : ℕ
  pub sent : List ServerSentEvent

abbrev pub route_text : Route → String
route_text Route.person = "person"
route_text Route.prior_answer = "prior_answer"
route_text Route.document = "document"

-- A write on the question's row, if the run has a question.
abbrev pub written : (String → Database → Database) → Option String → Database → Database
written write none db = db
written write (some id) db = write id db

abbrev pub on_question : (String → Database → Database) → Segment → Segment
on_question write seg = record seg { database = written write seg.question_id seg.database }

-- `_persist_route`, and the route variable.
unfoldable pub persist_route : Env → String → Segment → Segment
persist_route env route seg =
    on_question
      (λ id db.
        let routed = update_question_route db id route in
        if is_str (some route) "document"
        then mark_question_resolved routed id env.now.micros
        else routed)
      (record seg { route = some route })

-- `_persist_question_body`
unfoldable pub persist_question_body : Env → AgentState → Segment → Segment
persist_question_body env s seg =
    on_question
      (λ id db.
        if is_text (env.deps.strip s.question) then update_question_body db id s.question else db)
      seg

unfoldable pub rows_inserted : Segment → Option (Database × List ℕ) → Option Segment
rows_inserted seg none = none
rows_inserted seg (some (db, ids)) = some (record seg { database = db; rec_ids = some ids })

unfoldable pub insert_for : Env → List ScoredCandidate → Option String → Segment → Option Segment
unfolding rows_inserted
insert_for env recs none seg = some (record seg { rec_ids = none })
insert_for env recs (some id) seg =
    rows_inserted seg (insert_shown_recommendations seg.database id recs env.database_clock)

-- `_persist_recommendations`; `none` where the database refuses a row.
unfoldable pub persist_recommendations : Env → List ScoredCandidate → Segment → Option Segment
unfolding insert_for
persist_recommendations env [] seg = some (record seg { rec_ids = none })
persist_recommendations env (top ∷ recs) seg = insert_for env (top ∷ recs) seg.question_id seg

-- The candidates wait for the critic, where one is wired and there are any.
abbrev pub is_deferred : Env → AgentState → Bool
is_deferred env s = critique_wired env.deps && is_nonempty s.recommendations

abbrev pub terminal_after : Option ServerSentEvent → Option ServerSentEvent → Option ServerSentEvent
terminal_after terminal none = terminal
terminal_after terminal (some e) = if is_terminal_event e then some e else terminal

-- The sending of an event.
abbrev pub send_one : Option ServerSentEvent → Segment → Segment
send_one e seg = record seg { sent = seg.sent ++ the e; terminal = terminal_after seg.terminal e }

-- The ids of rows that an earlier segment has rows_inserted.
abbrev pub known_ids : Segment → List ℕ
known_ids seg = elim seg.question_id [
  | none ↦ []
  | some id ↦ shown_recommendation_ids seg.database id
]

abbrev pub sent_after : Option ServerSentEvent → Option Segment → Option Segment
sent_after e none = none
sent_after e (some seg) = some (send_one e seg)

-- The rows of a document fallback: rows_inserted once, at its draft.
unfoldable pub persist_fallback : Env → AgentState → Segment → Option Segment
persist_fallback env s seg =
    let fresh_rows = persist_recommendations env s.recommendations seg in
    if seg.checkpoint.document_fallback_requested
      && not (is_nonempty s.persistence.recommendation_ids)
    then sent_after (some (recommended s.recommendations)) (
        if is_nonempty (known_ids seg)
        then some (record seg { rec_ids = some (known_ids seg) })
        else fresh_rows)
    else some seg

-- What an update of a node persists before its event.
unfoldable pub persist_update : Env → Node → AgentState → Segment → Option Segment
persist_update env Graph.c1_intent s seg =
    some (on_question (λ id db. update_question_topics db id s.intent.topics) seg)
persist_update env Graph.ask s seg = some (persist_question_body env s seg)
persist_update env Graph.knowledge_answer s seg =
    some (if s.self_answer.grounded then persist_route env "knowledge" seg else seg)
persist_update env Graph.c5_route s seg = some (persist_route env (route_text s.routing.route) seg)
persist_update env Graph.self_answered s seg =
    some (on_question (λ id db. mark_self_resolved db id env.now.micros) seg)
persist_update env Graph.c6_score s seg =
    let rows = persist_recommendations env s.recommendations seg in
    if is_str seg.route "document"
    then some seg
    else if is_deferred env s
    then some (record seg { pending_recs = some s.recommendations })
    else rows
persist_update env Graph.c7_draft s seg = persist_fallback env s seg
persist_update env _ s seg = some seg
