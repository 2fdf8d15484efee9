-- ===== src/Service/Run.antt =====
-- api/service.py: one run of the graph, with what is persisted and sent as it goes.
use Prim.Native.Nat.{zero}
use tekijin.Prelude.{
  ℕ, suc, String, Bool, false, Option, none, some, List, [], ◌∷◌, ◌++◌, if◌then◌else◌, is_nonempty,
}
use tekijin.Agent.{AgentState, Reply, payload, ok, raise, Result}
use tekijin.Agent.Graph.{Node, reset, exec}
use tekijin.Agent.Graph.Segment.{is_pause}
use tekijin.Events.{ServerSentEvent, event_name, error, interrupt_event}
use tekijin.Store.{Database, record_events}
use tekijin.Service.State.{Service, Checkpoint, Fresh, Env, save}
use tekijin.Service.Sessions.{run_slot}
use tekijin.Service.Persist.{Segment, send_one}
use tekijin.Service.Send.{saved_update, take_update}

-- How a segment ends: at a pause or at the end of the graph, by an exception, or because the
-- reader went away.
pub data Close : Type 0 where
  finished broken gone : Close

-- The graph stops before a node that waits for a person, and says what it waits for. A reader whose
-- `reads` are used up has left at the event before: it also misses the end of the segment.
unfoldable pub go_on :
    ℕ → (Node → Segment → Segment × Close) → AgentState → Segment → Option Node → Segment × Close
go_on zero go s seg m = (seg, gone)
go_on (suc reads) go s seg none = (seg, finished)
go_on (suc reads) go s seg (some m) =
    let rest = go m seg in
    if is_pause m then (send_one (interrupt_event m s) seg, finished) else rest

-- A write that is refused raises when the state has been saved.
unfoldable pub after_update :
    ℕ → (Node → Segment → Segment × Close) → AgentState → Segment → Option Segment → Segment × Close
unfolding go_on
after_update reads go s saved none = (saved, broken)
after_update reads go s saved (some seg) = go_on reads go s seg saved.checkpoint.next

unfoldable pub after_exec :
    Env
    → ℕ
    → (Node → Segment → Segment × Close)
    → Node
    → Segment
    → Result AgentState
    → Segment × Close
unfolding after_update
after_exec env reads go n seg (raise e) = (seg, broken)
after_exec env reads go n seg (ok s) =
    let saved = saved_update env n s seg in
    after_update reads go s saved (take_update env n seg.checkpoint.values s saved)

-- Steps from a node on. `reads` counts the updates after whose event the reader is still there, the
-- end of the segment included.
unfoldable pub drive : Env → ℕ → Node → Reply → Segment → Segment × Close
unfolding after_exec
drive env zero n reply seg = (seg, gone)
drive env (suc reads) n reply seg =
    after_exec env reads (λ m. drive env reads m payload) n seg
      (exec env.deps n seg.checkpoint.values reply)

abbrev pub first_id : List ℕ → Option ℕ
first_id [] = none
first_id (id ∷ ids) = some id

-- `_persist_run_state`, the ids of the shown rows.
unfoldable pub shown_state : Option (List ℕ) → Checkpoint → Checkpoint
shown_state none c = c
shown_state (some ids) c =
    if is_nonempty ids
    then record c {
      values = record (c.values) {
        persistence = record (c.values.persistence) {
          recommendation_ids = ids;
          primary_recommendation_id = first_id ids;
        };
      };
      document_fallback_requested = false;
    }
    else c

-- `_persist_run_state`, the terminal event.
unfoldable pub ended_state : Env → Option ServerSentEvent → Checkpoint → Checkpoint
ended_state env none c = c
ended_state env (some e) c = record c {
  values = record (c.values) {
    persistence = record (c.values.persistence) { last_event = some (event_name e, env.dump e) };
  };
}

unfoldable pub persist_run_state : Env → Segment → Checkpoint
unfolding shown_state ended_state
persist_run_state env seg = ended_state env seg.terminal (shown_state seg.rec_ids seg.checkpoint)

-- `_persist_events`, which runs however the segment ends; `none` where the rows are refused.
unfoldable pub persist_events : Segment → Option Database
persist_events seg = elim seg.question_id [
  | none ↦ some seg.database
  | some id ↦ record_events seg.database id seg.rows
]

unfoldable pub begin_segment : Env → Database → Checkpoint → Option String → Segment
begin_segment env db c question_id = record {
  database = db;
  checkpoint = c;
  question_id = question_id;
  rec_ids = none;
  terminal = none;
  route = none;
  pending_recommend = none;
  pending_recs = none;
  rows = [];
  prev = env.node_clock 0;
  readings = 1;
  sent = [];
}

-- The events that a request sends: those of the run, and an error where it broke.
abbrev pub sent_by : Close → List ServerSentEvent → List ServerSentEvent
sent_by broken events = events ++ (error ∷ [])
sent_by _ events = events

-- The database after the flush, and the error event if the flush is refused.
abbrev pub flushed :
    Segment → Option Database → List ServerSentEvent → Service → Service × List ServerSentEvent
flushed seg none events svc = (record svc { database = seg.database }, events ++ (error ∷ []))
flushed seg (some db) events svc = (record svc { database = db }, events)

unfoldable pub closed : Env → String → Segment × Close → Service → Service × List ServerSentEvent
closed env session_id (seg, finished) svc =
    flushed seg (persist_events seg) seg.sent (save session_id (persist_run_state env seg) svc)
closed env session_id (seg, how) svc =
    flushed seg (persist_events seg) (sent_by how seg.sent) (save session_id seg.checkpoint svc)

-- `_run` from a node on, in a slot of its own.
unfoldable pub run_from :
    Env
    → ℕ
    → String
    → Node
    → Reply
    → Option String
    → Checkpoint
    → Service
    → Service × List ServerSentEvent
unfolding closed
run_from env reads session_id n reply question_id c = run_slot (λ svc.
    closed env session_id (drive env reads n reply (begin_segment env svc.database c question_id))
      svc)

-- A fresh input is merged into the values, which stay as they were otherwise.
unfoldable pub merged : Fresh → AgentState → AgentState
merged input s = record s {
  question = input.question;
  asker = input.asker;
  now = input.now;
  persistence = record (s.persistence) { question_id = input.question_id };
}

abbrev pub values_of : Env → Option Checkpoint → AgentState
values_of env none = env.blank
values_of env (some c) = c.values

abbrev pub requested_of : Option Checkpoint → Bool
requested_of none = false
requested_of (some c) = c.document_fallback_requested

unfoldable pub fresh_checkpoint : Env → Fresh → Option Checkpoint → Checkpoint
fresh_checkpoint env input c = record {
  next = some reset;
  values = merged input (values_of env c);
  document_fallback_requested = requested_of c;
}
