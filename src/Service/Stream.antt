-- ===== src/Service/Stream.antt =====
-- api/service.py: what a reader of a session's event stream gets.
use tekijin.Prelude.{ℕ, String, Option, none, some, List, [], ◌∷◌, ◌++◌, map, put, if◌then◌else◌}
use tekijin.Agent.{AgentState, text, payload}
use tekijin.Agent.Graph.{Node, reset}
use tekijin.Agent.Graph.Segment.{is_pause}
use tekijin.Events.{
  ServerSentEvent, event_name, error, progress_events, reconnect_events, replay_terminal,
}
use tekijin.Service.State.{
  SessionCtx, Service, Checkpoint, Pending, fresh, resume, Env, checkpoint_of, context_of,
}
use tekijin.Service.Run.{run_from, fresh_checkpoint}

-- A server-sent event: its name and its serialised data.
abbrev pub Sse : Type 0
Sse = String × String

abbrev pub wire : Env → ServerSentEvent → Sse
wire env e = (event_name e, env.dump e)

abbrev pub wired_all : Env → List ServerSentEvent → List Sse
wired_all env events = map (wire env) events

abbrev pub sent_with : Env → Service × List ServerSentEvent → Service × List Sse
sent_with env (svc, events) = (svc, wired_all env events)

-- `ctx.touched_at = …`, and what is left in the queue.
abbrev pub stamped : Env → String → Option Pending → Service → Service
stamped env session_id pending svc = record svc {
  registry = put session_id (record { pending = pending; touched_at = env.clock }) svc.registry;
}

unfoldable pub run_resumed :
    Env → ℕ → String → String → Checkpoint → Option Node → Service → Service × List ServerSentEvent
run_resumed env reads session_id value c none svc = (svc, error ∷ [])
run_resumed env reads session_id value c (some n) svc =
    run_from env reads session_id n (text value) c.values.persistence.question_id c svc

-- The run of a queued input. A value to resume with is only queued for a run that is parked.
unfoldable pub run_pending :
    Env → ℕ → String → Pending → Option Checkpoint → Service → Service × List ServerSentEvent
unfolding run_resumed
run_pending env reads session_id (fresh input) c svc =
    run_from env reads session_id reset payload input.question_id (fresh_checkpoint env input c) svc
run_pending env reads session_id (resume value) none svc = (svc, error ∷ [])
run_pending env reads session_id (resume value) (some c) svc =
    run_resumed env reads session_id value c c.next svc

-- A finished run: its progress, then its terminal event, if there is one.
unfoldable pub replay : Env → AgentState → List Sse
replay env s = elim (replay_terminal s) [
  | none ↦ []
  | some terminal ↦ wired_all env (progress_events s) ++ (terminal ∷ [])
]

unfoldable pub reconnect_at :
    Env → ℕ → String → Checkpoint → Option Node → Service → Service × List Sse
unfolding replay
reconnect_at env reads session_id c none svc = (svc, replay env c.values)
reconnect_at env reads session_id c (some n) svc =
    let run =
      sent_with env
        (run_from env reads session_id n payload c.values.persistence.question_id c svc) in
    if is_pause n
    then (svc, wired_all env (progress_events c.values ++ reconnect_events n c.values))
    else run

-- A session that is parked, or that has finished.
unfoldable pub reconnect : Env → ℕ → String → Option Checkpoint → Service → Service × List Sse
unfolding reconnect_at
reconnect env reads session_id none svc = (svc, [])
reconnect env reads session_id (some c) svc = reconnect_at env reads session_id c c.next svc

unfoldable pub dispatch_queued : Env → ℕ → String → Option Pending → Service → Service × List Sse
unfolding run_pending reconnect
dispatch_queued env reads session_id none svc =
    reconnect env reads session_id (checkpoint_of svc session_id) svc
dispatch_queued env reads session_id (some pending) svc =
    sent_with env (run_pending env reads session_id pending (checkpoint_of svc session_id) svc)

unfoldable pub dispatch_stream : Env → ℕ → String → Option SessionCtx → Service → Service × List Sse
unfolding dispatch_queued
dispatch_stream env reads session_id none svc =
    reconnect env reads session_id (checkpoint_of svc session_id) svc
dispatch_stream env reads session_id (some ctx) svc =
    dispatch_queued env reads session_id ctx.pending (stamped env session_id none svc)

-- `stream_events`, for a reader that stays for some updates of a run.
unfoldable pub stream_events : Env → ℕ → String → Service → Service × List Sse
unfolding dispatch_stream
stream_events env reads session_id svc =
    dispatch_stream env reads session_id (context_of svc session_id) svc
