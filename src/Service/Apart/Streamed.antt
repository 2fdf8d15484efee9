-- ===== src/Service/Apart/Streamed.antt =====
-- The event stream of api/service.py leaves the other sessions alone.
use tekijin.Prelude.{ℕ, suc, ◌≡◌, ap, String, false, Option, none, some, List, arith, str_eq}
use tekijin.Agent.{Reply, text, payload}
use tekijin.Agent.Graph.{Node, reset}
use tekijin.Agent.Graph.Segment.{is_pause}
use tekijin.Events.{ServerSentEvent}
use tekijin.Store.{Database}
use tekijin.Service.State.{Service, SessionCtx, Checkpoint, Pending, fresh, resume, Env, context_of}
use tekijin.Service.Sessions.{run_slot}
use tekijin.Service.Persist.{Segment}
use tekijin.Service.Run.{
  Close, finished, broken, gone, begin_segment, drive, persist_run_state, persist_events, flushed,
  closed, run_from, fresh_checkpoint,
}
use tekijin.Service.Stream.{
  Sse, run_pending, run_resumed, reconnect, reconnect_at, dispatch_queued, dispatch_stream,
  stream_events, stamped,
}
use tekijin.Service.Apart.{
  if-keeps, IsInUse, waits, locked, recent, IsApart, IsApart-refl, IsApart-save, IsApart-register,
}

module _ (env : Env) (before : Service) (session_id other : String)
    (apart : str_eq session_id other ≡ false) where
  -- Inside the slot of a run there is one active run more.
  abbrev Inside : Service → Type 0
  Inside after = IsApart env (record before { active_runs = suc before.active_runs }) other after

  flushed-Inside :
      (seg : Segment) (db : Option Database) (events : List ServerSentEvent) (svc : Service)
      → Inside svc
      → Inside (flushed seg db events svc).0
  flushed-Inside seg none events svc h = h
  flushed-Inside seg (some db) events svc h = h

  closed-Inside :
      (seg : Segment) (how : Close) (svc : Service)
      → Inside svc
      → Inside (closed env session_id (seg, how) svc).0
  unfolding closed
  closed-Inside seg finished svc h =
      flushed-Inside seg (persist_events seg) _ _
        (IsApart-save env _ session_id other apart (persist_run_state env seg) svc h)
  closed-Inside seg broken svc h =
      flushed-Inside seg (persist_events seg) _ _
        (IsApart-save env _ session_id other apart seg.checkpoint svc h)
  closed-Inside seg gone svc h =
      flushed-Inside seg (persist_events seg) _ _
        (IsApart-save env _ session_id other apart seg.checkpoint svc h)

  run_from-IsApart :
      (reads : ℕ) (n : Node) (reply : Reply) (question_id : Option String) (c : Checkpoint)
      (svc : Service)
      → IsApart env before other svc
      → IsApart env before other (run_from env reads session_id n reply question_id c svc).0
  unfolding run_from run_slot
  run_from-IsApart reads n reply question_id c svc (saved, queued, running) =
      let inside = record svc { active_runs = suc svc.active_runs } in
      let (seg, how) = drive env reads n reply (begin_segment env svc.database c question_id) in
      let (saved', queued', running') =
        closed-Inside seg how inside
          (saved, λ ctx e used. queued ctx e (released used), ap suc running) in
      (saved', λ ctx e used. queued' ctx e (taken used), omega (arith, running'))
    where
      released :
          {ctx : SessionCtx}
          → IsInUse env (record before { active_runs = suc before.active_runs }) other ctx
          → IsInUse env before other ctx
      released (waits h) = waits h
      released (locked h) = locked h
      released (recent h) = recent h

      taken :
          {ctx : SessionCtx}
          → IsInUse env before other ctx
          → IsInUse env (record before { active_runs = suc before.active_runs }) other ctx
      taken (waits h) = waits h
      taken (locked h) = locked h
      taken (recent h) = recent h

  run_resumed-IsApart :
      (reads : ℕ) (value : String) (c : Checkpoint) (m : Option Node) (svc : Service)
      → IsApart env before other svc
      → IsApart env before other (run_resumed env reads session_id value c m svc).0
  unfolding run_resumed
  run_resumed-IsApart reads value c none svc h = h
  run_resumed-IsApart reads value c (some n) svc h =
      run_from-IsApart reads n (text value) c.values.persistence.question_id c svc h

  run_pending-IsApart :
      (reads : ℕ) (pending : Pending) (saved : Option Checkpoint) (svc : Service)
      → IsApart env before other svc
      → IsApart env before other (run_pending env reads session_id pending saved svc).0
  unfolding run_pending
  run_pending-IsApart reads (fresh input) saved svc h =
      run_from-IsApart reads reset payload input.question_id (fresh_checkpoint env input saved) svc
        h
  run_pending-IsApart reads (resume value) none svc h = h
  run_pending-IsApart reads (resume value) (some c) svc h =
      run_resumed-IsApart reads value c c.next svc h

  reconnect_at-IsApart :
      (reads : ℕ) (c : Checkpoint) (m : Option Node) (svc : Service)
      → IsApart env before other svc
      → IsApart env before other (reconnect_at env reads session_id c m svc).0
  unfolding reconnect_at
  reconnect_at-IsApart reads c none svc h = h
  reconnect_at-IsApart reads c (some n) svc h =
      if-keeps {A = Service × List Sse} (λ r. IsApart env before other r.0) (is_pause n) h
        (run_from-IsApart reads n payload c.values.persistence.question_id c svc h)

  reconnect-IsApart :
      (reads : ℕ) (saved : Option Checkpoint) (svc : Service)
      → IsApart env before other svc
      → IsApart env before other (reconnect env reads session_id saved svc).0
  unfolding reconnect
  reconnect-IsApart reads none svc h = h
  reconnect-IsApart reads (some c) svc h = reconnect_at-IsApart reads c c.next svc h

  dispatch_queued-IsApart :
      (reads : ℕ) (pending : Option Pending) (svc : Service)
      → IsApart env before other svc
      → IsApart env before other (dispatch_queued env reads session_id pending svc).0
  unfolding dispatch_queued
  dispatch_queued-IsApart reads none svc h = reconnect-IsApart reads _ svc h
  dispatch_queued-IsApart reads (some pending) svc h = run_pending-IsApart reads pending _ svc h

module _ (env : Env) (reads : ℕ) (svc : Service) (session_id other : String)
    (apart : str_eq session_id other ≡ false) where
  dispatch_stream-IsApart :
      (ctx : Option SessionCtx)
      → IsApart env svc other (dispatch_stream env reads session_id ctx svc).0
  unfolding dispatch_stream
  dispatch_stream-IsApart none =
      reconnect-IsApart env svc session_id other apart reads _ svc (IsApart-refl env svc other)
  dispatch_stream-IsApart (some ctx) =
      dispatch_queued-IsApart env svc session_id other apart reads ctx.pending
        (stamped env session_id none svc)
        (IsApart-register env svc session_id other apart _ svc (IsApart-refl env svc other))

  pub stream_events-IsApart : IsApart env svc other (stream_events env reads session_id svc).0
  unfolding stream_events
  stream_events-IsApart = dispatch_stream-IsApart (context_of svc session_id)
