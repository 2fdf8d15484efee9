-- ===== src/Service/Serving/Streamed.antt =====
-- The event stream of api/service.py saves states as the graph leaves them.
use tekijin.Prelude.{
  ℕ, ◌≡◌, refl, String, Bool, true, false, Option, none, some, List, [], ◌∷◌, if◌then◌else◌, ◌++◌,
}
use mathlib.Core.Path.{subst}
use tekijin.Agent.{Reply, text, payload}
use tekijin.Agent.Deps.{Deps}
use tekijin.Agent.Graph.{Node, reset}
use tekijin.Agent.Graph.Segment.{is_pause}
use tekijin.Agent.Graph.Safety.{IsGood, IsGoodNext}
use tekijin.Events.{ServerSentEvent, progress_events, reconnect_events}
use tekijin.Store.{Database}
use tekijin.Service.State.{Service, SessionCtx, Checkpoint, Pending, fresh, resume, Env, context_of}
use tekijin.Service.Sessions.{run_slot}
use tekijin.Service.Persist.{Segment}
use tekijin.Service.Run.{
  Close, finished, broken, gone, begin_segment, drive, persist_run_state, shown_state, ended_state,
  persist_events, flushed, closed, run_from, fresh_checkpoint,
}
use tekijin.Service.Stream.{
  Sse, run_pending, run_resumed, reconnect, reconnect_at, dispatch_queued, dispatch_stream,
  stream_events, sent_with, stamped, wired_all,
}
use tekijin.Service.Serving.{
  IsGoodNext-same, IsGoodCheckpoint, IsServing, IsServing-save, IsServing-at,
}
use tekijin.Service.Serving.Driven.{drive-IsGood}

shown_state-IsGood :
    (d : Deps) (ids : Option (List ℕ)) (c : Checkpoint)
    → IsGoodCheckpoint d c
    → IsGoodCheckpoint d (shown_state ids c)
unfolding shown_state
shown_state-IsGood d none c g = g
shown_state-IsGood d (some []) c g = g
shown_state-IsGood d (some (id ∷ ids)) c g =
    IsGoodNext-same
      (record {
        asker = refl;
        declined = refl;
        shown = refl;
        asked = refl;
        routing = refl;
        verdict = refl;
      })
      d c.next g

ended_state-IsGood :
    (env : Env) (d : Deps) (e : Option ServerSentEvent) (c : Checkpoint)
    → IsGoodCheckpoint d c
    → IsGoodCheckpoint d (ended_state env e c)
unfolding ended_state
ended_state-IsGood env d none c g = g
ended_state-IsGood env d (some e) c g =
    IsGoodNext-same
      (record {
        asker = refl;
        declined = refl;
        shown = refl;
        asked = refl;
        routing = refl;
        verdict = refl;
      })
      d c.next g

module _ (d : Deps) (env : Env) (session_id : String) where
  flushed-IsServing :
      (seg : Segment) (db : Option Database) (events : List ServerSentEvent) (svc : Service)
      → IsServing d svc
      → IsServing d (flushed seg db events svc).0
  flushed-IsServing seg none events svc h = h
  flushed-IsServing seg (some db) events svc h = h

  closed-IsServing :
      (seg : Segment) (how : Close) (svc : Service)
      → IsGoodCheckpoint d seg.checkpoint
      → IsServing d svc
      → IsServing d (closed env session_id (seg, how) svc).0
  unfolding closed persist_run_state
  closed-IsServing seg finished svc g h = flushed-IsServing seg (persist_events seg) _ _ (
      IsServing-save d svc session_id _
        (ended_state-IsGood env d seg.terminal _
          (shown_state-IsGood d seg.rec_ids seg.checkpoint g))
        h)
  closed-IsServing seg broken svc g h =
      flushed-IsServing seg (persist_events seg) _ _
        (IsServing-save d svc session_id seg.checkpoint g h)
  closed-IsServing seg gone svc g h =
      flushed-IsServing seg (persist_events seg) _ _
        (IsServing-save d svc session_id seg.checkpoint g h)

module _ (env : Env) (reads : ℕ) (session_id : String) where
  run_from-IsServing :
      (n : Node) (reply : Reply) (question_id : Option String) (c : Checkpoint) (svc : Service)
      → IsGoodCheckpoint env.deps c
      → IsGood env.deps n c.values
      → IsServing env.deps svc
      → IsServing env.deps (run_from env reads session_id n reply question_id c svc).0
  unfolding run_from run_slot begin_segment
  run_from-IsServing n reply question_id c svc g g' h =
      let seg = begin_segment env svc.database c question_id in
      closed-IsServing env.deps env session_id (drive env reads n reply seg).0
        (drive env reads n reply seg).1 _ (drive-IsGood env reads n reply seg g g') h

  run_resumed-IsServing :
      (value : String) (c : Checkpoint) (m : Option Node) (svc : Service)
      → c.next ≡ m
      → IsGoodCheckpoint env.deps c
      → IsServing env.deps svc
      → IsServing env.deps (run_resumed env reads session_id value c m svc).0
  unfolding run_resumed
  run_resumed-IsServing value c none svc e g h = h
  run_resumed-IsServing value c (some n) svc e g h =
      run_from-IsServing n (text value) c.values.persistence.question_id c svc g
        (subst (λ m. IsGoodNext env.deps m c.values) e g) h

  run_pending-IsServing :
      (pending : Pending) (saved : Option Checkpoint) (svc : Service)
      → ((c : Checkpoint) → saved ≡ some c → IsGoodCheckpoint env.deps c)
      → IsServing env.deps svc
      → IsServing env.deps (run_pending env reads session_id pending saved svc).0
  unfolding run_pending fresh_checkpoint
  run_pending-IsServing (fresh input) saved svc g h =
      run_from-IsServing reset payload input.question_id (fresh_checkpoint env input saved) svc tt
        tt h
  run_pending-IsServing (resume value) none svc g h = h
  run_pending-IsServing (resume value) (some c) svc g h =
      run_resumed-IsServing value c c.next svc refl (g c refl) h

  reconnect_at-IsServing :
      (c : Checkpoint) (m : Option Node) (svc : Service)
      → c.next ≡ m
      → IsGoodCheckpoint env.deps c
      → IsServing env.deps svc
      → IsServing env.deps (reconnect_at env reads session_id c m svc).0
  unfolding reconnect_at
  reconnect_at-IsServing c none svc e g h = h
  reconnect_at-IsServing c (some n) svc e g h = choose (is_pause n)
    where
      resumed : Service × List Sse
      resumed =
          sent_with env
            (run_from env reads session_id n payload c.values.persistence.question_id c svc)

      choose :
          (b : Bool)
          → IsServing env.deps
              (if b
                then (svc, wired_all env (progress_events c.values ++ reconnect_events n c.values))
                else resumed).0
      choose true = h
      choose false =
          run_from-IsServing n payload c.values.persistence.question_id c svc g
            (subst (λ m. IsGoodNext env.deps m c.values) e g) h

  reconnect-IsServing :
      (saved : Option Checkpoint) (svc : Service)
      → ((c : Checkpoint) → saved ≡ some c → IsGoodCheckpoint env.deps c)
      → IsServing env.deps svc
      → IsServing env.deps (reconnect env reads session_id saved svc).0
  unfolding reconnect
  reconnect-IsServing none svc g h = h
  reconnect-IsServing (some c) svc g h = reconnect_at-IsServing c c.next svc refl (g c refl) h

  dispatch_queued-IsServing :
      (pending : Option Pending) (svc : Service)
      → IsServing env.deps svc
      → IsServing env.deps (dispatch_queued env reads session_id pending svc).0
  unfolding dispatch_queued
  dispatch_queued-IsServing none svc h =
      reconnect-IsServing _ svc (λ c e. IsServing-at env.deps svc session_id h e) h
  dispatch_queued-IsServing (some pending) svc h =
      run_pending-IsServing pending _ svc (λ c e. IsServing-at env.deps svc session_id h e) h

  dispatch_stream-IsServing :
      (ctx : Option SessionCtx) (svc : Service)
      → IsServing env.deps svc
      → IsServing env.deps (dispatch_stream env reads session_id ctx svc).0
  unfolding dispatch_stream
  dispatch_stream-IsServing none svc h =
      reconnect-IsServing _ svc (λ c e. IsServing-at env.deps svc session_id h e) h
  dispatch_stream-IsServing (some ctx) svc h =
      dispatch_queued-IsServing ctx.pending (stamped env session_id none svc) h

  pub stream_events-IsServing :
      (svc : Service)
      → IsServing env.deps svc
      → IsServing env.deps (stream_events env reads session_id svc).0
  unfolding stream_events
  stream_events-IsServing svc h = dispatch_stream-IsServing (context_of svc session_id) svc h
