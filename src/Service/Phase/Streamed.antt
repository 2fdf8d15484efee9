-- ===== src/Service/Phase/Streamed.antt =====
-- The event stream follows the life of its session: api/service.py.
use tekijin.Prelude.{
  ℕ, suc, ◌≡◌, refl, sym, ap, ◌∙◌, String, true, false, Option, none, some, List, find, is_some,
  find-put_same, Map,
}
use mathlib.Core.Path.{subst}
use tekijin.Agent.{Reply, text, payload}
use tekijin.Agent.Graph.{Node, ask, send, reset}
use tekijin.Events.{ServerSentEvent}
use tekijin.Store.{Database}
use tekijin.Service.State.{
  Service, SessionCtx, Checkpoint, Pending, fresh, resume, Env, checkpoint_of, context_of,
  is_queued, has_pending, next_node,
}
use tekijin.Service.Sessions.{run_slot}
use tekijin.Service.Persist.{Segment}
use tekijin.Service.Run.{
  Close, finished, broken, gone, begin_segment, drive, persist_events, flushed, closed, run_from,
  fresh_checkpoint,
}
use tekijin.Service.Stream.{
  run_pending, run_resumed, reconnect, reconnect_at, dispatch_queued, dispatch_stream,
  stream_events, stamped,
}
use tekijin.Service.Phase.{phase_of, is_free, Moves, stays, runs, resumes, phase, Follows}

flushed-registry :
    (seg : Segment) (db : Option Database) (events : List ServerSentEvent) (svc : Service)
    → (flushed seg db events svc).0.registry ≡ svc.registry
flushed-registry seg none events svc = refl
flushed-registry seg (some db) events svc = refl

closed-registry :
    (env : Env) (session_id : String) (r : Segment × Close) (svc : Service)
    → (closed env session_id r svc).0.registry ≡ svc.registry
unfolding closed
closed-registry env session_id (seg, finished) svc =
    flushed-registry seg (persist_events seg) seg.sent _
closed-registry env session_id (seg, broken) svc = flushed-registry seg (persist_events seg) _ _
closed-registry env session_id (seg, gone) svc = flushed-registry seg (persist_events seg) _ _

free_at : (m : Option Node) → is_free (phase_of false m) ≡ true
free_at none = refl
free_at (some ask) = refl
free_at (some send) = refl
free_at (some _) = refl

free_phase :
    (svc : Service) (session_id : String)
    → is_queued svc session_id ≡ false
    → is_free (phase svc session_id) ≡ true
free_phase svc session_id e = rw e (free_at (next_node svc session_id))

module _ (env : Env) (reads : ℕ) (session_id : String) where
  -- A run queues nothing.
  run_from-free :
      (n : Node) (reply : Reply) (question_id : Option String) (c : Checkpoint) (svc : Service)
      → is_queued svc session_id ≡ false
      → is_free (phase (run_from env reads session_id n reply question_id c svc).0 session_id)
        ≡ true
  unfolding run_from run_slot
  run_from-free n reply question_id c svc e =
      let inside = record svc { active_runs = suc svc.active_runs } in
      let how = drive env reads n reply (begin_segment env svc.database c question_id) in
      free_phase (run_from env reads session_id n reply question_id c svc).0 session_id (
        ap (λ (entries : Map SessionCtx). has_pending (find session_id entries))
          (closed-registry env session_id how inside)
        ∙ e)

  run_resumed-free :
      (value : String) (c : Checkpoint) (m : Option Node) (svc : Service)
      → is_queued svc session_id ≡ false
      → is_free (phase (run_resumed env reads session_id value c m svc).0 session_id) ≡ true
  unfolding run_resumed
  run_resumed-free value c none svc e = free_phase svc session_id e
  run_resumed-free value c (some n) svc e =
      run_from-free n (text value) c.values.persistence.question_id c svc e

  run_pending-free :
      (pending : Pending) (saved : Option Checkpoint) (svc : Service)
      → is_queued svc session_id ≡ false
      → is_free (phase (run_pending env reads session_id pending saved svc).0 session_id) ≡ true
  unfolding run_pending
  run_pending-free (fresh input) saved svc e =
      run_from-free reset payload input.question_id (fresh_checkpoint env input saved) svc e
  run_pending-free (resume value) none svc e = free_phase svc session_id e
  run_pending-free (resume value) (some c) svc e = run_resumed-free value c c.next svc e

  -- A run that was left between two nodes goes on; a reader of any other one moves nothing.
  reconnect_at-Follows :
      (c : Checkpoint) (m : Option Node) (svc : Service)
      → is_queued svc session_id ≡ false
      → next_node svc session_id ≡ m
      → Follows svc session_id (reconnect_at env reads session_id c m svc).0
  unfolding reconnect_at
  reconnect_at-Follows c none svc free e = stays
  reconnect_at-Follows c (some ask) svc free e = stays
  reconnect_at-Follows c (some send) svc free e = stays
  reconnect_at-Follows c (some n) svc free e =
      subst (λ p. Moves p (phase (reconnect_at env reads session_id c (some n) svc).0 session_id))
        (sym (ap (λ b. phase_of b (next_node svc session_id)) free ∙ ap (phase_of false) e))
        (resumes (run_from-free n payload c.values.persistence.question_id c svc free))

  reconnect-Follows :
      (saved : Option Checkpoint) (svc : Service)
      → is_queued svc session_id ≡ false
      → checkpoint_of svc session_id ≡ saved
      → Follows svc session_id (reconnect env reads session_id saved svc).0
  unfolding reconnect
  reconnect-Follows none svc free e = stays
  reconnect-Follows (some c) svc free e = reconnect_at-Follows c c.next svc free (rw e refl)

  stamped-free : (svc : Service) → is_queued (stamped env session_id none svc) session_id ≡ false
  stamped-free svc =
      ap has_pending
        (find-put_same session_id (record { pending = none; touched_at = env.clock }) svc.registry)

  stamped-phase :
      (svc : Service)
      → is_queued svc session_id ≡ false
      → phase (stamped env session_id none svc) session_id ≡ phase svc session_id
  stamped-phase svc free =
      ap (λ b. phase_of b (next_node svc session_id)) (stamped-free svc ∙ sym free)

  dispatch_stream-Follows :
      (svc : Service) (ctx : Option SessionCtx)
      → context_of svc session_id ≡ ctx
      → Follows svc session_id (dispatch_stream env reads session_id ctx svc).0
  unfolding dispatch_stream dispatch_queued
  dispatch_stream-Follows svc none e = reconnect-Follows _ svc (ap has_pending e) refl
  dispatch_stream-Follows svc (some ctx) e = choose ctx.pending refl
    where
      after : Service
      after = stamped env session_id none svc

      choose :
          (pending : Option Pending)
          → ctx.pending ≡ pending
          → Follows svc session_id (dispatch_queued env reads session_id pending after).0
      choose none e' =
          subst
            (λ p. Moves p (phase (dispatch_queued env reads session_id none after).0 session_id))
            (stamped-phase svc (ap has_pending e ∙ ap is_some e'))
            (reconnect-Follows _ after (stamped-free svc) refl)
      choose (some pending) e' =
          subst
            (λ p.
              Moves p
                (phase (dispatch_queued env reads session_id (some pending) after).0 session_id))
            (sym
              (ap (λ b. phase_of b (next_node svc session_id)) (ap has_pending e ∙ ap is_some e')))
            (runs (run_pending-free pending _ after (stamped-free svc)))

  pub stream_events-Follows :
      (svc : Service) → Follows svc session_id (stream_events env reads session_id svc).0
  unfolding stream_events
  stream_events-Follows svc = dispatch_stream-Follows svc (context_of svc session_id) refl
