-- ===== src/Service/Settled.antt =====
-- What a reader of api/service.py's event stream is left with: `stream_events` comes to an end.
use tekijin.Prelude.{
  ℕ, ◌<◌, ◌≡◌, refl, ◌∙◌, ap, String, Bool, true, Option, none, some, List, [], ◌∷◌, ◌++◌, ◌-◌,
  arith, inl, inr, Bool-cases, any, str_eq, find-put_same,
}
use tekijin.Agent.{Reply, text, payload}
use tekijin.Agent.Graph.{Node, reset}
use tekijin.Agent.Graph.Segment.{is_pause}
use tekijin.Events.{ServerSentEvent, error}
use tekijin.Store.{Database}
use tekijin.Service.State.{
  Service, SessionCtx, Checkpoint, Pending, fresh, resume, Env, checkpoint_of, context_of,
  next_node, save,
}
use tekijin.Service.Sessions.{run_slot}
use tekijin.Service.Persist.{Segment}
use tekijin.Service.Run.{
  Close, finished, broken, gone, begin_segment, persist_run_state, shown_state, ended_state,
  persist_events, flushed, closed, run_from, fresh_checkpoint,
}
use tekijin.Service.Stream.{
  Sse, wired_all, sent_with, stamped, run_pending, run_resumed, reconnect, reconnect_at,
  dispatch_queued, dispatch_stream, stream_events,
}
use tekijin.Service.Serving.Resting.{is_resting, Rests, rested, broke, drive_stops}

-- An event of the given name is among those sent.
abbrev pub has_event : String → List Sse → Bool
has_event name events = any (λ e. str_eq e.0 name) events

-- The session waits for a person, is over or was never run; otherwise the reader saw an error.
pub data IsSettled (session_id : String) : Service × List Sse → Type 0 where
  rests :
      {svc : Service} {events : List Sse}
      → is_resting (next_node svc session_id) ≡ true
      → IsSettled session_id (svc, events)
  fails :
      {svc : Service} {events : List Sse}
      → has_event "error" events ≡ true
      → IsSettled session_id (svc, events)

-- The same of the events of a run.
data Ends (session_id : String) : Service × List ServerSentEvent → Type 0 where
  calm :
      {svc : Service} {events : List ServerSentEvent}
      → is_resting (next_node svc session_id) ≡ true
      → Ends session_id (svc, events)
  errs :
      {svc : Service} (events : List ServerSentEvent)
      → Ends session_id (svc, events ++ (error ∷ []))

sent_error :
    (env : Env) (events : List ServerSentEvent)
    → has_event "error" (wired_all env (events ++ (error ∷ []))) ≡ true
sent_error env [] = refl
sent_error env (e ∷ events) = ground (arith, sent_error env events)

sent_with-IsSettled :
    (env : Env) {session_id : String} {r : Service × List ServerSentEvent}
    → Ends session_id r
    → IsSettled session_id (sent_with env r)
sent_with-IsSettled env (calm h) = rests h
sent_with-IsSettled env (errs events) = fails (sent_error env events)

shown_state-next : (ids : Option (List ℕ)) (c : Checkpoint) → (shown_state ids c).next ≡ c.next
unfolding shown_state
shown_state-next none c = refl
shown_state-next (some []) c = refl
shown_state-next (some (id ∷ ids)) c = refl

ended_state-next :
    (env : Env) (e : Option ServerSentEvent) (c : Checkpoint) → (ended_state env e c).next ≡ c.next
unfolding ended_state
ended_state-next env none c = refl
ended_state-next env (some e) c = refl

save-is_resting :
    (session_id : String) (c : Checkpoint) (svc : Service)
    → is_resting c.next ≡ true
    → is_resting (next_node (save session_id c svc) session_id) ≡ true
save-is_resting session_id c svc h = rw (find-put_same session_id c svc.checkpoints) h

module _ (env : Env) (session_id : String) where
  flushed-Ends :
      (seg : Segment) (db : Option Database) (events : List ServerSentEvent) (svc : Service)
      → is_resting (next_node svc session_id) ≡ true
      → Ends session_id (flushed seg db events svc)
  flushed-Ends seg none events svc h = errs events
  flushed-Ends seg (some db) events svc h = calm h

  flushed_broken-Ends :
      (seg : Segment) (db : Option Database) (events : List ServerSentEvent) (svc : Service)
      → Ends session_id (flushed seg db (events ++ (error ∷ [])) svc)
  flushed_broken-Ends seg none events svc = errs (events ++ (error ∷ []))
  flushed_broken-Ends seg (some db) events svc = errs events

  closed-Ends :
      (r : Segment × Close) (svc : Service)
      → Rests r
      → Ends session_id (closed env session_id r svc)
  unfolding closed persist_run_state
  closed-Ends (seg, finished) svc (rested h) = flushed-Ends seg (persist_events seg) seg.sent _ (
      save-is_resting session_id _ svc
        (ap is_resting (ended_state-next env seg.terminal _ ∙ shown_state-next seg.rec_ids _) ∙ h))
  closed-Ends (seg, broken) svc broke = flushed_broken-Ends seg (persist_events seg) seg.sent _
  closed-Ends (seg, gone) svc x = elim x [ ]

run_slot-Ends :
    {session_id : String} (body : Service → Service × List ServerSentEvent) (svc : Service)
    → ((inside : Service) → Ends session_id (body inside))
    → Ends session_id (run_slot body svc)
unfolding run_slot
run_slot-Ends {session_id} body svc h = released _ (h _)
  where
    released :
        (r : Service × List ServerSentEvent)
        → Ends session_id r
        → Ends session_id (record (r.0) { active_runs = r.0.active_runs - 1 }, r.1)
    released _ (calm e) = calm e
    released _ (errs events) = errs events

module _ (env : Env) (reads : ℕ) (session_id : String) (stays : 14 < reads) where
  run_from-Ends :
      (n : Node) (reply : Reply) (question_id : Option String) (c : Checkpoint) (svc : Service)
      → Ends session_id (run_from env reads session_id n reply question_id c svc)
  unfolding run_from
  run_from-Ends n reply question_id c svc = run_slot-Ends _ svc (λ inside.
      closed-Ends env session_id _ inside
        (drive_stops env reads n reply (begin_segment env inside.database c question_id) stays))

  run_resumed-Ends :
      (value : String) (c : Checkpoint) (m : Option Node) (svc : Service)
      → Ends session_id (run_resumed env reads session_id value c m svc)
  unfolding run_resumed
  run_resumed-Ends value c none svc = errs []
  run_resumed-Ends value c (some n) svc =
      run_from-Ends n (text value) c.values.persistence.question_id c svc

  run_pending-Ends :
      (pending : Pending) (saved : Option Checkpoint) (svc : Service)
      → Ends session_id (run_pending env reads session_id pending saved svc)
  unfolding run_pending
  run_pending-Ends (fresh input) saved svc =
      run_from-Ends reset payload input.question_id (fresh_checkpoint env input saved) svc
  run_pending-Ends (resume value) none svc = errs []
  run_pending-Ends (resume value) (some c) svc = run_resumed-Ends value c c.next svc

  reconnect_at-IsSettled :
      (c : Checkpoint) (m : Option Node) (svc : Service)
      → next_node svc session_id ≡ m
      → IsSettled session_id (reconnect_at env reads session_id c m svc)
  unfolding reconnect_at
  reconnect_at-IsSettled c none svc e = rests (ap is_resting e)
  reconnect_at-IsSettled c (some n) svc e = elim (Bool-cases (is_pause n)) [
    | inl p ↦ rw p (rests (ap is_resting e ∙ p))
    | inr p ↦
        rw p
          (sent_with-IsSettled env (run_from-Ends n payload c.values.persistence.question_id c svc))
  ]

  reconnect-IsSettled :
      (saved : Option Checkpoint) (svc : Service)
      → checkpoint_of svc session_id ≡ saved
      → IsSettled session_id (reconnect env reads session_id saved svc)
  unfolding reconnect
  reconnect-IsSettled none svc e = rests (rw e refl)
  reconnect-IsSettled (some c) svc e = reconnect_at-IsSettled c c.next svc (rw e refl)

  dispatch_queued-IsSettled :
      (pending : Option Pending) (svc : Service)
      → IsSettled session_id (dispatch_queued env reads session_id pending svc)
  unfolding dispatch_queued
  dispatch_queued-IsSettled none svc = reconnect-IsSettled _ svc refl
  dispatch_queued-IsSettled (some pending) svc =
      sent_with-IsSettled env (run_pending-Ends pending _ svc)

  dispatch_stream-IsSettled :
      (ctx : Option SessionCtx) (svc : Service)
      → IsSettled session_id (dispatch_stream env reads session_id ctx svc)
  unfolding dispatch_stream
  dispatch_stream-IsSettled none svc = reconnect-IsSettled _ svc refl
  dispatch_stream-IsSettled (some ctx) svc =
      dispatch_queued-IsSettled ctx.pending (stamped env session_id none svc)

-- A reader who stays for 15 updates reads a session's stream to its end: the session then waits for
-- a person, is over or was never run, or an error was among the events that the reader got. This
-- holds of every service, whatever is queued or saved for the session.
pub stream_events_settles :
    (env : Env) (reads : ℕ) (session_id : String) (svc : Service)
    → 14 < reads
    → IsSettled session_id (stream_events env reads session_id svc)
unfolding stream_events
stream_events_settles env reads session_id svc stays =
    dispatch_stream-IsSettled env reads session_id stays (context_of svc session_id) svc
