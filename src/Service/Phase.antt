-- ===== src/Service/Phase.antt =====
-- The life of a session as an abstract machine over api/service.py.
pub mod Answered
pub mod Edited
pub mod Opened
pub mod Streamed
use tekijin.Prelude.{
  ◌≡◌, refl, sym, ◌∙◌, ap, String, Bool, true, false, Option, none, some, find-put_same,
}
use mathlib.Core.Path.{subst}
use tekijin.Agent.Graph.{Node, ask, send}
use tekijin.Service.State.{
  Service, SessionCtx, Checkpoint, Pending, Env, is_queued, next_node, save, queue,
}
use tekijin.Service.Rules.{IsParked}

-- Where a session is: something is queued, it is over or was never run, it waits for the asker or
-- for the responder, or its run was left between two nodes.
pub data Phase : Type 0 where
  queued closed at_asker at_responder between : Phase

abbrev pub phase_of : Bool → Option Node → Phase
phase_of true n = queued
phase_of false none = closed
phase_of false (some ask) = at_asker
phase_of false (some send) = at_responder
phase_of false (some _) = between

abbrev pub phase : Service → String → Phase
phase svc session_id = phase_of (is_queued svc session_id) (next_node svc session_id)

-- Nothing is queued.
abbrev pub is_free : Phase → Bool
is_free queued = false
is_free _ = true

-- What a request may make of its session.
pub data Moves : Phase → Phase → Type 0 where
  stays : {p : Phase} → Moves p p
  asks : Moves closed queued
  replies : Moves at_asker queued
  decides : Moves at_responder queued
  reopens : Moves closed between
  runs : {p : Phase} → is_free p ≡ true → Moves queued p
  resumes : {p : Phase} → is_free p ≡ true → Moves between p

-- The session's phase after a request, against the one before.
abbrev pub Follows : Service → String → Service → Type 0
Follows before session_id after = Moves (phase before session_id) (phase after session_id)

pub phase-queue :
    (env : Env) (session_id : String) (pending : Pending) (svc : Service)
    → phase (queue env session_id pending svc) session_id ≡ queued
phase-queue env session_id pending svc =
    rw
      (find-put_same session_id (record { pending = some pending; touched_at = env.clock })
        svc.registry)
      refl

pub phase-parked :
    (svc : Service) (session_id : String) {c : Checkpoint}
    → IsParked svc session_id c
    → phase svc session_id ≡ at_responder
phase-parked svc session_id parked = rw (parked.free, parked.saved, parked.parked) refl

-- A request on a hand-off that queues something.
pub parked-queue :
    (env : Env) (svc after : Service) (session_id : String) (pending : Pending) {c : Checkpoint}
    → IsParked svc session_id c
    → Follows svc session_id (queue env session_id pending after)
parked-queue env svc after session_id pending parked =
    rw (phase-parked svc session_id parked, phase-queue env session_id pending after) decides

-- A saved state at the same place keeps the phase.
pub save-phase :
    (svc : Service) (session_id : String) (c saved : Checkpoint)
    → IsParked svc session_id c
    → saved.next ≡ c.next
    → phase (save session_id saved svc) session_id ≡ phase svc session_id
save-phase svc session_id c saved parked e =
    rw (find-put_same session_id saved svc.checkpoints, parked.saved, e) refl
