-- ===== src/Service/Rules.antt =====
-- How a property of the service goes through the guards of a request: api/service.py.
use tekijin.Prelude.{◌≡◌, refl, String, Bool, true, false, Option, none, some, if◌then◌else◌}
use tekijin.Agent.Graph.{Node, send}
use tekijin.Service.State.{
  Service, Checkpoint, Attempt, accept, refuse, ServiceError, checkpoint_of, is_queued,
}
use tekijin.Service.Requests.{awaiting_outcome, parked_at_send, handoff_guard, proceed, on_handoff}

-- What the shared guard lets pass: a run that waits before `send`, with nothing queued.
pub record IsParked (svc : Service) (session_id : String) (c : Checkpoint) : Type 0 where
  pub saved : checkpoint_of svc session_id ≡ some c
  pub parked : c.next ≡ some send
  pub free : is_queued svc session_id ≡ false

accept-inj : {a b : Checkpoint} → accept a ≡ accept b → a ≡ b
accept-inj e = cc

free_accept :
    (queued : Bool) (c : Checkpoint) {c' : Checkpoint}
    → (if queued then refuse ServiceError.handoff_not_found else accept c) ≡ accept c'
    → (queued ≡ false) × (c ≡ c')
free_accept true c e = cc
free_accept false c e = (refl, accept-inj e)

parked_at_send-IsParked :
    (svc : Service) (session_id : String) (c : Checkpoint) (n : Option Node) {c' : Checkpoint}
    → checkpoint_of svc session_id ≡ some c
    → c.next ≡ n
    → parked_at_send svc session_id c n ≡ accept c'
    → IsParked svc session_id c'
unfolding parked_at_send
parked_at_send-IsParked svc session_id c none saved e h = cc
parked_at_send-IsParked svc session_id c (some send) saved e h =
    let (free, same) = free_accept (is_queued svc session_id) c h in
    rw (← same) (record { saved = saved; parked = e; free = free })
parked_at_send-IsParked svc session_id c (some _) saved e h = cc

handoff_guard-IsParked :
    (svc : Service) (session_id : String) (saved : Option Checkpoint) {c : Checkpoint}
    → checkpoint_of svc session_id ≡ saved
    → handoff_guard svc session_id saved ≡ accept c
    → IsParked svc session_id c
unfolding handoff_guard
handoff_guard-IsParked svc session_id none e h = cc
handoff_guard-IsParked svc session_id (some c) e h =
    parked_at_send-IsParked svc session_id c c.next e refl h

pub awaiting_outcome-IsParked :
    (svc : Service) (session_id : String) {c : Checkpoint}
    → awaiting_outcome svc session_id ≡ accept c
    → IsParked svc session_id c
unfolding awaiting_outcome
awaiting_outcome-IsParked svc session_id h = handoff_guard-IsParked svc session_id _ refl h

-- A property of the service that holds of a request's state before, and after its rest.
pub proceed-keeps :
    {A B : Type 0} (P : Service → Type 0) (svc : Service) (r : Attempt B)
    (go : B → Service × Attempt A)
    → P svc
    → ((b : B) → r ≡ accept b → P (go b).0)
    → P (proceed svc r go).0
proceed-keeps P svc (refuse e) go h k = h
proceed-keeps P svc (accept b) go h k = k b refl

pub on_handoff-keeps :
    {A : Type 0} (P : Service → Type 0) (svc : Service) (session_id : String)
    (go : Checkpoint → Service × Attempt A)
    → P svc
    → ((c : Checkpoint) → IsParked svc session_id c → P (go c).0)
    → P (on_handoff svc session_id go).0
on_handoff-keeps P svc session_id go h k =
    proceed-keeps P svc (awaiting_outcome svc session_id) go h
      (λ c e. k c (awaiting_outcome-IsParked svc session_id e))
