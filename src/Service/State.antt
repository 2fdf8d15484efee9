-- ===== src/Service/State.antt =====
-- api/service.py: the state of the service, its errors and what a request is given.
use tekijin.Prelude.{ℕ, String, Bool, false, Option, none, some, List, Map, find, put, is_some}
use tekijin.Agent.{AgentState, Asker, Moment, Embedding}
use tekijin.Agent.Deps.{Deps}
use tekijin.Agent.Graph.{Node}
use tekijin.Store.{Database}
use tekijin.Events.{ServerSentEvent}

-- The input of a fresh run.
pub record Fresh : Type 0 where
  pub question : String
  pub asker : Option Asker
  pub now : Moment
  pub question_id : Option String

-- What is queued for a session: a fresh input, or the value that its interrupt is resumed with.
pub data Pending : Type 0 where
  fresh : Fresh → Pending
  resume : String → Pending

-- `_SessionCtx`; times of the clock are in microseconds.
pub record SessionCtx : Type 0 where
  pub pending : Option Pending
  pub touched_at : ℕ

-- The saved state of a session: the node that it is before, and the values. The last field is the
-- one value that no node reads or writes.
pub record Checkpoint : Type 0 where
  pub next : Option Node
  pub values : AgentState
  pub document_fallback_requested : Bool

-- `held` lists the sessions whose locks other requests hold; `scheduled` the first messages that
-- were handed to Slack, by their threads.
pub record Service : Type 0 where
  pub database : Database
  pub checkpoints : Map Checkpoint
  pub registry : Map SessionCtx
  pub held : List String
  pub active_runs : ℕ
  pub scheduled : List (ℕ × String)

-- The exceptions that the routes map to a status; `internal_error` is any other.
pub data ServiceError : Type 0 where
  session_conflict session_invalid asker_not_found handoff_not_found service_busy : ServiceError
  internal_error : ServiceError

-- What a request comes to.
pub data Attempt {ℓ} (A : Type ℓ) : Type ℓ where
  accept : A → Attempt A
  refuse : ServiceError → Attempt A

-- What a request without a result comes to.
abbrev pub Done : Type 0
Done = Attempt {0} Unit

-- What the service is built with, and what it reads during one request: its clocks and the
-- database's, the random part of a new id, the embedder and the serialiser. `node_clock` gives the
-- readings during a run.
-- A bound of 0 or less switches the limit on runs off. `blank` is the state before any input.
pub record Env : Type 0 where
  pub deps : Deps
  pub max_concurrent_runs : ℕ
  pub clock : ℕ
  pub now : Moment
  pub wall_clock : ℕ
  pub database_clock : ℕ
  pub node_clock : ℕ → ℕ
  pub uid : String
  pub embed : String → Option Embedding
  pub dump : ServerSentEvent → String
  pub blank : AgentState

abbrev pub checkpoint_of : Service → String → Option Checkpoint
checkpoint_of svc session_id = find session_id svc.checkpoints

abbrev pub context_of : Service → String → Option SessionCtx
context_of svc session_id = find session_id svc.registry

abbrev pub has_pending : Option SessionCtx → Bool
has_pending none = false
has_pending (some ctx) = is_some ctx.pending

-- `ctx is not None and ctx.pending is not None`
abbrev pub is_queued : Service → String → Bool
is_queued svc session_id = has_pending (context_of svc session_id)

abbrev next_of : Option Checkpoint → Option Node
next_of none = none
next_of (some c) = c.next

-- `_next_nodes`: the node that a session is parked before.
abbrev pub next_node : Service → String → Option Node
next_node svc session_id = next_of (checkpoint_of svc session_id)

-- `_reg_ensure` with the input and the stamp of the caller.
abbrev pub queue : Env → String → Pending → Service → Service
queue env session_id pending svc = record svc {
  registry =
      put session_id (record { pending = some pending; touched_at = env.clock }) svc.registry;
}

-- `update_state` without a node keeps the place of the run.
abbrev pub save : String → Checkpoint → Service → Service
save session_id c svc = record svc { checkpoints = put session_id c svc.checkpoints }
