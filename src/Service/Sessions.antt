-- ===== src/Service/Sessions.antt =====
-- api/service.py: admission, the registry's sweep, the participants and a new question.
use tekijin.Prelude.{
  ℕ, suc, ◌+◌, ◌-◌, String, ◌<>◌, Bool, false, not, ◌&&◌, ◌||◌, Option, none, some, List, [], ◌∷◌,
  if◌then◌else◌, is_some, str_eq, any, leb, ltb, Map,
}
use tekijin.Scorer.{ScoredCandidate}
use tekijin.Agent.{asker_id}
use tekijin.Store.{Database, employee_exists, persist_question}
use tekijin.Service.State.{
  Service, SessionCtx, fresh, Env, Done, accept, refuse, session_conflict, asker_not_found,
  service_busy, internal_error, checkpoint_of, is_queued, next_node, queue,
}

-- `SESSION_TTL_SECONDS`, in microseconds.
abbrev pub session_ttl : ℕ
session_ttl = 3600000000

-- The admission gate.
unfoldable pub is_saturated : Env → Service → Bool
is_saturated env svc = ltb 0 env.max_concurrent_runs && leb env.max_concurrent_runs svc.active_runs

-- `_run_slot` around a run that counts one active run while it lasts.
unfoldable pub run_slot {ℓ} : {A : Type ℓ} → (Service → Service × A) → Service → Service × A
run_slot body svc =
    let (after, a) = body (record svc { active_runs = suc svc.active_runs }) in
    (record after { active_runs = after.active_runs - 1 }, a)

-- An entry that the sweep removes: touched before the cutoff, not paused, its lock free.
unfoldable pub is_idle : Env → String → Service → String → SessionCtx → Bool
is_idle env own svc session_id ctx =
    ltb (ctx.touched_at + session_ttl) env.clock
    && (not (is_some (next_node svc session_id))
        && not (str_eq own session_id || any (str_eq session_id) svc.held))

unfoldable pub swept : (String → SessionCtx → Bool) → Map SessionCtx → Map SessionCtx
swept idle [] = []
swept idle ((session_id, ctx) ∷ entries) =
    if idle session_id ctx then swept idle entries else (session_id, ctx) ∷ swept idle entries

-- `_sweep`, under the lock of the session `own`.
unfoldable pub sweep : Env → String → Service → Service
sweep env own svc = record svc { registry = swept (is_idle env own svc) svc.registry }

abbrev pub first_person : List ScoredCandidate → Option ℕ
first_person [] = none
first_person (c ∷ recs) = some c.person_id

-- The asker and the current responder, from the saved state.
unfoldable pub session_participants : Service → String → Option ℕ × Option ℕ
session_participants svc session_id = elim (checkpoint_of svc session_id) [
  | none ↦ (none, none)
  | some c ↦ (asker_id c.values.asker, first_person c.values.recommendations)
]

pub record HandoffMetadata : Type 0 where
  pub question_id : Option String
  pub asker_id : Option ℕ
  pub responder_id : Option ℕ
  pub recommendation_id : Option ℕ

-- A shortlisted row carries no recommendation id, so only the stored one is there.
unfoldable pub pending_handoff_metadata : Service → String → HandoffMetadata
pending_handoff_metadata svc session_id = elim (checkpoint_of svc session_id) [
  | none ↦ record {
    question_id = none;
    asker_id = none;
    responder_id = none;
    recommendation_id = none;
  }
  | some c ↦ record {
    question_id = c.values.persistence.question_id;
    asker_id = asker_id c.values.asker;
    responder_id = first_person c.values.recommendations;
    recommendation_id = c.values.persistence.primary_recommendation_id;
  }
]

-- The run of a question that the database took is queued.
unfoldable pub queue_question :
    Env → String → ℕ → String → String → Service → Option Database → Service × Done
queue_question env session_id asker question question_id svc none = (svc, refuse internal_error)
queue_question env session_id asker question question_id svc (some db) = (
  queue env session_id
      (fresh (record {
        question = question;
        asker = some (record { id = some asker });
        now = env.now;
        question_id = some question_id;
      }))
      (record svc { database = db }),
  accept tt,
)

-- The insert of a new question and the queueing of its run.
unfoldable pub admitted : Env → String → ℕ → String → Service → Service × Done
unfolding queue_question
admitted env session_id asker question svc =
    let question_id = "api_" <> env.uid in
    if employee_exists svc.database asker
    then queue_question env session_id asker question question_id svc
        (persist_question svc.database question_id asker question env.now.micros (some session_id))
    else (svc, refuse asker_not_found)

-- The sweep comes first, also where the question is refused.
unfoldable pub start_question : Env → String → ℕ → String → Service → Service × Done
unfolding admitted
start_question env session_id asker question before =
    let svc = sweep env session_id before in
    if is_saturated env svc
    then (svc, refuse service_busy)
    else if is_queued svc session_id
    then (svc, refuse session_conflict)
    else if is_some (next_node svc session_id)
    then (svc, refuse session_conflict)
    else admitted env session_id asker question svc

-- `is_streamable`
unfoldable pub is_streamable : Service → String → Bool
is_streamable svc session_id = is_queued svc session_id || elim (checkpoint_of svc session_id) [
  | none ↦ false
  | some c ↦ is_some c.next || is_some c.values.persistence.last_event
]
