-- ===== src/Service/Fallback.antt =====
-- api/service.py: a hand-off after a document did not help.

use tekijin.Prelude.{
  String, Bool, true, false, not, Option, none, some, is_some, is_nonempty, is_text, or_empty,
  str_eq,
}
use tekijin.Route.{person, handed_on}
use tekijin.Agent.{AgentState}
use tekijin.Agent.Graph.{c6_score, next, is_document}
use tekijin.Store.{reopen_question_for_handoff}
use tekijin.Service.Requests.{proceed}
use tekijin.Service.State.{
  ServiceError, Service, SessionCtx, Checkpoint, Pending, Env, Attempt, Done, accept, refuse,
  session_conflict, session_invalid, handoff_not_found, checkpoint_of, context_of, save,
}
use tekijin.Prelude.{put}

-- The values with which `c6_score` appears to have ended on the person route.
unfoldable pub reopened_values : AgentState → AgentState
reopened_values s = record s {
  routing = record (s.routing) { route = person; reason = some handed_on };
  terminal = record { answer = none; document_id = none; fallback_responder = none };
  draft = none;
  outcome = none;
  persistence = record (s.persistence) { last_event = none };
}

abbrev pub is_message : Option (String × String) → Bool
is_message none = false
is_message (some (event, body)) = str_eq event "message"

-- `if test: raise e`
unfoldable pub reject_if {ℓ} : {A : Type ℓ} → Bool → ServiceError → Attempt A → Attempt A
reject_if true e rest = refuse e
reject_if false e rest = rest

-- The guards of the fallback, in their order.
unfoldable pub fallback_values : Checkpoint → Attempt AgentState
fallback_values c = reject_if (is_some c.next) session_conflict (
    reject_if (not (is_document c.values.routing.route)) handoff_not_found (
      reject_if (not (is_text (or_empty c.values.persistence.question_id))) handoff_not_found (
        reject_if c.values.self_answer.grounded handoff_not_found (
          reject_if (not (is_nonempty c.values.recommendations)) session_invalid (
            reject_if (not (is_some c.values.terminal.fallback_responder)) session_invalid (
              reject_if (not (is_message c.values.persistence.last_event)) handoff_not_found
                (accept (reopened_values c.values))))))))

abbrev pub pending_of : Option SessionCtx → Option Pending
pending_of none = none
pending_of (some ctx) = ctx.pending

-- `_reg_ensure` and the stamp.
unfoldable pub touch : Env → String → Service → Service
touch env session_id svc = record svc {
  registry =
      put session_id
        (record { pending = pending_of (context_of svc session_id); touched_at = env.clock })
        svc.registry;
}

unfoldable pub reopen : Env → String → Service → AgentState → Service × Done
reopen env session_id svc values =
    let saved =
      save session_id
        (record {
          next = next env.deps c6_score values;
          values = values;
          document_fallback_requested = true;
        })
        svc in
    (
      touch env session_id (record saved {
        database =
            reopen_question_for_handoff saved.database (or_empty values.persistence.question_id);
      }),
      accept tt,
    )

unfoldable pub reopen_saved : Env → String → Service → Option Checkpoint → Service × Done
unfolding reopen
reopen_saved env session_id svc none = (svc, refuse handoff_not_found)
reopen_saved env session_id svc (some c) =
    proceed svc (fallback_values c) (reopen env session_id svc)

unfoldable pub request_document_fallback : Env → String → Service → Service × Done
unfolding reopen_saved
request_document_fallback env session_id svc =
    reopen_saved env session_id svc (checkpoint_of svc session_id)
