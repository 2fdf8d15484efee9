-- ===== src/Service/Requests.antt =====
-- api/service.py: the requests that resume a paused session.
use tekijin.Prelude.{
  ℕ, String, ◌<>◌, Bool, false, not, ◌&&◌, Option, none, some, List, [], ◌∷◌, ◌++◌, if◌then◌else◌,
  is_id, is_text, str_eq, elem, ◌==◌,
}
use tekijin.Scorer.{ScoredCandidate}
use tekijin.Agent.{AgentState, asker_id}
use tekijin.Agent.Graph.{Node, ask, send}
use tekijin.Events.{format_employee_id}
use tekijin.Store.{
  Database, Feedback, Payload, free_text, employee_exists, record_feedback, update_question_body,
}
use tekijin.Service.State.{
  Service, Checkpoint, fresh, resume, Env, Attempt, Done, accept, refuse, session_conflict,
  session_invalid, handoff_not_found, checkpoint_of, is_queued, queue, save,
}
use tekijin.Service.Outcome.{Recorded, Status, recorded, record_outcome, capture_answer}

-- The guard that the requests on a hand-off share: the run waits before `send`, nothing is queued.
unfoldable pub parked_at_send : Service → String → Checkpoint → Option Node → Attempt Checkpoint
parked_at_send svc session_id c none = refuse handoff_not_found
parked_at_send svc session_id c (some send) =
    if is_queued svc session_id then refuse handoff_not_found else accept c
parked_at_send svc session_id c (some n) = refuse session_conflict

unfoldable pub handoff_guard : Service → String → Option Checkpoint → Attempt Checkpoint
unfolding parked_at_send
handoff_guard svc session_id none = refuse handoff_not_found
handoff_guard svc session_id (some c) = parked_at_send svc session_id c c.next

unfoldable pub awaiting_outcome : Service → String → Attempt Checkpoint
unfolding handoff_guard
awaiting_outcome svc session_id = handoff_guard svc session_id (checkpoint_of svc session_id)

-- The rest of a request, unless the part before it is refused.
abbrev pub proceed {ℓ κ} :
    {A : Type ℓ} {B : Type κ}
    → Service
    → Attempt B
    → (B → Service × Attempt A)
    → Service × Attempt A
proceed svc (refuse e) go = (svc, refuse e)
proceed svc (accept b) go = go b

-- The rest of a request on the session that the guard lets pass.
abbrev pub on_handoff {ℓ} :
    {A : Type ℓ} → Service → String → (Checkpoint → Service × Attempt A) → Service × Attempt A
on_handoff svc session_id go = proceed svc (awaiting_outcome svc session_id) go

-- A learning signal that fails is dropped.
abbrev pub kept_signal : Database → Option Database → Database
kept_signal db none = db
kept_signal db (some after) = after

unfoldable pub signal : Feedback → Service → Service
signal row svc = record svc {
  database = kept_signal svc.database (record_feedback svc.database row);
}

abbrev pub feedback_row :
    String → String → Option String → String → Option String → Option Payload → Option ℕ → Feedback
feedback_row stage kind question_id session_id target payload actor_id = record {
  stage = stage;
  kind = kind;
  question_id = question_id;
  session_id = some session_id;
  target = target;
  payload = payload;
  actor_id = actor_id;
}

-- What a recorded outcome does to the service.
abbrev pub commit : Recorded → Service → Service
commit r svc = record svc { database = r.database; scheduled = svc.scheduled ++ r.scheduled }

-- What a client sends to a paused session.
pub record Resume : Type 0 where
  pub outcome : Option String
  pub reply : Option String
  pub recommendation_id : Option ℕ
  pub answer_body : Option String

abbrev pub is_fresh_accept : Status → String → Bool
is_fresh_accept recorded outcome = str_eq outcome "accepted"
is_fresh_accept _ outcome = false

-- The answer is captured only with an acceptance that was recorded just now.
unfoldable pub captured : Env → AgentState → Status → String → Option String → Service → Service
captured env s status outcome none svc = svc
captured env s status outcome (some body) svc =
    if is_fresh_accept status outcome && is_text body
    then record svc { database = capture_answer env svc.database s body }
    else svc

unfoldable pub with_reply : Env → String → Option String → Service → Service × Done
with_reply env session_id none svc = (svc, refuse session_invalid)
with_reply env session_id (some reply) svc = (queue env session_id (resume reply) svc, accept tt)

unfoldable pub with_outcome :
    Env → String → Checkpoint → Resume → Option String → Service → Service × Done
unfolding captured
with_outcome env session_id c request none svc = (svc, refuse session_invalid)
with_outcome env session_id c request (some outcome) svc =
    proceed svc (record_outcome env svc.database c.values outcome request.recommendation_id none)
      (λ r. (
        queue env session_id (resume r.effective)
            (captured env c.values r.status outcome request.answer_body (commit r svc)),
        accept tt,
      ))

unfoldable pub resume_node : Env → String → Checkpoint → Resume → Node → Service → Service × Done
unfolding with_reply with_outcome
resume_node env session_id c request ask svc = with_reply env session_id request.reply svc
resume_node env session_id c request send svc =
    with_outcome env session_id c request request.outcome svc
resume_node env session_id c request _ svc = (svc, refuse session_conflict)

unfoldable pub resume_at :
    Env → String → Checkpoint → Resume → Option Node → Service → Service × Done
unfolding resume_node
resume_at env session_id c request none svc = (svc, refuse session_conflict)
resume_at env session_id c request (some n) svc =
    if is_queued svc session_id
    then (svc, refuse session_conflict)
    else resume_node env session_id c request n svc

unfoldable pub resume_saved : Env → String → Resume → Option Checkpoint → Service → Service × Done
unfolding resume_at
resume_saved env session_id request none svc = (svc, refuse session_conflict)
resume_saved env session_id request (some c) svc = resume_at env session_id c request c.next svc

unfoldable pub submit_resume : Env → String → Resume → Service → Service × Done
unfolding resume_saved
submit_resume env session_id request svc =
    resume_saved env session_id request (checkpoint_of svc session_id) svc

-- Records an outcome on the current row, if the database takes it, and goes on.
abbrev pub after_outcome :
    Env → AgentState → String → Option ℕ → Service → (Service → Service × Done) → Service × Done
after_outcome env s outcome referred_to svc go =
    proceed svc (record_outcome env svc.database s outcome none referred_to)
      (λ r. go (commit r svc))

abbrev pub is_on_top : List ScoredCandidate → ℕ → Bool
is_on_top [] person = false
is_on_top (c ∷ recs) person = c.person_id == person

-- What an exclusion queues and signals.
abbrev pub excluded : Env → String → Checkpoint → ℕ → Option ℕ → Service → Service × Done
excluded env session_id c person actor after = (
  signal
      (feedback_row "c6" "person_excluded" c.values.persistence.question_id session_id
        (some (format_employee_id person)) none actor)
      (queue env session_id (resume "declined") after),
  accept tt,
)

unfoldable pub exclude_from : Env → String → Checkpoint → ℕ → Option ℕ → Service → Service × Done
exclude_from env session_id c person actor svc =
    if is_on_top c.values.recommendations person
    then after_outcome env c.values "excluded" none svc (excluded env session_id c person actor)
    else (svc, refuse session_invalid)

unfoldable pub exclude_handoff_target : Env → String → ℕ → Option ℕ → Service → Service × Done
unfolding exclude_from
exclude_handoff_target env session_id person actor svc =
    on_handoff svc session_id (λ c. exclude_from env session_id c person actor svc)

-- Why a person cannot be named: not an employee, the asker, the current responder, or someone who
-- has declined.
unfoldable pub may_refer : Database → AgentState → ScoredCandidate → ℕ → Bool
may_refer db s top person =
    employee_exists db person
    && (not (is_id (asker_id s.asker) person)
        && (not (top.person_id == person) && not (elem person s.declined_ids)))

-- The saved state with the named person's seat.
abbrev pub with_referral : ℕ → Checkpoint → Checkpoint
with_referral person c = record c {
  values = record (c.values) { referred_responder_id = some person };
}

abbrev pub referral : Env → String → Checkpoint → ℕ → Option ℕ → Service → Service × Done
referral env session_id c person actor after = (
  signal
      (feedback_row "c6" "person_referred" c.values.persistence.question_id session_id
        (some (format_employee_id person)) none actor)
      (queue env session_id (resume "declined") (save session_id (with_referral person c) after)),
  accept tt,
)

unfoldable pub refer_from :
    Env → String → Checkpoint → ℕ → Option ℕ → Service → List ScoredCandidate → Service × Done
refer_from env session_id c person actor svc [] = (svc, refuse handoff_not_found)
refer_from env session_id c person actor svc (top ∷ rest) =
    if may_refer svc.database c.values top person
    then after_outcome env c.values "referred" (some person) svc
        (referral env session_id c person actor)
    else (svc, refuse session_invalid)

unfoldable pub refer_handoff_target : Env → String → ℕ → Option ℕ → Service → Service × Done
unfolding refer_from
refer_handoff_target env session_id person actor svc =
    on_handoff svc session_id
      (λ c. refer_from env session_id c person actor svc c.values.recommendations)

abbrev pub previous : Option String → Option Payload
previous none = none
previous (some t) = some (("previous", free_text t) ∷ [])

unfoldable pub regenerate_handoff_draft : Env → String → Option ℕ → Service → Service × Done
regenerate_handoff_draft env session_id actor svc = on_handoff svc session_id (λ c. (
  signal
      (feedback_row "c7" "draft_regenerated" c.values.persistence.question_id session_id none
        (previous c.values.draft) actor)
      (queue env session_id (resume "redraft") svc),
  accept tt,
))

-- The question's row takes the corrected body first.
unfoldable pub rewritten : Option String → String → Service → Service
rewritten none body svc = svc
rewritten (some id) body svc = record svc { database = update_question_body svc.database id body }

-- The question with the supplement.
abbrev pub enriched : Env → AgentState → String → String
enriched env s supplement = env.deps.strip (s.question <> (" " <> supplement))

abbrev pub restarted : Env → String → Checkpoint → String → Option ℕ → Service → Service × Done
restarted env session_id c supplement actor after = (
  signal
      (feedback_row "c1" "interpretation_corrected" c.values.persistence.question_id session_id none
        (some (("supplement", free_text supplement) ∷ [])) actor)
      (queue env session_id
        (fresh (record {
          question = enriched env c.values supplement;
          asker = c.values.asker;
          now = env.now;
          question_id = c.values.persistence.question_id;
        }))
        after),
  accept tt,
)

unfoldable pub corrected : Env → String → Checkpoint → String → Option ℕ → Service → Service × Done
unfolding rewritten
corrected env session_id c supplement actor svc =
    if is_text (env.deps.strip c.values.question)
    then after_outcome env c.values "superseded" none
        (rewritten c.values.persistence.question_id (enriched env c.values supplement) svc)
        (restarted env session_id c supplement actor)
    else (svc, refuse session_invalid)

unfoldable pub correct_interpretation : Env → String → String → Option ℕ → Service → Service × Done
unfolding corrected
correct_interpretation env session_id given actor svc =
    let supplement = env.deps.strip given in
    if is_text supplement
    then on_handoff svc session_id (λ c. corrected env session_id c supplement actor svc)
    else (svc, refuse session_invalid)
