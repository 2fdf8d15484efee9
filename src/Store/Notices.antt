-- ===== src/Store/Notices.antt =====
-- data/writes.py: the acknowledgements of notifications. Each returns the number of rows that its
-- UPDATE hit. `seen_at` is the database's clock.
use tekijin.Prelude.{
  ℕ, Bool, not, ◌&&◌, some, List, if◌then◌else◌, is_nonempty, is_some, is_id, is_str, any, elem,
  ◌==◌,
}
use tekijin.Store.Rows.{update, count}
use tekijin.Store.Tables.{Question, Recommendation, Database, is_question, shown_for}

-- `question_id IN (SELECT id FROM questions WHERE asker_id = asker_id)`
abbrev pub asked_by : List Question → ℕ → Recommendation → Bool
asked_by questions asker_id r =
    any (λ (q : Question). is_question r.question_id q && q.asker_id == asker_id) questions

abbrev pub acknowledge :
    (Recommendation → Bool) → (Recommendation → Recommendation) → Database → Database × ℕ
acknowledge hit change db = (
  record db { recommendations = update hit change db.recommendations },
  count hit db.recommendations,
)

abbrev pub is_unseen_decline : Database → ℕ → List ℕ → Recommendation → Bool
is_unseen_decline db asker_id ids r =
    elem r.id ids
    && (is_id r.rank 1
        && (is_str r.outcome "declined"
            && (not (is_some r.declined_seen_at) && asked_by db.questions asker_id r)))

abbrev pub see_decline : ℕ → Recommendation → Recommendation
see_decline seen_at r = record r { declined_seen_at = some seen_at }

unfoldable pub ack_decline_notifications : Database → ℕ → List ℕ → ℕ → Database × ℕ
ack_decline_notifications db asker_id ids seen_at =
    if is_nonempty ids
    then acknowledge (is_unseen_decline db asker_id ids) (see_decline seen_at) db
    else (db, 0)

abbrev pub is_unseen_accept : Database → ℕ → List ℕ → Recommendation → Bool
is_unseen_accept db asker_id ids r =
    elem r.id ids
    && (is_str r.outcome "accepted"
        && (not (is_some r.accepted_seen_at) && asked_by db.questions asker_id r))

abbrev pub see_accept : ℕ → Recommendation → Recommendation
see_accept seen_at r = record r { accepted_seen_at = some seen_at }

unfoldable pub ack_accepted_notifications : Database → ℕ → List ℕ → ℕ → Database × ℕ
ack_accepted_notifications db asker_id ids seen_at =
    if is_nonempty ids
    then acknowledge (is_unseen_accept db asker_id ids) (see_accept seen_at) db
    else (db, 0)

-- `question_id IN (SELECT id FROM questions WHERE session_id IS NOT NULL)`
abbrev pub in_session : List Question → Recommendation → Bool
in_session questions r =
    any (λ (q : Question). is_question r.question_id q && is_some q.session_id) questions

-- The rows that `selected_question_ids` reads the questions from.
abbrev pub is_selected : Database → ℕ → List ℕ → Recommendation → Bool
is_selected db responder_id ids r =
    elem r.id ids
    && (is_id r.rank 1
        && (not (is_some r.outcome)
            && (r.employee_id == responder_id && in_session db.questions r)))

abbrev pub is_unseen_request : Database → ℕ → List ℕ → Recommendation → Bool
is_unseen_request db responder_id ids r =
    any (λ (s : Recommendation). is_selected db responder_id ids s && shown_for r.question_id s)
      db.recommendations
    && (is_id r.rank 1
        && (not (is_some r.outcome)
            && (not (is_some r.request_seen_at) && r.employee_id == responder_id)))

abbrev pub see_request : ℕ → Recommendation → Recommendation
see_request seen_at r = record r { request_seen_at = some seen_at }

unfoldable pub ack_request_notifications : Database → ℕ → List ℕ → ℕ → Database × ℕ
ack_request_notifications db responder_id ids seen_at =
    if is_nonempty ids
    then acknowledge (is_unseen_request db responder_id ids) (see_request seen_at) db
    else (db, 0)
