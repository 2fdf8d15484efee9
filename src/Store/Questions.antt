-- ===== src/Store/Questions.antt =====
-- data/writes.py: the writes on questions and on the rows that hang on them.
use tekijin.Prelude.{
  ℕ, suc, ◌>>=◌, String, ◌<>◌, Bool, true, false, not, ◌&&◌, Option, none, some, List, [], ◌∷◌,
  ◌++◌, map, if◌then◌else◌, is_nonempty, is_some, is_str, str_eq, elem, any, select,
}
use tekijin.Store.Rows.{update, delete}
use tekijin.Store.Tables.{
  Question, Recommendation, Message, StoredAnswer, Event, Feedback, OfflineConsult, EvalRun,
  Database, is_question, has_question, shown_for, answers_of, event_of, consult_of,
}

unfoldable pub employee_exists : Database → ℕ → Bool
employee_exists db id = elem id db.employees

-- A row goes in only if its keys are in order.
abbrev pub guard : Bool → Database → Option Database
guard true db = some db
guard false db = none

unfoldable pub persist_question :
    Database → String → ℕ → String → ℕ → Option String → Option Database
unfolding employee_exists
persist_question db question_id asker_id body now session_id =
    guard (employee_exists db asker_id && not (has_question db question_id)) (record db {
      questions =
          db.questions
          ++ (record {
            id = question_id;
            asker_id = asker_id;
            body = body;
            topics = [];
            status = "open";
            session_id = session_id;
            route = none;
            consult_method = none;
            resolved_at = none;
            resolution_kind = none;
            created_at = now;
          }
              ∷ []);
    })

-- `Message.recommendation_id.in_(recommendation_ids)`
abbrev pub message_in : List ℕ → Message → Bool
message_in ids m = elem m.recommendation_id ids

abbrev pub feedback_of : String → Feedback → Bool
feedback_of id f = is_str f.question_id id

abbrev pub recommendation_ids_of : String → Database → List ℕ
recommendation_ids_of id db =
    map (λ (r : Recommendation). r.id) (select (shown_for id) db.recommendations)

-- `DELETE FROM recommendations`, refused while a message refers to one of its rows.
abbrev pub delete_recommendations : String → Database → Option Database
delete_recommendations id db =
    guard (not (any (message_in (recommendation_ids_of id db)) db.messages))
      (record db { recommendations = delete (shown_for id) db.recommendations })

-- `DELETE FROM questions`, refused while any row refers to it.
abbrev pub delete_question_row : String → Database → Option Database
delete_question_row id db =
    guard
      (not (any (shown_for id) db.recommendations)
        && (not (any (answers_of id) db.answers)
            && (not (any (event_of id) db.events)
                && (not (any (feedback_of id) db.feedback)
                    && not (any (consult_of id) db.offline_consults)))))
      (record db { questions = delete (is_question id) db.questions })

-- The statements in front of the DELETE of the recommendations.
unfoldable pub delete_leaves : String → Database → Database
delete_leaves id db =
    let ids = recommendation_ids_of id db in
    record db {
      messages = if is_nonempty ids then delete (message_in ids) db.messages else db.messages;
      feedback = delete (feedback_of id) db.feedback;
      offline_consults = delete (consult_of id) db.offline_consults;
      answers = delete (answers_of id) db.answers;
    }

abbrev pub delete_events : String → Database → Database
delete_events id db = record db { events = delete (event_of id) db.events }

unfoldable pub delete_question : Database → String → Option Database
unfolding delete_leaves
delete_question db id = do
  rest ← delete_recommendations id (delete_leaves id db)
  delete_question_row id (delete_events id rest)

-- The row of an id, which is the table's key.
abbrev pub question_at : String → List Question → Option Question
question_at id [] = none
question_at id (q ∷ rows) = if is_question id q then some q else question_at id rows

-- `UPDATE questions … WHERE id = question_id`
abbrev pub update_question : String → (Question → Question) → Database → Database
update_question id change db = record db { questions = update (is_question id) change db.questions }

unfoldable pub update_question_topics : Database → String → List String → Database
update_question_topics db id topics =
    update_question id (λ (q : Question). record q { topics = topics }) db

unfoldable pub update_question_route : Database → String → String → Database
update_question_route db id route =
    update_question id (λ (q : Question). record q { route = some route }) db

unfoldable pub reopened : Question → Question
reopened q = record q {
  route = some "person";
  status = "open";
  resolved_at = none;
  resolution_kind = none;
}

unfoldable pub reopen_question_for_handoff : Database → String → Database
unfolding reopened
reopen_question_for_handoff db id = update_question id reopened db

unfoldable pub update_question_body : Database → String → String → Database
update_question_body db id body = update_question id (λ (q : Question). record q { body = body }) db

unfoldable pub update_question_consult_method : Database → String → String → Database
update_question_consult_method db id method =
    update_question id (λ (q : Question). record q { consult_method = some method }) db

-- `(stage, started_at, ended_at, meta)`
abbrev pub EventRow : Type 0
EventRow = String × ℕ × ℕ × Option String

abbrev pub event_row : String → EventRow → Event
event_row id (stage, started_at, ended_at, meta) = record {
  question_id = id;
  stage = stage;
  started_at = started_at;
  ended_at = ended_at;
  meta = meta;
}

unfoldable pub record_events : Database → String → List EventRow → Option Database
record_events db id [] = some db
record_events db id (row ∷ rows) =
    guard (has_question db id) (record db { events = db.events ++ map (event_row id) (row ∷ rows) })

-- `id == question_id AND resolved_at IS NULL`
abbrev pub is_unresolved : String → Question → Bool
is_unresolved id q = is_question id q && not (is_some q.resolved_at)

unfoldable pub mark_question_resolved : Database → String → ℕ → Database
mark_question_resolved db id resolved_at = record db {
  questions =
      update (is_unresolved id) (λ (q : Question). record q { resolved_at = some resolved_at })
        db.questions;
}

-- `id == question_id AND resolution_kind IS NULL AND resolved_at IS NULL`
abbrev pub is_unsettled : String → Question → Bool
is_unsettled id q =
    is_question id q && (not (is_some q.resolution_kind) && not (is_some q.resolved_at))

unfoldable pub mark_self_resolved : Database → String → ℕ → Database
mark_self_resolved db id now = record db {
  questions =
      update (is_unsettled id)
        (λ (q : Question). record q { resolution_kind = some "self"; resolved_at = some now })
        db.questions;
}

-- The metrics come as a row without its id.
unfoldable pub insert_eval_run : Database → EvalRun → Database × ℕ
insert_eval_run db metrics =
    let id = db.next_eval_run in
    (
      record db {
        eval_runs = db.eval_runs ++ (record metrics { id = id } ∷ []);
        next_eval_run = suc id;
      },
      id,
    )

-- `uid` is the random part of the id.
unfoldable pub create_answer :
    Database
    → String
    → String
    → ℕ
    → String
    → Option String
    → Option (List ℕ)
    → ℕ
    → Option (Database × String)
create_answer db uid question_id responder_id body topic embedding created_at =
    let id = "ans_" <> uid in
    if has_question db question_id
      && (elem responder_id db.employees
          && not (any (λ (a : StoredAnswer). str_eq a.id id) db.answers))
    then some (
      record db {
        answers =
            db.answers
            ++ (record {
              id = id;
              question_id = question_id;
              responder_id = responder_id;
              body = body;
              topic = topic;
              embedding = embedding;
              created_at = created_at;
              reuse_count = 0;
              was_helpful = none;
            }
                ∷ []);
      },
      id,
    )
    else none

-- `asker_id IS NULL` or an employee.
abbrev pub known_asker : Database → Option ℕ → Bool
known_asker db none = true
known_asker db (some id) = elem id db.employees

-- The row comes without its id. The table allows one row per question.
unfoldable pub record_offline_consult : Database → OfflineConsult → Option (Database × ℕ)
record_offline_consult db row =
    let id = db.next_consult in
    if has_question db row.question_id
      && (elem row.responder_id db.employees
          && (known_asker db row.asker_id
              && not (any (consult_of row.question_id) db.offline_consults)))
    then some (
      record db {
        offline_consults = db.offline_consults ++ (record row { id = id } ∷ []);
        next_consult = suc id;
      },
      id,
    )
    else none
