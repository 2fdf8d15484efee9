-- ===== src/Store/Delete.antt =====
-- What data/writes.py, `delete_question`, removes and keeps.
use text.Mathlib.TextEquality.{eq_iff}
use tekijin.Prelude.{
  ℕ, ◌≡◌, ◌≢◌, refl, String, true, false, not, Option, none, some, List, [], ◌∷◌, arith,
  if◌then◌else◌, is_nonempty, is_str, str_eq, any, select,
}
use tekijin.Store.Rows.{delete, any-delete, select-delete}
use tekijin.Store.Tables.{
  Message, Database, is_question, shown_for, answers_of, event_of, consult_of,
}
use tekijin.Store.Questions.{
  message_in, feedback_of, recommendation_ids_of, delete_leaves, delete_question,
}

-- Every row of a question, removed from its table.
abbrev pub erased : String → Database → Database
erased id db = record db {
  questions = delete (is_question id) db.questions;
  recommendations = delete (shown_for id) db.recommendations;
  messages = delete (message_in (recommendation_ids_of id db)) db.messages;
  answers = delete (answers_of id) db.answers;
  events = delete (event_of id) db.events;
  feedback = delete (feedback_of id) db.feedback;
  offline_consults = delete (consult_of id) db.offline_consults;
}

delete-none :
    (ids : List ℕ) (rows : List Message)
    → (if is_nonempty ids then delete (message_in ids) rows else rows)
      ≡ delete (message_in ids) rows
delete-none [] [] = refl
delete-none [] (m ∷ rows) = ground (arith, delete-none [] rows)
delete-none (n ∷ ids) rows = refl

-- No statement is refused: the rows go before the rows that they refer to.
pub delete_question-erased :
    (db : Database) (id : String) → delete_question db id ≡ some (erased id db)
unfolding delete_question delete_leaves
delete_question-erased db id =
    let ids = recommendation_ids_of id db in
    rw (delete-none ids db.messages) (
      rw (any-delete (message_in ids) db.messages) (
        rw
          (
            any-delete (shown_for id) db.recommendations,
            any-delete (answers_of id) db.answers,
            any-delete (event_of id) db.events,
            any-delete (feedback_of id) db.feedback,
            any-delete (consult_of id) db.offline_consults,
          )
          refl))

-- No row of a question is left in the tables that refer to it, and no message of its hand-offs.
pub record IsErased (id : String) (before after : Database) : Type 0 where
  pub questions : any (is_question id) after.questions ≡ false
  pub recommendations : any (shown_for id) after.recommendations ≡ false
  pub answers : any (answers_of id) after.answers ≡ false
  pub events : any (event_of id) after.events ≡ false
  pub feedback : any (feedback_of id) after.feedback ≡ false
  pub consults : any (consult_of id) after.offline_consults ≡ false
  pub messages : any (message_in (recommendation_ids_of id before)) after.messages ≡ false

-- The deletion of a question is never refused by a foreign key. Afterwards there is no row of it
-- among the questions, recommendations, answers, events, feedback and offline consultations, and no
-- message on a recommendation that it had before.
pub delete_question-IsErased :
    (db : Database) (id : String)
    → (after : Database) × (delete_question db id ≡ some after) × IsErased id db after
delete_question-IsErased db id = (
  erased id db,
  delete_question-erased db id,
  record {
    questions = any-delete (is_question id) db.questions;
    recommendations = any-delete (shown_for id) db.recommendations;
    answers = any-delete (answers_of id) db.answers;
    events = any-delete (event_of id) db.events;
    feedback = any-delete (feedback_of id) db.feedback;
    consults = any-delete (consult_of id) db.offline_consults;
    messages = any-delete (message_in (recommendation_ids_of id db)) db.messages;
  },
)

-- The rows of another question, and the messages of other hand-offs, are as before.
pub record IsKept (other : String) (gone : List ℕ) (before after : Database) : Type 0 where
  pub questions :
      select (is_question other) after.questions ≡ select (is_question other) before.questions
  pub recommendations :
      select (shown_for other) after.recommendations
      ≡ select (shown_for other) before.recommendations
  pub answers : select (answers_of other) after.answers ≡ select (answers_of other) before.answers
  pub events : select (event_of other) after.events ≡ select (event_of other) before.events
  pub feedback :
      select (feedback_of other) after.feedback ≡ select (feedback_of other) before.feedback
  pub consults :
      select (consult_of other) after.offline_consults
      ≡ select (consult_of other) before.offline_consults
  pub messages :
      select (λ m. not (message_in gone m)) after.messages
      ≡ select (λ m. not (message_in gone m)) before.messages

-- A text is one of two ids at most.
str_eq-apart : (t id other : String) → other ≢ id → str_eq t other ≡ true → str_eq t id ≡ false
str_eq-apart t id other ne e = ground (arith, eq_iff t other, eq_iff t id)

is_str-apart :
    (t : Option String) (id other : String)
    → other ≢ id
    → is_str t other ≡ true
    → is_str t id ≡ false
is_str-apart none id other ne e = refl
is_str-apart (some t) id other ne e = str_eq-apart t id other ne e

-- The deletion of a question leaves the rows of every other question, and the messages that are
-- not on its own recommendations, as they were and in their order.
pub delete_question-IsKept :
    (db : Database) (id other : String)
    → other ≢ id
    → (after : Database) × (delete_question db id ≡ some after)
      × IsKept other (recommendation_ids_of id db) db after
delete_question-IsKept db id other ne =
    let gone = recommendation_ids_of id db in
    (
      erased id db,
      delete_question-erased db id,
      record {
        questions =
            select-delete (is_question other) (is_question id) db.questions
              (λ q. str_eq-apart q.id id other ne);
        recommendations =
            select-delete (shown_for other) (shown_for id) db.recommendations
              (λ r. str_eq-apart r.question_id id other ne);
        answers =
            select-delete (answers_of other) (answers_of id) db.answers
              (λ a. str_eq-apart a.question_id id other ne);
        events =
            select-delete (event_of other) (event_of id) db.events
              (λ e. str_eq-apart e.question_id id other ne);
        feedback =
            select-delete (feedback_of other) (feedback_of id) db.feedback
              (λ f. is_str-apart f.question_id id other ne);
        consults =
            select-delete (consult_of other) (consult_of id) db.offline_consults
              (λ c. str_eq-apart c.question_id id other ne);
        messages =
            select-delete (λ m. not (message_in gone m)) (message_in gone) db.messages
              (λ m h. ground arith);
      },
    )
