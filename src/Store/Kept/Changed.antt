-- ===== src/Store/Kept/Changed.antt =====
-- The updates and deletions of data/writes.py keep the keys and the foreign keys in order.
use text.Mathlib.TextEquality.{eq_iff}
use tekijin.Prelude.{
  ℕ, suc, ◌≡◌, refl, sym, ◌∙◌, String, Bool, true, false, Option, none, some, List, [], ◌∷◌, map,
  arith, any, select, elem, some-inj, str_eq, is_str,
}
use mathlib.Core.Path.{subst}
use tekijin.Store.Rows.{
  update, delete, All-imp, All-delete, All-update, any-delete_keep, any-update,
}
use tekijin.Store.Tables.{
  Question, Recommendation, OfflineConsult, Database, is_question, has_question, is_recommendation,
  shown_for, answers_of, event_of, consult_of,
}
use tekijin.Store.Questions.{message_in, recommendation_ids_of, feedback_of, delete_question}
use tekijin.Store.Shown.{update_recommendations, reorder_from, rank_at}
use tekijin.Store.Delete.{erased, delete_question-erased}
use tekijin.Store.Integrity.{IsKeyed-delete, IsKeyed-update, feedback_known, IsConsistent}

-- An UPDATE of questions that leaves their ids and askers.
pub update_questions-IsConsistent :
    (db : Database) (hit : Question → Bool) (change : Question → Question)
    → ((q : Question) → (change q).id ≡ q.id)
    → ((q : Question) → (change q).asker_id ≡ q.asker_id)
    → IsConsistent db
    → IsConsistent (record db { questions = update hit change db.questions })
update_questions-IsConsistent db hit change key asker h = record {
  askers = All-update hit change db.questions (λ q e. e) (λ q e f. rw (asker q) f) h.askers;
  shown = All-imp db.recommendations (λ r e. found r.question_id ∙ e) h.shown;
  people = h.people;
  messages = h.messages;
  answers = All-imp db.answers (λ a e. found a.question_id ∙ e) h.answers;
  events = All-imp db.events (λ a e. found a.question_id ∙ e) h.events;
  feedback = All-imp db.feedback (λ f e. known f.question_id e) h.feedback;
  consults = All-imp db.offline_consults (λ a e. found a.question_id ∙ e) h.consults;
  question_keys =
      IsKeyed-update (λ (p q : Question). is_question p.id q) hit change db.questions
        (λ x y. rw (key x) refl) (λ x y. rw (key y) refl) h.question_keys;
  recommendation_keys = h.recommendation_keys;
  consult_keys = h.consult_keys;
  given_out = h.given_out;
}
  where
    found :
        (id : String) → any (is_question id) (update hit change db.questions) ≡ has_question db id
    found id = any-update (is_question id) hit change db.questions (λ q. rw (key q) refl)

    known :
        (id : Option String)
        → feedback_known db id ≡ true
        → feedback_known (record db { questions = update hit change db.questions }) id ≡ true
    known none e = refl
    known (some id) e = found id ∙ e

-- An UPDATE of recommendations that leaves their ids, questions and people.
pub update_recommendations-IsConsistent :
    (db : Database) (hit : Recommendation → Bool) (change : Recommendation → Recommendation)
    → ((r : Recommendation) → (change r).id ≡ r.id)
    → ((r : Recommendation) → (change r).question_id ≡ r.question_id)
    → ((r : Recommendation) → (change r).employee_id ≡ r.employee_id)
    → IsConsistent db
    → IsConsistent (update_recommendations hit change db)
update_recommendations-IsConsistent db hit change key question person h = record {
  askers = h.askers;
  answers = h.answers;
  events = h.events;
  feedback = h.feedback;
  consults = h.consults;
  question_keys = h.question_keys;
  consult_keys = h.consult_keys;
  shown = All-update hit change db.recommendations (λ r e. e) (λ r e f. rw (question r) f) h.shown;
  people = All-update hit change db.recommendations (λ r e. e) (λ r e f. rw (person r) f) h.people;
  messages = All-imp db.messages (λ m e. found m.recommendation_id ∙ e) h.messages;
  recommendation_keys =
      IsKeyed-update (λ (p r : Recommendation). is_recommendation p.id r) hit change
        db.recommendations (λ x y. rw (key x) refl) (λ x y. rw (key y) refl) h.recommendation_keys;
  given_out =
      All-update hit change db.recommendations (λ r e. e) (λ r e f. rw (key r) f) h.given_out;
}
  where
    found :
        (id : ℕ)
        → any (is_recommendation id) (update hit change db.recommendations)
          ≡ any (is_recommendation id) db.recommendations
    found id =
        any-update (is_recommendation id) hit change db.recommendations (λ r. rw (key r) refl)

-- The rows that the erased question does not own keep what they refer to.
has_question-erased :
    (db : Database) (id other : String)
    → str_eq other id ≡ false
    → has_question db other ≡ true
    → has_question (erased id db) other ≡ true
has_question-erased db id other apart e =
    any-delete_keep (is_question other) (is_question id) db.questions
      (λ q h. ground (arith, eq_iff q.id other, eq_iff q.id id, eq_iff other id))
    ∙ e

-- A recommendation that is not the question's stays.
has_recommendation-delete :
    (n : ℕ) (x : String) (rows : List Recommendation)
    → elem n (map (λ (r : Recommendation). r.id) (select (shown_for x) rows)) ≡ false
    → any (is_recommendation n) rows ≡ true
    → any (is_recommendation n) (delete (shown_for x) rows) ≡ true
has_recommendation-delete n x [] h e = e
has_recommendation-delete n x (y ∷ rows) h e = ground (arith, has_recommendation-delete n x rows)

feedback_known-erased :
    (db : Database) (id : String) (t : Option String)
    → is_str t id ≡ false
    → feedback_known db t ≡ true
    → feedback_known (erased id db) t ≡ true
feedback_known-erased db id none apart e = refl
feedback_known-erased db id (some other) apart e = has_question-erased db id other apart e

erased-IsConsistent : (db : Database) (id : String) → IsConsistent db → IsConsistent (erased id db)
erased-IsConsistent db id h = record {
  askers = All-delete (is_question id) db.questions (λ q a e. e) h.askers;
  shown =
      All-delete (shown_for id) db.recommendations
        (λ r a e. has_question-erased db id r.question_id a e) h.shown;
  people = All-delete (shown_for id) db.recommendations (λ r a e. e) h.people;
  messages =
      All-delete (message_in (recommendation_ids_of id db)) db.messages
        (λ m a e. has_recommendation-delete m.recommendation_id id db.recommendations a e)
        h.messages;
  answers =
      All-delete (answers_of id) db.answers (λ a p e. has_question-erased db id a.question_id p e)
        h.answers;
  events =
      All-delete (event_of id) db.events (λ v p e. has_question-erased db id v.question_id p e)
        h.events;
  feedback =
      All-delete (feedback_of id) db.feedback
        (λ f p e. feedback_known-erased db id f.question_id p e) h.feedback;
  consults =
      All-delete (consult_of id) db.offline_consults
        (λ c p e. has_question-erased db id c.question_id p e) h.consults;
  question_keys =
      IsKeyed-delete (λ (p q : Question). is_question p.id q) (is_question id) db.questions
        h.question_keys;
  recommendation_keys =
      IsKeyed-delete (λ (p r : Recommendation). is_recommendation p.id r) (shown_for id)
        db.recommendations h.recommendation_keys;
  consult_keys =
      IsKeyed-delete (λ (b c : OfflineConsult). consult_of b.question_id c) (consult_of id)
        db.offline_consults h.consult_keys;
  given_out = All-delete (shown_for id) db.recommendations (λ r a e. e) h.given_out;
}

pub delete_question-IsConsistent :
    (db after : Database) (id : String)
    → delete_question db id ≡ some after
    → IsConsistent db
    → IsConsistent after
delete_question-IsConsistent db after id e h =
    let same : erased id db ≡ after = some-inj (sym (delete_question-erased db id) ∙ e) in
    subst IsConsistent same (erased-IsConsistent db id h)

pub reorder_from-IsConsistent :
    (position : ℕ) (ids : List ℕ) (db : Database)
    → IsConsistent db
    → IsConsistent (reorder_from position ids db)
unfolding reorder_from
reorder_from-IsConsistent position [] db h = h
reorder_from-IsConsistent position (id ∷ ids) db h =
    reorder_from-IsConsistent (suc position) ids
      (update_recommendations (is_recommendation id) (rank_at position) db)
      (update_recommendations-IsConsistent db (is_recommendation id) (rank_at position) (λ r. refl)
        (λ r. refl) (λ r. refl) h)
