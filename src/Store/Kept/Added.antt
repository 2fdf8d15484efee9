-- ===== src/Store/Kept/Added.antt =====
-- The insertions of data/writes.py keep the keys and the foreign keys in order.
use text.Mathlib.TextEquality.{eq_iff}
use tekijin.Prelude.{
  ℕ, ◌≡◌, refl, String, ◌<>◌, Bool, true, false, not, ◌&&◌, Option, none, some, List, [], ◌∷◌, ◌++◌,
  map, arith, if◌then◌else◌, any, elem, some-inj, All, str_eq,
}
use mathlib.Core.Path.{subst}
use tekijin.Store.Rows.{any-append, All-append, All-imp}
use tekijin.Store.Tables.{
  Question, StoredAnswer, Event, OfflineConsult, Database, is_question, has_question, consult_of,
}
use tekijin.Store.Questions
use tekijin.Store.Questions.{
  message_in, recommendation_ids_of, feedback_of, delete_question, guard, EventRow, event_row,
  known_asker,
}
use tekijin.Store.Log.{database_of}
use tekijin.Store.Integrity.{IsKeyed-append, feedback_known, IsConsistent}

-- A row that goes in with a key of its own.
All-apart :
    (id : String) (rows : List Question)
    → any (is_question id) rows ≡ false
    → All (λ (q : Question). str_eq id q.id ≡ false) rows
All-apart id [] h = tt
All-apart id (q ∷ rows) h =
    (ground (arith, eq_iff id q.id, eq_iff q.id id), All-apart id rows (ground arith))

pub any-append_left :
    {A : Type 0} (test : A → Bool) (xs ys : List A)
    → any test xs ≡ true
    → any test (xs ++ ys) ≡ true
any-append_left test xs ys e = rw (any-append test xs ys, e) refl

feedback_known-added :
    (db : Database) (q : Question) (t : Option String)
    → feedback_known db t ≡ true
    → feedback_known (record db { questions = db.questions ++ (q ∷ []) }) t ≡ true
feedback_known-added db q none e = refl
feedback_known-added db q (some id) e = any-append_left (is_question id) db.questions (q ∷ []) e

added_question-IsConsistent :
    (db : Database) (q : Question)
    → elem q.asker_id db.employees ≡ true
    → has_question db q.id ≡ false
    → IsConsistent db
    → IsConsistent (record db { questions = db.questions ++ (q ∷ []) })
added_question-IsConsistent db q asker fresh h = record {
  askers =
      All-append (λ (q : Question). elem q.asker_id db.employees ≡ true) db.questions (q ∷ [])
        h.askers (asker, tt);
  shown =
      All-imp db.recommendations
        (λ r e. any-append_left (is_question r.question_id) db.questions (q ∷ []) e) h.shown;
  people = h.people;
  messages = h.messages;
  answers =
      All-imp db.answers
        (λ a e. any-append_left (is_question a.question_id) db.questions (q ∷ []) e) h.answers;
  events =
      All-imp db.events (λ v e. any-append_left (is_question v.question_id) db.questions (q ∷ []) e)
        h.events;
  feedback = All-imp db.feedback (λ f e. feedback_known-added db q f.question_id e) h.feedback;
  consults =
      All-imp db.offline_consults
        (λ c e. any-append_left (is_question c.question_id) db.questions (q ∷ []) e) h.consults;
  question_keys =
      IsKeyed-append (λ (p q : Question). is_question p.id q) db.questions q h.question_keys
        (All-apart q.id db.questions fresh);
  recommendation_keys = h.recommendation_keys;
  consult_keys = h.consult_keys;
  given_out = h.given_out;
}

guard-some : (b : Bool) (db after : Database) → guard b db ≡ some after → (b ≡ true) × (db ≡ after)
guard-some true db after e = (refl, ground arith)
guard-some false db after e = cc

pub persist_question-IsConsistent :
    (db after : Database) (id : String) (asker : ℕ) (body : String) (now : ℕ)
    (session : Option String)
    → Questions.persist_question db id asker body now session ≡ some after
    → IsConsistent db
    → IsConsistent after
unfolding Questions.persist_question Questions.employee_exists
persist_question-IsConsistent db after id asker body now session e h =
    let (ok, same) = guard-some (elem asker db.employees && not (has_question db id)) _ after e in
    subst IsConsistent same (added_question-IsConsistent db _ (ground arith) (ground arith) h)

pub record_events-IsConsistent :
    (db after : Database) (id : String) (rows : List EventRow)
    → Questions.record_events db id rows ≡ some after
    → IsConsistent db
    → IsConsistent after
unfolding Questions.record_events
record_events-IsConsistent db after id [] e h = subst IsConsistent (some-inj e) h
record_events-IsConsistent db after id (row ∷ rows) e h =
    let (ok, same) = guard-some (has_question db id) _ after e in
    subst IsConsistent same (record {
      askers = h.askers;
      shown = h.shown;
      people = h.people;
      messages = h.messages;
      answers = h.answers;
      events =
          All-append (λ (v : Event). has_question db v.question_id ≡ true) db.events
            (map (event_row id) (row ∷ rows)) h.events (all (row ∷ rows) ok);
      feedback = h.feedback;
      consults = h.consults;
      question_keys = h.question_keys;
      recommendation_keys = h.recommendation_keys;
      consult_keys = h.consult_keys;
      given_out = h.given_out;
    })
  where
    all :
        (rows : List EventRow)
        → has_question db id ≡ true
        → All (λ (v : Event). has_question db v.question_id ≡ true) (map (event_row id) rows)
    all [] ok = tt
    all (row ∷ rows) ok = (ok, all rows ok)

if_some :
    {A : Type 0} (b : Bool) (x : Database × A) (after : Database)
    → database_of (if b then some x else none) ≡ some after
    → (b ≡ true) × (x.0 ≡ after)
if_some true (db, a) after e = (refl, some-inj e)
if_some false x after e = cc

pub create_answer-IsConsistent :
    (db after : Database) (uid id : String) (responder : ℕ) (body : String) (topic : Option String)
    (embedding : Option (List ℕ)) (now : ℕ)
    → database_of (Questions.create_answer db uid id responder body topic embedding now)
      ≡ some after
    → IsConsistent db
    → IsConsistent after
unfolding Questions.create_answer
create_answer-IsConsistent db after uid id responder body topic embedding now e h =
    let (ok, same) =
      if_some
        (has_question db id
          && (elem responder db.employees
              && not (any (λ (a : StoredAnswer). str_eq a.id ("ans_" <> uid)) db.answers)))
        _ after e in
    subst IsConsistent same (record {
      askers = h.askers;
      shown = h.shown;
      people = h.people;
      messages = h.messages;
      answers =
          All-append (λ (a : StoredAnswer). has_question db a.question_id ≡ true) db.answers
            (_ ∷ []) h.answers (ground arith, tt);
      events = h.events;
      feedback = h.feedback;
      consults = h.consults;
      question_keys = h.question_keys;
      recommendation_keys = h.recommendation_keys;
      consult_keys = h.consult_keys;
      given_out = h.given_out;
    })

All-consult_apart :
    (id : String) (rows : List OfflineConsult)
    → any (consult_of id) rows ≡ false
    → All (λ (c : OfflineConsult). str_eq id c.question_id ≡ false) rows
All-consult_apart id [] h = tt
All-consult_apart id (c ∷ rows) h = (
  ground (arith, eq_iff id c.question_id, eq_iff c.question_id id),
  All-consult_apart id rows (ground arith),
)

pub record_offline_consult-IsConsistent :
    (db after : Database) (row : OfflineConsult)
    → database_of (Questions.record_offline_consult db row) ≡ some after
    → IsConsistent db
    → IsConsistent after
unfolding Questions.record_offline_consult
record_offline_consult-IsConsistent db after row e h =
    let (ok, same) =
      if_some
        (has_question db row.question_id
          && (elem row.responder_id db.employees
              && (known_asker db row.asker_id
                  && not (any (consult_of row.question_id) db.offline_consults))))
        _ after e in
    subst IsConsistent same (record {
      askers = h.askers;
      shown = h.shown;
      people = h.people;
      messages = h.messages;
      answers = h.answers;
      events = h.events;
      feedback = h.feedback;
      consults =
          All-append (λ (c : OfflineConsult). has_question db c.question_id ≡ true)
            db.offline_consults (_ ∷ []) h.consults (ground arith, tt);
      question_keys = h.question_keys;
      recommendation_keys = h.recommendation_keys;
      consult_keys =
          IsKeyed-append (λ (b c : OfflineConsult). consult_of b.question_id c) db.offline_consults
            _ h.consult_keys (All-consult_apart row.question_id db.offline_consults (ground arith));
      given_out = h.given_out;
    })
