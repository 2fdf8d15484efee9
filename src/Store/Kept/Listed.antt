-- ===== src/Store/Kept/Listed.antt =====
-- A stored shortlist keeps the keys and the foreign keys in order: data/writes.py,
-- `insert_shown_recommendations`.

use tekijin.Prelude.{
  ℕ, suc, ◌<◌, ◌≡◌, refl, String, Bool, true, false, ◌&&◌, Option, none, some, List, [], ◌∷◌, arith,
  if◌then◌else◌, elem, ◌>>=◌, some-inj,
}
use mathlib.Core.Path.{subst}
use tekijin.Scorer.{ScoredCandidate}
use tekijin.Store.Rows.{All-append, All-imp}
use tekijin.Store.Tables.{Recommendation, Database, has_question, is_recommendation}
use tekijin.Store.Shown.{insert_one, insert_from, shown_row}
use tekijin.Store.Log.{database_of}
use tekijin.Store.Integrity.{IsKeyed-append, IsConsistent}
use tekijin.Store.Kept.Added.{any-append_left}

insert_one-IsConsistent :
    (db : Database) (row : Recommendation)
    → row.id ≡ db.next_recommendation
    → has_question db row.question_id ≡ true
    → elem row.employee_id db.employees ≡ true
    → IsConsistent db
    → IsConsistent (insert_one db row)
insert_one-IsConsistent db row new question person h = record {
  askers = h.askers;
  shown =
      All-append (λ (r : Recommendation). has_question db r.question_id ≡ true) db.recommendations
        (row ∷ []) h.shown (question, tt);
  people =
      All-append (λ (r : Recommendation). elem r.employee_id db.employees ≡ true) db.recommendations
        (row ∷ []) h.people (person, tt);
  messages =
      All-imp db.messages
        (λ m e.
          any-append_left (is_recommendation m.recommendation_id) db.recommendations (row ∷ []) e)
        h.messages;
  answers = h.answers;
  events = h.events;
  feedback = h.feedback;
  consults = h.consults;
  question_keys = h.question_keys;
  recommendation_keys =
      IsKeyed-append (λ (p r : Recommendation). is_recommendation p.id r) db.recommendations row
        h.recommendation_keys (All-imp db.recommendations (λ r e. ground arith) h.given_out);
  consult_keys = h.consult_keys;
  given_out =
      All-append (λ (r : Recommendation). r.id < suc row.id) db.recommendations (row ∷ [])
        (All-imp db.recommendations (λ r e. omega arith) h.given_out) (omega arith, tt);
}

some_cons :
    (b : Bool) (n : ℕ) (rest : Option (Database × List ℕ)) (after : Database)
    → database_of (if b then (do (db, ids) ← rest; some (db, n ∷ ids)) else none) ≡ some after
    → (b ≡ true) × (database_of rest ≡ some after)
some_cons true n none after e = cc
some_cons true n (some (db, ids)) after e = (refl, e)
some_cons false n rest after e = cc

pub insert_from-IsConsistent :
    (id : String) (now position : ℕ) (recs : List ScoredCandidate) (db after : Database)
    → database_of (insert_from id now position recs db) ≡ some after
    → IsConsistent db
    → IsConsistent after
unfolding insert_from shown_row
insert_from-IsConsistent id now position [] db after e h = subst IsConsistent (some-inj e) h
insert_from-IsConsistent id now position (rec ∷ recs) db after e h =
    let row = shown_row id now position rec db.next_recommendation in
    let (ok, e') =
      some_cons (has_question db id && elem rec.person_id db.employees) db.next_recommendation
        (insert_from id now (suc position) recs (insert_one db row)) after e in
    insert_from-IsConsistent id now (suc position) recs (insert_one db row) after e'
      (insert_one-IsConsistent db row refl (ground arith) (ground arith) h)
