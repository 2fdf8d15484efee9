-- ===== src/Store/Integrity.antt =====
-- The keys and foreign keys of the tables, and the writes that keep them: data/writes.py over
-- models/tables.py.
use tekijin.Prelude.{
  ◌<◌, ◌≡◌, refl, String, Bool, true, false, Option, none, some, List, [], ◌∷◌, ◌++◌, arith,
  if◌then◌else◌, any, elem, All,
}
use tekijin.Store.Rows.{update, delete, any-append, any-update}
use tekijin.Store.Tables.{
  Question, Recommendation, Message, StoredAnswer, Event, Feedback, OfflineConsult, Database,
  is_question, has_question, is_recommendation, consult_of,
}

-- No two rows of one key.
abbrev pub IsKeyed : {A : Type 0} → (A → A → Bool) → List A → Type 0
IsKeyed same [] = Unit
IsKeyed same (x ∷ rows) = (any (same x) rows ≡ false) × IsKeyed same rows

module _ {A : Type 0} (same : A → A → Bool) where
  any-delete-false :
      (test hit : A → Bool) (rows : List A)
      → any test rows ≡ false
      → any test (delete hit rows) ≡ false
  any-delete-false test hit [] h = refl
  any-delete-false test hit (x ∷ rows) h = ground (arith, any-delete-false test hit rows)

  pub IsKeyed-delete :
      (hit : A → Bool) (rows : List A) → IsKeyed same rows → IsKeyed same (delete hit rows)
  IsKeyed-delete hit [] h = tt
  IsKeyed-delete hit (x ∷ rows) h =
      ground (arith, IsKeyed-delete hit rows h.1, any-delete-false (same x) hit rows h.0)

  pub IsKeyed-append :
      (rows : List A) (new : A)
      → IsKeyed same rows
      → All (λ x. same x new ≡ false) rows
      → IsKeyed same (rows ++ (new ∷ []))
  IsKeyed-append [] new h apart = (refl, tt)
  IsKeyed-append (x ∷ rows) new h apart =
      (ground (arith, any-append (same x) rows (new ∷ [])), IsKeyed-append rows new h.1 apart.1)

  pub IsKeyed-update :
      (hit : A → Bool) (change : A → A) (rows : List A)
      → ((x y : A) → same (change x) y ≡ same x y)
      → ((x y : A) → same x (change y) ≡ same x y)
      → IsKeyed same rows
      → IsKeyed same (update hit change rows)
  IsKeyed-update hit change [] left right h = tt
  IsKeyed-update hit change (x ∷ rows) left right h =
      (head (hit x), IsKeyed-update hit change rows left right h.1)
    where
      others : any (same x) (update hit change rows) ≡ false
      others = rw (any-update (same x) hit change rows (right x)) h.0

      changed : (rows : List A) → any (same (change x)) rows ≡ any (same x) rows
      changed [] = refl
      changed (y ∷ rows) = ground (arith, changed rows, left x y)

      head : (b : Bool) → any (same (if b then change x else x)) (update hit change rows) ≡ false
      head true = rw (changed (update hit change rows)) others
      head false = others

abbrev pub feedback_known : Database → Option String → Bool
feedback_known db none = true
feedback_known db (some id) = has_question db id

-- The question or the recommendation of each row is there, askers and shown people are employees,
-- questions and recommendations have keys of their own, a question has one write-up at most, and
-- the sequence is past every id that it gave out.
pub record IsConsistent (db : Database) : Type 0 where
  pub askers : All (λ (q : Question). elem q.asker_id db.employees ≡ true) db.questions
  pub shown : All (λ (r : Recommendation). has_question db r.question_id ≡ true) db.recommendations
  pub people :
      All (λ (r : Recommendation). elem r.employee_id db.employees ≡ true) db.recommendations
  pub messages :
      All
        (λ (m : Message). any (is_recommendation m.recommendation_id) db.recommendations ≡ true)
        db.messages
  pub answers : All (λ (a : StoredAnswer). has_question db a.question_id ≡ true) db.answers
  pub events : All (λ (e : Event). has_question db e.question_id ≡ true) db.events
  pub feedback : All (λ (f : Feedback). feedback_known db f.question_id ≡ true) db.feedback
  pub consults :
      All (λ (c : OfflineConsult). has_question db c.question_id ≡ true) db.offline_consults
  pub question_keys : IsKeyed (λ (p q : Question). is_question p.id q) db.questions
  pub recommendation_keys :
      IsKeyed (λ (p r : Recommendation). is_recommendation p.id r) db.recommendations
  pub consult_keys :
      IsKeyed (λ (b c : OfflineConsult). consult_of b.question_id c) db.offline_consults
  pub given_out : All (λ (r : Recommendation). r.id < db.next_recommendation) db.recommendations
