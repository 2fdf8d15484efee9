-- ===== src/Store/Settled.antt =====
-- The first recorded result stands: data/writes.py, `mark_question_resolved`, `mark_self_resolved`
-- and `set_recommendation_outcome`.
use tekijin.Prelude.{
  ℕ, ◌≡◌, ◌≢◌, refl, sym, ap, ◌∙◌, String, Bool, true, false, not, ◌||◌, Option, none, some, List,
  [], ◌∷◌, arith, if◌then◌else◌, any, is_some, All, some-inj,
}
use tekijin.Store.Rows.{update, update-update_again}
use tekijin.Store.Tables.{Question, Recommendation, Database, is_question}
use tekijin.Store.Questions.{
  mark_question_resolved, mark_self_resolved, is_unresolved, is_unsettled,
}
use tekijin.Store.Shown.{
  set_recommendation_outcome, recommendation_outcome, row_at, is_pending, outcome_values,
  known_target,
}

-- A question is settled once: `resolved_at` is set, by an acceptance or by the asker.
abbrev pub AllSettled : String → List Question → Type 0
AllSettled id = All (λ (q : Question). is_question id q ≡ true → is_some q.resolved_at ≡ true)

resolved-idle :
    (id : String) (change : Question → Question) (rows : List Question)
    → AllSettled id rows
    → update (is_unresolved id) change rows ≡ rows
resolved-idle id change [] h = refl
resolved-idle id change (q ∷ rows) h = ground (arith, resolved-idle id change rows h.1, h.0)

self-idle :
    (id : String) (change : Question → Question) (rows : List Question)
    → AllSettled id rows
    → update (is_unsettled id) change rows ≡ rows
self-idle id change [] h = refl
self-idle id change (q ∷ rows) h = ground (arith, self-idle id change rows h.1, h.0)

resolved-AllSettled :
    (id : String) (t : ℕ) (rows : List Question)
    → AllSettled id
        (update (is_unresolved id) (λ (q : Question). record q { resolved_at = some t }) rows)
resolved-AllSettled id t [] = tt
resolved-AllSettled id t (q ∷ rows) = (ground arith, resolved-AllSettled id t rows)

-- Once an acceptance has stamped a question, neither a second acceptance nor the asker's own
-- resolution changes the table: the first time stands, and the question is not relabelled.
pub mark_question_resolved_first :
    (db : Database) (id : String) (first later : ℕ)
    → (mark_question_resolved (mark_question_resolved db id first) id later
        ≡ mark_question_resolved db id first)
      × (mark_self_resolved (mark_question_resolved db id first) id later
          ≡ mark_question_resolved db id first)
unfolding mark_question_resolved mark_self_resolved
mark_question_resolved_first db id first later = (
  rw
      (resolved-idle id (λ (q : Question). record q { resolved_at = some later }) _
        (resolved-AllSettled id first db.questions))
      refl,
  rw
      (self-idle id
        (λ (q : Question). record q { resolution_kind = some "self"; resolved_at = some later }) _
        (resolved-AllSettled id first db.questions))
      refl,
)

-- Every question that is labelled is stamped, too.
abbrev pub AllStamped : List Question → Type 0
AllStamped = All (λ (q : Question). is_some q.resolution_kind ≡ true → is_some q.resolved_at ≡ true)

self-AllSettled :
    (id : String) (t : ℕ) (rows : List Question)
    → AllStamped rows
    → AllSettled id (
        update
          (is_unsettled id)
          (λ (q : Question). record q { resolution_kind = some "self"; resolved_at = some t })
          rows)
self-AllSettled id t [] h = tt
self-AllSettled id t (q ∷ rows) h = (ground (arith, h.0), self-AllSettled id t rows h.1)

-- Where every labelled question is stamped, the asker's own resolution stands in the same way
-- against a later acceptance and a later resolution of the asker's own.
pub mark_self_resolved_first :
    (db : Database) (id : String) (first later : ℕ)
    → AllStamped db.questions
    → (mark_question_resolved (mark_self_resolved db id first) id later
        ≡ mark_self_resolved db id first)
      × (mark_self_resolved (mark_self_resolved db id first) id later
          ≡ mark_self_resolved db id first)
unfolding mark_question_resolved mark_self_resolved
mark_self_resolved_first db id first later h = (
  rw
      (resolved-idle id (λ (q : Question). record q { resolved_at = some later }) _
        (self-AllSettled id first db.questions h))
      refl,
  rw
      (self-idle id
        (λ (q : Question). record q { resolution_kind = some "self"; resolved_at = some later }) _
        (self-AllSettled id first db.questions h))
      refl,
)

outcome_values-recorded :
    (id : ℕ) (outcome : String) (person : Option ℕ) (r : Recommendation)
    → is_pending id (outcome_values outcome person r) ≡ false
outcome_values-recorded id outcome none r = ground arith
outcome_values-recorded id outcome (some n) r = ground arith

outcome_values-id :
    (outcome : String) (person : Option ℕ) (r : Recommendation)
    → (outcome_values outcome person r).id ≡ r.id
outcome_values-id outcome none r = refl
outcome_values-id outcome (some n) r = refl

outcome_values-outcome :
    (outcome : String) (person : Option ℕ) (r : Recommendation)
    → (outcome_values outcome person r).outcome ≡ some outcome
outcome_values-outcome outcome none r = refl
outcome_values-outcome outcome (some n) r = refl

accepted-write :
    (db after : Database) (id : ℕ) (outcome : String) (person : Option ℕ)
    → set_recommendation_outcome db id outcome person ≡ some after
    → (record db {
      recommendations = update (is_pending id) (outcome_values outcome person) db.recommendations;
    })
      ≡ after
unfolding set_recommendation_outcome
accepted-write db after id outcome person e =
    if_some (known_target db person || not (any (is_pending id) db.recommendations)) _ after e
  where
    if_some :
        (b : Bool) (x after : Database) → (if b then some x else none) ≡ some after → x ≡ after
    if_some true x after e = some-inj e
    if_some false x after e = cc

-- After an accepted outcome for a recommendation, a second accepted one changes nothing,
-- whatever it says and whomever it names.
pub set_recommendation_outcome_first :
    (db mid after : Database) (id : ℕ) (outcome later : String) (person target : Option ℕ)
    → set_recommendation_outcome db id outcome person ≡ some mid
    → set_recommendation_outcome mid id later target ≡ some after
    → mid ≡ after
set_recommendation_outcome_first db mid after id outcome later person target e e' =
    let first = accepted-write db mid id outcome person e in
    let second = accepted-write mid after id later target e' in
    let hit = is_pending id in
    let again : Database → Database = λ d. record d {
      recommendations = update hit (outcome_values later target) d.recommendations;
    } in
    sym first
    ∙ sym (
        ap (λ rows. record db { recommendations = rows })
          (update-update_again hit (outcome_values outcome person) (outcome_values later target)
            db.recommendations (outcome_values-recorded id outcome person)))
    ∙ ap again first
    ∙ second

row_at-other :
    (id other : ℕ) (outcome : String) (person : Option ℕ) (rows : List Recommendation)
    → other ≢ id
    → row_at other (update (is_pending id) (outcome_values outcome person) rows) ≡ row_at other rows
row_at-other id other outcome person [] ne = refl
row_at-other id other outcome person (r ∷ rows) ne =
    ground (arith, row_at-other id other outcome person rows ne, outcome_values-id outcome person r)

row_at-recorded :
    (id : ℕ) (outcome : String) (person : Option ℕ) (rows : List Recommendation)
    (r : Recommendation)
    → row_at id rows ≡ some r
    → r.outcome ≡ none
    → row_at id (update (is_pending id) (outcome_values outcome person) rows)
      ≡ some (outcome_values outcome person r)
row_at-recorded id outcome person [] r e fresh = cc
row_at-recorded id outcome person (x ∷ rows) r e fresh = ground (
  arith,
  row_at-recorded id outcome person rows r,
  outcome_values-id outcome person x,
  outcome_values-id outcome person r,
)

-- A pending recommendation takes the outcome of an accepted write, and no other recommendation
-- changes.
pub set_recommendation_outcome-recorded :
    (db after : Database) (id : ℕ) (outcome : String) (person : Option ℕ) (r : Recommendation)
    → set_recommendation_outcome db id outcome person ≡ some after
    → row_at id db.recommendations ≡ some r
    → r.outcome ≡ none
    → (recommendation_outcome after id ≡ some outcome)
      × ((other : ℕ)
          → other ≢ id
          → row_at other after.recommendations ≡ row_at other db.recommendations)
unfolding recommendation_outcome
set_recommendation_outcome-recorded db after id outcome person r e found fresh =
    let same = accepted-write db after id outcome person e in
    let rows : update (is_pending id) (outcome_values outcome person) db.recommendations
        ≡ after.recommendations =
      ap (λ (d : Database). d.recommendations) same in
    (
      rw
          (
            sym (ap (row_at id) rows)
                ∙ row_at-recorded id outcome person db.recommendations r found fresh,
            recommendation_outcome,
          )
          (outcome_values-outcome outcome person r),
      λ other ne. rw (sym rows) (row_at-other id other outcome person db.recommendations ne),
    )
