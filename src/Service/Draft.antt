-- ===== src/Service/Draft.antt =====
-- api/service.py: the draft and the choice of the hand-off's target.
use Prim.Native.Nat.{zero}
use tekijin.Prelude.{
  ℕ, suc, String, Option, none, some, List, [], ◌∷◌, if◌then◌else◌, is_text, or_empty, str_eq,
  head?, length, ◌==◌,
}
use tekijin.Scorer.{ScoredCandidate}
use tekijin.Agent.{AgentState, asker_id, draft_context}
use tekijin.Agent.Deps.{Deps}
use tekijin.Store.{
  Database, free_text, question_consult_method, update_question_consult_method,
  reorder_recommendation_ranks,
}
use tekijin.Service.State.{
  Service, Checkpoint, Env, Attempt, Done, accept, refuse, session_invalid, save,
}
use tekijin.Service.Outcome.{resolve_primary}
use tekijin.Service.Requests.{on_handoff, awaiting_outcome, signal, feedback_row}

-- `schemas.normalize_consult_method`
unfoldable pub normalize_consult_method : String → String
normalize_consult_method value = if str_eq value "direct" then "direct" else "chat"

-- What the responder sees, without names, departments and reuse totals.
pub record HandoffResponse : Type 0 where
  pub question : String
  pub question_id : Option String
  pub asker_id : Option ℕ
  pub topics : List String
  pub products : List String
  pub situation : Option String
  pub missing : List String
  pub responder : Option ScoredCandidate
  pub draft : String
  pub recommendation_id : Option ℕ
  pub consult_method : String

unfoldable pub handoff_view : Database → AgentState → HandoffResponse
handoff_view db s = record {
  question = s.question;
  question_id = s.persistence.question_id;
  asker_id = asker_id s.asker;
  topics = s.intent.topics;
  products = s.intent.products;
  situation = s.intent.situation;
  missing = s.sufficiency.missing;
  responder = head? s.recommendations;
  draft = or_empty s.draft;
  recommendation_id = resolve_primary db s;
  consult_method = normalize_consult_method (question_consult_method db s.persistence.question_id);
}

unfoldable pub get_handoff : Service → String → Attempt HandoffResponse
unfolding handoff_view
get_handoff svc session_id = elim (awaiting_outcome svc session_id) [
  | refuse e ↦ refuse e
  | accept c ↦ accept (handoff_view svc.database c.values)
]

abbrev pub with_draft : String → Checkpoint → Checkpoint
with_draft text c = record c { values = record (c.values) { draft = some text } }

-- The asker's method goes to the question's row.
unfoldable pub with_method : Option String → String → Service → Service
with_method none method svc = svc
with_method (some id) method svc = record svc {
  database = update_question_consult_method svc.database id method;
}

-- The edit is a signal where a draft was generated and the sent text differs from it.
unfoldable pub edit_signal :
    Env → String → Option String → Option String → String → Option ℕ → Service → Service
edit_signal env session_id question_id none text actor svc = svc
edit_signal env session_id question_id (some generated) text actor svc =
    if str_eq (env.deps.strip generated) text
    then svc
    else signal
        (feedback_row "c7" "draft_edited" question_id session_id none
          (some (("generated", free_text generated) ∷ ("sent", free_text text) ∷ [])) actor)
        svc

unfoldable pub save_draft :
    Env → String → Checkpoint → String → String → Option ℕ → Service → Service
unfolding with_method edit_signal
save_draft env session_id c text method actor svc =
    edit_signal env session_id c.values.persistence.question_id c.values.draft text actor (
      with_method c.values.persistence.question_id method (save session_id (with_draft text c) svc))

unfoldable pub save_handoff_draft :
    Env → String → String → String → Option ℕ → Service → Service × Done
unfolding save_draft
save_handoff_draft env session_id draft method actor svc =
    let text = env.deps.strip draft in
    if is_text text
    then on_handoff svc session_id
        (λ c. (save_draft env session_id c text method actor svc, accept tt))
    else (svc, refuse session_invalid)

-- `next((i for i, r in enumerate(recs) if r["person_id"] == person_id), None)`
abbrev pub index_of : ℕ → List ScoredCandidate → Option ℕ
index_of who [] = none
index_of who (c ∷ recs) = elim (index_of who recs) [
  | none ↦ if c.person_id == who then some 0 else none
  | some i ↦ if c.person_id == who then some 0 else some (suc i)
]

abbrev pub keep_head {ℓ} : {A : Type ℓ} → A → Option (A × List A) → Option (A × List A)
keep_head x none = none
keep_head x (some (y, rest)) = some (y, x ∷ rest)

-- `xs.pop(index)`: the element and the rest.
abbrev pub pop {ℓ} : {A : Type ℓ} → ℕ → List A → Option (A × List A)
pop index [] = none
pop zero (x ∷ xs) = some (x, xs)
pop (suc index) (x ∷ xs) = keep_head x (pop index xs)

-- The draft for another person on the shortlist.
unfoldable pub redraft : Deps → AgentState → ScoredCandidate → String
redraft d s selected =
    let (missing, known) = draft_context d s in
    d.draft (record {
      question = s.question;
      responder = selected;
      asker = s.asker;
      missing = missing;
      situation = s.intent.situation;
      topics = s.intent.topics;
      known_values = known;
    })

-- The selected row and its id come first, the others keep their order.
unfoldable pub reselected :
    AgentState → ScoredCandidate → List ScoredCandidate → ℕ → List ℕ → String → AgentState
reselected s selected recs id ids draft = record s {
  recommendations = selected ∷ recs;
  persistence = record (s.persistence) {
    recommendation_ids = id ∷ ids;
    primary_recommendation_id = some id;
  };
  draft = some draft;
}

pub record HandoffSelectResponse : Type 0 where
  pub responder : ScoredCandidate
  pub draft : String
  pub recommendation_id : ℕ

unfoldable pub select_as :
    Env
    → String
    → Checkpoint
    → ScoredCandidate × List ScoredCandidate
    → ℕ × List ℕ
    → Service
    → Service × Attempt HandoffSelectResponse
select_as env session_id c (selected, recs) (id, ids) svc =
    let draft = redraft env.deps c.values selected in
    let saved =
      save session_id (record c { values = reselected c.values selected recs id ids draft }) svc in
    (
      record saved { database = reorder_recommendation_ranks saved.database (id ∷ ids) },
      accept (record { responder = selected; draft = draft; recommendation_id = id }),
    )

abbrev pub no_selection : Service → Service × Attempt HandoffSelectResponse
no_selection svc = (svc, refuse session_invalid)

-- The ids have to be as many as the rows; then the same place is taken out of both.
unfoldable pub select_both :
    Env
    → String
    → Checkpoint
    → Option (ScoredCandidate × List ScoredCandidate)
    → Option (ℕ × List ℕ)
    → Service
    → Service × Attempt HandoffSelectResponse
unfolding select_as
select_both env session_id c none keys svc = no_selection svc
select_both env session_id c (some rows) none svc = no_selection svc
select_both env session_id c (some rows) (some keys) svc =
    if length keys.1 == length rows.1
    then select_as env session_id c rows keys svc
    else no_selection svc

unfoldable pub select_at :
    Env → String → Checkpoint → Option ℕ → Service → Service × Attempt HandoffSelectResponse
unfolding select_both
select_at env session_id c none svc = no_selection svc
select_at env session_id c (some index) svc =
    select_both env session_id c (pop index c.values.recommendations)
      (pop index c.values.persistence.recommendation_ids) svc

unfoldable pub select_handoff_candidate :
    Env → String → ℕ → Service → Service × Attempt HandoffSelectResponse
unfolding select_at
select_handoff_candidate env session_id who svc =
    on_handoff svc session_id
      (λ c. select_at env session_id c (index_of who c.values.recommendations) svc)
