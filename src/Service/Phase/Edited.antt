-- ===== src/Service/Phase/Edited.antt =====
-- The draft, the choice of the target, the fallback and a new question follow the life of their
-- session: api/service.py.
use tekijin.Prelude.{
  ℕ, ◌≡◌, refl, ◌∙◌, String, Option, none, some, List, is_text, str_eq, length, ◌==◌,
}
use tekijin.Scorer.{ScoredCandidate}
use tekijin.Service.State.{Service, Checkpoint, Env, Attempt, Done, accept, save}
use tekijin.Service.Requests.{signal}
use tekijin.Service.Draft.{
  save_handoff_draft, save_draft, with_method, edit_signal, with_draft, select_as, select_both,
  select_at, select_handoff_candidate, index_of, pop, HandoffSelectResponse,
}
use tekijin.Service.Rules.{IsParked, on_handoff-keeps}
use tekijin.Service.Apart.{if-keeps}
use tekijin.Service.Phase.{Phase, Moves, stays, phase, Follows, save-phase}

pub same-Follows :
    (svc : Service) (session_id : String) {p : Phase}
    → p ≡ phase svc session_id
    → Moves (phase svc session_id) p
same-Follows svc session_id e = rw e stays

module _ (env : Env) (svc : Service) (session_id : String) where
  with_method-phase :
      (id : Option String) (method : String) (after : Service)
      → phase (with_method id method after) session_id ≡ phase after session_id
  unfolding with_method
  with_method-phase none method after = refl
  with_method-phase (some id) method after = refl

  edit_signal-phase :
      (id generated : Option String) (sent : String) (actor : Option ℕ) (after : Service)
      → phase (edit_signal env session_id id generated sent actor after) session_id
        ≡ phase after session_id
  unfolding edit_signal signal
  edit_signal-phase id none sent actor after = refl
  edit_signal-phase id (some t) sent actor after =
      if-keeps (λ r. phase r session_id ≡ phase after session_id) (str_eq (env.deps.strip t) sent)
        refl refl

  pub save_handoff_draft-Follows :
      (draft method : String) (actor : Option ℕ)
      → Follows svc session_id (save_handoff_draft env session_id draft method actor svc).0
  unfolding save_handoff_draft save_draft
  save_handoff_draft-Follows draft method actor =
      let sent = env.deps.strip draft in
      if-keeps {A = Service × Done} (λ r. Follows svc session_id r.0) (is_text sent)
        (on_handoff-keeps {A = Unit} (Follows svc session_id) svc session_id
          (λ c. (save_draft env session_id c sent method actor svc, accept tt)) stays
          (λ c parked.
            let id = c.values.persistence.question_id in
            let saved = save session_id (with_draft sent c) svc in
            same-Follows svc session_id (
              edit_signal-phase id c.values.draft sent actor (with_method id method saved)
              ∙ (with_method-phase id method saved
                  ∙ save-phase svc session_id c (with_draft sent c) parked refl))))
        stays

  select_both-Follows :
      (c : Checkpoint) (rows : Option (ScoredCandidate × List ScoredCandidate))
      (keys : Option (ℕ × List ℕ))
      → IsParked svc session_id c
      → Follows svc session_id (select_both env session_id c rows keys svc).0
  unfolding select_both select_as
  select_both-Follows c none keys parked = stays
  select_both-Follows c (some rows) none parked = stays
  select_both-Follows c (some (top, recs)) (some (id, ids)) parked =
      if-keeps {A = Service × Attempt HandoffSelectResponse} (λ r. Follows svc session_id r.0)
        (length ids == length recs)
        (same-Follows svc session_id (save-phase svc session_id c _ parked refl)) stays

  select_at-Follows :
      (c : Checkpoint) (index : Option ℕ)
      → IsParked svc session_id c
      → Follows svc session_id (select_at env session_id c index svc).0
  unfolding select_at
  select_at-Follows c none parked = stays
  select_at-Follows c (some index) parked =
      select_both-Follows c (pop index c.values.recommendations)
        (pop index c.values.persistence.recommendation_ids) parked

  pub select_handoff_candidate-Follows :
      (who : ℕ) → Follows svc session_id (select_handoff_candidate env session_id who svc).0
  unfolding select_handoff_candidate
  select_handoff_candidate-Follows who =
      on_handoff-keeps (Follows svc session_id) svc session_id _ stays
        (λ c parked. select_at-Follows c (index_of who c.values.recommendations) parked)
