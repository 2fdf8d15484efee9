-- ===== src/Service/Apart/Drafts.antt =====
-- The requests of api/service.py on a draft, a choice or a fallback leave the other sessions alone.
use tekijin.Prelude.{
  ℕ, ◌≡◌, String, Bool, true, false, Option, none, some, List, if◌then◌else◌, is_text, str_eq,
  length, ◌==◌,
}
use tekijin.Scorer.{ScoredCandidate}
use tekijin.Service.State.{Service, Checkpoint, Env, Done, accept, checkpoint_of, save}
use tekijin.Service.Requests.{signal}
use tekijin.Service.Draft.{
  save_handoff_draft, save_draft, with_method, edit_signal, with_draft, select_as, select_both,
  select_at, select_handoff_candidate, index_of, pop, no_selection,
}
use tekijin.Service.Fallback.{
  fallback_values, reopen, reopen_saved, request_document_fallback, touch,
}
use tekijin.Service.Rules.{proceed-keeps, on_handoff-keeps}
use tekijin.Service.Apart.{if-keeps, IsApart, IsApart-refl, IsApart-save, IsApart-register}

module _ (env : Env) (before : Service) (session_id other : String)
    (apart : str_eq session_id other ≡ false) where
  with_method-IsApart :
      (id : Option String) (method : String) (svc : Service)
      → IsApart env before other svc
      → IsApart env before other (with_method id method svc)
  unfolding with_method
  with_method-IsApart none method svc h = h
  with_method-IsApart (some id) method svc h = h

  edit_signal-IsApart :
      (id generated : Option String) (sent : String) (actor : Option ℕ) (svc : Service)
      → IsApart env before other svc
      → IsApart env before other (edit_signal env session_id id generated sent actor svc)
  unfolding edit_signal signal
  edit_signal-IsApart id none sent actor svc h = h
  edit_signal-IsApart id (some t) sent actor svc h =
      if-keeps (IsApart env before other) (str_eq (env.deps.strip t) sent) h h

  save_draft-IsApart :
      (c : Checkpoint) (sent method : String) (actor : Option ℕ) (svc : Service)
      → IsApart env before other svc
      → IsApart env before other (save_draft env session_id c sent method actor svc)
  unfolding save_draft
  save_draft-IsApart c sent method actor svc h =
      let id = c.values.persistence.question_id in
      let saved = save session_id (with_draft sent c) svc in
      edit_signal-IsApart id c.values.draft sent actor (with_method id method saved) (
        with_method-IsApart id method saved
          (IsApart-save env before session_id other apart (with_draft sent c) svc h))

  select_both-IsApart :
      (c : Checkpoint) (rows : Option (ScoredCandidate × List ScoredCandidate))
      (keys : Option (ℕ × List ℕ)) (svc : Service)
      → IsApart env before other svc
      → IsApart env before other (select_both env session_id c rows keys svc).0
  unfolding select_both select_as
  select_both-IsApart c none keys svc h = h
  select_both-IsApart c (some rows) none svc h = h
  select_both-IsApart c (some (top, recs)) (some (id, ids)) svc h =
      choose (length ids == length recs)
    where
      choose :
          (b : Bool)
          → IsApart env before other
              (if b
                then select_as env session_id c (top, recs) (id, ids) svc
                else no_selection svc).0
      choose true = IsApart-save env before session_id other apart _ svc h
      choose false = h

  select_at-IsApart :
      (c : Checkpoint) (index : Option ℕ) (svc : Service)
      → IsApart env before other svc
      → IsApart env before other (select_at env session_id c index svc).0
  unfolding select_at
  select_at-IsApart c none svc h = h
  select_at-IsApart c (some index) svc h =
      select_both-IsApart c (pop index c.values.recommendations)
        (pop index c.values.persistence.recommendation_ids) svc h

  reopen_saved-IsApart :
      (saved : Option Checkpoint) (svc : Service)
      → IsApart env before other svc
      → IsApart env before other (reopen_saved env session_id svc saved).0
  unfolding reopen_saved reopen touch
  reopen_saved-IsApart none svc h = h
  reopen_saved-IsApart (some c) svc h =
      proceed-keeps (IsApart env before other) svc (fallback_values c) (reopen env session_id svc) h
        (λ s e.
          IsApart-register env before session_id other apart _ (save session_id _ svc)
            (IsApart-save env before session_id other apart _ svc h))

module _ (env : Env) (svc : Service) (session_id other : String)
    (apart : str_eq session_id other ≡ false) where
  pub save_handoff_draft-IsApart :
      (draft method : String) (actor : Option ℕ)
      → IsApart env svc other (save_handoff_draft env session_id draft method actor svc).0
  unfolding save_handoff_draft
  save_handoff_draft-IsApart draft method actor =
      let h = IsApart-refl env svc other in
      let sent = env.deps.strip draft in
      if-keeps {A = Service × Done} (λ r. IsApart env svc other r.0) (is_text sent)
        (on_handoff-keeps {A = Unit} (IsApart env svc other) svc session_id
          (λ c. (save_draft env session_id c sent method actor svc, accept tt)) h
          (λ c parked. save_draft-IsApart env svc session_id other apart c sent method actor svc h))
        h

  pub select_handoff_candidate-IsApart :
      (who : ℕ) → IsApart env svc other (select_handoff_candidate env session_id who svc).0
  unfolding select_handoff_candidate
  select_handoff_candidate-IsApart who =
      let h = IsApart-refl env svc other in
      on_handoff-keeps (IsApart env svc other) svc session_id _ h (λ c parked.
        select_at-IsApart env svc session_id other apart c (index_of who c.values.recommendations)
          svc h)

  pub request_document_fallback-IsApart :
      IsApart env svc other (request_document_fallback env session_id svc).0
  unfolding request_document_fallback
  request_document_fallback-IsApart =
      reopen_saved-IsApart env svc session_id other apart (checkpoint_of svc session_id) svc
        (IsApart-refl env svc other)
