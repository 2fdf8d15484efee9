-- ===== src/Service/Apart/Requests.antt =====
-- The requests of api/service.py that run nothing leave the other sessions alone.
use tekijin.Prelude.{
  ℕ, ◌≡◌, String, false, Option, none, some, List, [], ◌∷◌, is_text, str_eq, is_some, ◌<>◌,
}
use tekijin.Scorer.{ScoredCandidate}
use tekijin.Agent.{AgentState}
use tekijin.Agent.Graph.{Node, ask, send}
use tekijin.Store.{Database, employee_exists, persist_question}
use tekijin.Service.State.{Service, Checkpoint, Env, Done, is_queued, next_node, save}
use tekijin.Service.Sessions.{start_question, admitted, queue_question, sweep, is_saturated}
use tekijin.Service.Outcome.{Recorded}
use tekijin.Service.Requests.{
  Resume, submit_resume, resume_saved, resume_at, resume_node, with_reply, with_outcome, captured,
  signal, exclude_handoff_target, refer_handoff_target, refer_from, with_referral, referral,
  excluded, exclude_from, restarted, enriched, regenerate_handoff_draft, correct_interpretation,
  corrected, rewritten, after_outcome, commit, is_on_top, may_refer,
}
use tekijin.Service.Rules.{proceed-keeps, on_handoff-keeps}
use tekijin.Service.Apart.{
  if-keeps, IsApart, IsApart-refl, IsApart-save, IsApart-register, sweep-IsApart,
}

module _ (env : Env) (before : Service) (session_id other : String)
    (apart : str_eq session_id other ≡ false) where
  abbrev Leaves {ℓ} : {A : Type ℓ} → Service × A → Type 0
  Leaves r = IsApart env before other r.0

  admitted-Leaves :
      (asker : ℕ) (question : String) (svc : Service)
      → IsApart env before other svc
      → Leaves (admitted env session_id asker question svc)
  unfolding admitted queue_question
  admitted-Leaves asker question svc h =
      let question_id = "api_" <> env.uid in
      if-keeps Leaves (employee_exists svc.database asker)
        (stored (
          persist_question svc.database question_id asker question env.now.micros
            (some session_id)))
        h
    where
      stored :
          (o : Option Database)
          → Leaves (queue_question env session_id asker question ("api_" <> env.uid) svc o)
      stored none = h
      stored (some db) = IsApart-register env before session_id other apart _ svc h

  captured-IsApart :
      (s : AgentState) (status : _) (outcome : String) (body : Option String) (svc : Service)
      → IsApart env before other svc
      → IsApart env before other (captured env s status outcome body svc)
  unfolding captured
  captured-IsApart s status outcome none svc h = h
  captured-IsApart s status outcome (some body) svc h = if-keeps (IsApart env before other) _ h h

  with_outcome-Leaves :
      (c : Checkpoint) (request : Resume) (outcome : Option String) (svc : Service)
      → IsApart env before other svc
      → Leaves (with_outcome env session_id c request outcome svc)
  unfolding with_outcome
  with_outcome-Leaves c request none svc h = h
  with_outcome-Leaves c request (some outcome) svc h =
      proceed-keeps (IsApart env before other) svc _ _ h (λ r e.
        IsApart-register env before session_id other apart _
          (captured env c.values r.status outcome request.answer_body (commit r svc))
          (captured-IsApart c.values r.status outcome request.answer_body (commit r svc) h))

  resume_node-Leaves :
      (c : Checkpoint) (request : Resume) (n : Node) (svc : Service)
      → IsApart env before other svc
      → Leaves (resume_node env session_id c request n svc)
  unfolding resume_node with_reply
  resume_node-Leaves c request ask svc h = replied request.reply
    where
      replied : (reply : Option String) → Leaves (with_reply env session_id reply svc)
      replied none = h
      replied (some reply) = IsApart-register env before session_id other apart _ svc h
  resume_node-Leaves c request send svc h = with_outcome-Leaves c request request.outcome svc h
  resume_node-Leaves c request _ svc h = h

  resume_at-Leaves :
      (c : Checkpoint) (request : Resume) (n : Option Node) (svc : Service)
      → IsApart env before other svc
      → Leaves (resume_at env session_id c request n svc)
  unfolding resume_at
  resume_at-Leaves c request none svc h = h
  resume_at-Leaves c request (some n) svc h =
      if-keeps Leaves (is_queued svc session_id) h (resume_node-Leaves c request n svc h)

  resume_saved-Leaves :
      (request : Resume) (saved : Option Checkpoint) (svc : Service)
      → IsApart env before other svc
      → Leaves (resume_saved env session_id request saved svc)
  unfolding resume_saved
  resume_saved-Leaves request none svc h = h
  resume_saved-Leaves request (some c) svc h = resume_at-Leaves c request c.next svc h

  after_outcome-Leaves :
      (s : AgentState) (outcome : String) (referred_to : Option ℕ) (svc : Service)
      (go : Service → Service × Done)
      → IsApart env before other svc
      → ((r : Recorded) → Leaves (go (commit r svc)))
      → Leaves (after_outcome env s outcome referred_to svc go)
  after_outcome-Leaves s outcome referred_to svc go h k =
      proceed-keeps (IsApart env before other) svc _ _ h (λ r e. k r)

  exclude_from-Leaves :
      (c : Checkpoint) (who : ℕ) (actor : Option ℕ) (svc : Service)
      → IsApart env before other svc
      → Leaves (exclude_from env session_id c who actor svc)
  unfolding exclude_from signal
  exclude_from-Leaves c who actor svc h =
      if-keeps Leaves (is_on_top c.values.recommendations who)
        (after_outcome-Leaves c.values "excluded" none svc (excluded env session_id c who actor) h
          (λ r. IsApart-register env before session_id other apart _ (commit r svc) h))
        h

  refer_from-Leaves :
      (c : Checkpoint) (who : ℕ) (actor : Option ℕ) (svc : Service) (recs : List ScoredCandidate)
      → IsApart env before other svc
      → Leaves (refer_from env session_id c who actor svc recs)
  unfolding refer_from signal
  refer_from-Leaves c who actor svc [] h = h
  refer_from-Leaves c who actor svc (top ∷ rest) h =
      if-keeps Leaves (may_refer svc.database c.values top who)
        (after_outcome-Leaves c.values "referred" (some who) svc
          (referral env session_id c who actor) h
          (λ r.
            IsApart-register env before session_id other apart _
              (save session_id (with_referral who c) (commit r svc))
              (IsApart-save env before session_id other apart _ (commit r svc) h)))
        h

  rewritten-IsApart :
      (id : Option String) (body : String) (svc : Service)
      → IsApart env before other svc
      → IsApart env before other (rewritten id body svc)
  unfolding rewritten
  rewritten-IsApart none body svc h = h
  rewritten-IsApart (some id) body svc h = h

  corrected-Leaves :
      (c : Checkpoint) (supplement : String) (actor : Option ℕ) (svc : Service)
      → IsApart env before other svc
      → Leaves (corrected env session_id c supplement actor svc)
  unfolding corrected signal
  corrected-Leaves c supplement actor svc h =
      let id = c.values.persistence.question_id in
      let body = enriched env c.values supplement in
      let h' = rewritten-IsApart id body svc h in
      if-keeps Leaves (is_text (env.deps.strip c.values.question))
        (after_outcome-Leaves c.values "superseded" none (rewritten id body svc)
          (restarted env session_id c supplement actor) h'
          (λ r.
            IsApart-register env before session_id other apart _ (commit r (rewritten id body svc))
              h'))
        h

module _ (env : Env) (svc : Service) (session_id other : String)
    (apart : str_eq session_id other ≡ false) where
  -- What the other session had is there after the sweep also where the question is refused.
  pub start_question-IsApart :
      (asker : ℕ) (question : String)
      → IsApart env svc other (start_question env session_id asker question svc).0
  unfolding start_question
  start_question-IsApart asker question =
      let clean = sweep env session_id svc in
      let h = sweep-IsApart env session_id other svc in
      if-keeps (Leaves env svc session_id other apart) (is_saturated env clean) h (
        if-keeps (Leaves env svc session_id other apart) (is_queued clean session_id) h (
          if-keeps (Leaves env svc session_id other apart) (is_some (next_node clean session_id)) h
            (admitted-Leaves env svc session_id other apart asker question clean h)))

  pub submit_resume-IsApart :
      (request : Resume) → IsApart env svc other (submit_resume env session_id request svc).0
  unfolding submit_resume
  submit_resume-IsApart request =
      resume_saved-Leaves env svc session_id other apart request _ svc (IsApart-refl env svc other)

  pub exclude_handoff_target-IsApart :
      (who : ℕ) (actor : Option ℕ)
      → IsApart env svc other (exclude_handoff_target env session_id who actor svc).0
  unfolding exclude_handoff_target
  exclude_handoff_target-IsApart who actor =
      let h = IsApart-refl env svc other in
      on_handoff-keeps (IsApart env svc other) svc session_id _ h
        (λ c parked. exclude_from-Leaves env svc session_id other apart c who actor svc h)

  pub refer_handoff_target-IsApart :
      (who : ℕ) (actor : Option ℕ)
      → IsApart env svc other (refer_handoff_target env session_id who actor svc).0
  unfolding refer_handoff_target
  refer_handoff_target-IsApart who actor =
      let h = IsApart-refl env svc other in
      on_handoff-keeps (IsApart env svc other) svc session_id _ h (λ c parked.
        refer_from-Leaves env svc session_id other apart c who actor svc c.values.recommendations h)

  pub regenerate_handoff_draft-IsApart :
      (actor : Option ℕ)
      → IsApart env svc other (regenerate_handoff_draft env session_id actor svc).0
  unfolding regenerate_handoff_draft signal
  regenerate_handoff_draft-IsApart actor =
      let h = IsApart-refl env svc other in
      on_handoff-keeps (IsApart env svc other) svc session_id _ h
        (λ c parked. IsApart-register env svc session_id other apart _ svc h)

  pub correct_interpretation-IsApart :
      (given : String) (actor : Option ℕ)
      → IsApart env svc other (correct_interpretation env session_id given actor svc).0
  unfolding correct_interpretation
  correct_interpretation-IsApart given actor =
      let h = IsApart-refl env svc other in
      let supplement = env.deps.strip given in
      if-keeps (Leaves env svc session_id other apart) (is_text supplement)
        (on_handoff-keeps (IsApart env svc other) svc session_id
          (λ c. corrected env session_id c supplement actor svc) h
          (λ c parked. corrected-Leaves env svc session_id other apart c supplement actor svc h))
        h
