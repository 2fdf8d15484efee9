-- ===== src/Service/Phase/Answered.antt =====
-- The requests of api/service.py that run nothing follow the life of their session.
use tekijin.Prelude.{
  ℕ, ◌≡◌, refl, sym, String, Bool, true, false, Option, none, some, List, [], ◌∷◌, if◌then◌else◌,
  is_text,
}
use mathlib.Core.Path.{subst}
use tekijin.Scorer.{ScoredCandidate}
use tekijin.Agent.{AgentState}
use tekijin.Agent.Graph.{Node, ask, send}
use tekijin.Service.State.{
  Service, Checkpoint, Env, Done, refuse, session_conflict, resume, is_queued, checkpoint_of, save,
}
use tekijin.Service.Outcome.{Recorded}
use tekijin.Service.Requests.{
  Resume, submit_resume, resume_saved, resume_at, resume_node, with_reply, with_outcome, captured,
  signal, exclude_handoff_target, refer_handoff_target, refer_from, with_referral, exclude_from,
  restarted, enriched, regenerate_handoff_draft, correct_interpretation, corrected, rewritten,
  after_outcome, commit, is_on_top, may_refer,
}
use tekijin.Service.Rules.{IsParked, proceed-keeps, on_handoff-keeps}
use tekijin.Service.Apart.{if-keeps}
use tekijin.Service.Phase.{Phase, Moves, stays, replies, phase, Follows, phase-queue, parked-queue}

module _ (env : Env) (svc : Service) (session_id : String) where
  abbrev Leads {ℓ} : {A : Type ℓ} → Service × A → Type 0
  Leads r = Follows svc session_id r.0

  with_outcome-Leads :
      (c : Checkpoint) (request : Resume) (outcome : Option String)
      → IsParked svc session_id c
      → Leads (with_outcome env session_id c request outcome svc)
  unfolding with_outcome
  with_outcome-Leads c request none parked = stays
  with_outcome-Leads c request (some outcome) parked =
      proceed-keeps (Follows svc session_id) svc _ _ stays (λ r e.
        parked-queue env svc
          (captured env c.values r.status outcome request.answer_body (commit r svc)) session_id
          (resume r.effective) parked)

  with_reply-Leads :
      (reply : Option String)
      → phase svc session_id ≡ Phase.at_asker
      → Leads (with_reply env session_id reply svc)
  unfolding with_reply
  with_reply-Leads none e = stays
  with_reply-Leads (some reply) e = rw (e, phase-queue env session_id (resume reply) svc) replies

  resume_node-Leads :
      (c : Checkpoint) (request : Resume) (n : Node)
      → checkpoint_of svc session_id ≡ some c
      → c.next ≡ some n
      → is_queued svc session_id ≡ false
      → Leads (resume_node env session_id c request n svc)
  unfolding resume_node
  resume_node-Leads c request ask saved e free =
      with_reply-Leads request.reply (rw (free, saved, e) refl)
  resume_node-Leads c request send saved e free =
      with_outcome-Leads c request request.outcome
        (record { saved = saved; parked = e; free = free })
  resume_node-Leads c request _ saved e free = stays

  resume_at-Leads :
      (c : Checkpoint) (request : Resume) (n : Option Node)
      → checkpoint_of svc session_id ≡ some c
      → c.next ≡ n
      → Leads (resume_at env session_id c request n svc)
  unfolding resume_at
  resume_at-Leads c request none saved e = stays
  resume_at-Leads c request (some n) saved e = choose (is_queued svc session_id) refl
    where
      choose :
          (b : Bool)
          → is_queued svc session_id ≡ b
          → Leads {A = Done} (
              if b
              then (svc, refuse session_conflict)
              else resume_node env session_id c request n svc)
      choose true free = stays
      choose false free = resume_node-Leads c request n saved e free

  resume_saved-Leads :
      (request : Resume) (saved : Option Checkpoint)
      → checkpoint_of svc session_id ≡ saved
      → Leads (resume_saved env session_id request saved svc)
  unfolding resume_saved
  resume_saved-Leads request none e = stays
  resume_saved-Leads request (some c) e = resume_at-Leads c request c.next e refl

  pub submit_resume-Follows : (request : Resume) → Leads (submit_resume env session_id request svc)
  unfolding submit_resume
  submit_resume-Follows request = resume_saved-Leads request _ refl

  pub exclude_handoff_target-Follows :
      (who : ℕ) (actor : Option ℕ) → Leads (exclude_handoff_target env session_id who actor svc)
  unfolding exclude_handoff_target exclude_from signal
  exclude_handoff_target-Follows who actor =
      on_handoff-keeps (Follows svc session_id) svc session_id _ stays (λ c parked.
        if-keeps {A = Service × Done} (λ r. Leads r) (is_on_top c.values.recommendations who)
          (proceed-keeps (Follows svc session_id) svc _ _ stays
            (λ r e. parked-queue env svc (commit r svc) session_id (resume "declined") parked))
          stays)

  refer_from-Leads :
      (c : Checkpoint) (who : ℕ) (actor : Option ℕ) (recs : List ScoredCandidate)
      → IsParked svc session_id c
      → Leads (refer_from env session_id c who actor svc recs)
  unfolding refer_from signal
  refer_from-Leads c who actor [] parked = stays
  refer_from-Leads c who actor (top ∷ rest) parked =
      if-keeps {A = Service × Done} (λ r. Leads r) (may_refer svc.database c.values top who)
        (proceed-keeps (Follows svc session_id) svc _ _ stays (λ r e.
          parked-queue env svc (save session_id (with_referral who c) (commit r svc)) session_id
            (resume "declined") parked))
        stays

  pub refer_handoff_target-Follows :
      (who : ℕ) (actor : Option ℕ) → Leads (refer_handoff_target env session_id who actor svc)
  unfolding refer_handoff_target
  refer_handoff_target-Follows who actor =
      on_handoff-keeps (Follows svc session_id) svc session_id _ stays
        (λ c parked. refer_from-Leads c who actor c.values.recommendations parked)

  pub regenerate_handoff_draft-Follows :
      (actor : Option ℕ) → Leads (regenerate_handoff_draft env session_id actor svc)
  unfolding regenerate_handoff_draft signal
  regenerate_handoff_draft-Follows actor =
      on_handoff-keeps (Follows svc session_id) svc session_id _ stays
        (λ c parked. parked-queue env svc svc session_id (resume "redraft") parked)

  rewritten-phase :
      (id : Option String) (body : String)
      → phase (rewritten id body svc) session_id ≡ phase svc session_id
  unfolding rewritten
  rewritten-phase none body = refl
  rewritten-phase (some id) body = refl

  after_outcome-Leads :
      (s : AgentState) (outcome : String) (after : Service) (go : Service → Service × Done)
      → Follows svc session_id after
      → ((r : Recorded) → Leads (go (commit r after)))
      → Leads (after_outcome env s outcome none after go)
  after_outcome-Leads s outcome after go h k =
      proceed-keeps (Follows svc session_id) after _ _ h (λ r e. k r)

  corrected-Leads :
      (c : Checkpoint) (supplement : String) (actor : Option ℕ)
      → IsParked svc session_id c
      → Leads (corrected env session_id c supplement actor svc)
  unfolding corrected signal
  corrected-Leads c supplement actor parked =
      let id = c.values.persistence.question_id in
      let body = enriched env c.values supplement in
      if-keeps {A = Service × Done} (λ r. Leads r) (is_text (env.deps.strip c.values.question))
        (after_outcome-Leads c.values "superseded" (rewritten id body svc)
          (restarted env session_id c supplement actor)
          (subst (Moves (phase svc session_id)) (sym (rewritten-phase id body)) stays)
          (λ r. parked-queue env svc (commit r (rewritten id body svc)) session_id _ parked))
        stays

  pub correct_interpretation-Follows :
      (given : String) (actor : Option ℕ)
      → Leads (correct_interpretation env session_id given actor svc)
  unfolding correct_interpretation
  correct_interpretation-Follows given actor =
      let supplement = env.deps.strip given in
      if-keeps {A = Service × Done} (λ r. Leads r) (is_text supplement)
        (on_handoff-keeps (Follows svc session_id) svc session_id
          (λ c. corrected env session_id c supplement actor svc) stays
          (λ c parked. corrected-Leads c supplement actor parked))
        stays
