-- ===== src/Service/Serving/Waiting.antt =====
-- The requests of api/service.py that move no run: what they save keeps its order.
use tekijin.Prelude.{
  ℕ, ◌≡◌, refl, String, Bool, true, false, Option, none, some, List, [], ◌∷◌, arith, if◌then◌else◌,
  is_text, str_eq,
}
use tekijin.Scorer.{ScoredCandidate}
use tekijin.Agent.{AgentState}
use tekijin.Agent.Deps.{Deps}
use tekijin.Agent.Graph.{Node, send}
use tekijin.Service.State.{Service, Checkpoint, Env, Done, accept, is_queued, save}
use tekijin.Service.Sessions.{start_question, admitted, sweep}
use tekijin.Service.Outcome.{Recorded}
use tekijin.Service.Requests.{
  Resume, submit_resume, resume_saved, resume_at, resume_node, with_reply, with_outcome, captured,
  signal, exclude_handoff_target, refer_handoff_target, refer_from, with_referral, referral,
  excluded, exclude_from, restarted, enriched, regenerate_handoff_draft, correct_interpretation,
  corrected, rewritten, after_outcome, commit, is_on_top, may_refer,
}
use tekijin.Service.Draft.{save_handoff_draft, save_draft, with_method, edit_signal, with_draft}
use tekijin.Service.Rules.{proceed-keeps, on_handoff-keeps}
use tekijin.Service.Serving.{
  IsSame, IsGoodNext-same, IsGoodCheckpoint, IsServing, IsServing-save, IsServing-at,
}

if-keeps :
    {A : Type 0} (P : A → Type 0) (b : Bool) {x y : A}
    → (b ≡ true → P x)
    → (b ≡ false → P y)
    → P (if b then x else y)
if-keeps P true h k = h refl
if-keeps P false h k = k refl

pub start_question-IsServing :
    (d : Deps) (env : Env) (session_id : String) (asker : ℕ) (question : String) (svc : Service)
    → IsServing d svc
    → IsServing d (start_question env session_id asker question svc).0
unfolding start_question admitted sweep
start_question-IsServing d env session_id asker question svc h = ground arith

abbrev Serves : Deps → Service × Done → Type 0
Serves d r = IsServing d r.0

captured-IsServing :
    (d : Deps) (env : Env) (s : AgentState) (status : _) (outcome : String) (body : Option String)
    (svc : Service)
    → IsServing d svc
    → IsServing d (captured env s status outcome body svc)
unfolding captured
captured-IsServing d env s status outcome none svc h = h
captured-IsServing d env s status outcome (some body) svc h = ground arith

with_outcome-Serves :
    (d : Deps) (env : Env) (session_id : String) (c : Checkpoint) (request : Resume)
    (outcome : Option String) (svc : Service)
    → IsServing d svc
    → Serves d (with_outcome env session_id c request outcome svc)
unfolding with_outcome
with_outcome-Serves d env session_id c request none svc h = h
with_outcome-Serves d env session_id c request (some outcome) svc h =
    proceed-keeps (IsServing d) svc _ _ h (λ r e.
      captured-IsServing d env c.values r.status outcome request.answer_body (commit r svc) h)

resume_node-Serves :
    (d : Deps) (env : Env) (session_id : String) (c : Checkpoint) (request : Resume) (n : Node)
    (svc : Service)
    → IsServing d svc
    → Serves d (resume_node env session_id c request n svc)
unfolding resume_node with_reply
resume_node-Serves d env session_id c request send svc h =
    with_outcome-Serves d env session_id c request request.outcome svc h
resume_node-Serves d env session_id c request _ svc h = ground arith

resume_at-Serves :
    (d : Deps) (env : Env) (session_id : String) (c : Checkpoint) (request : Resume)
    (n : Option Node) (svc : Service)
    → IsServing d svc
    → Serves d (resume_at env session_id c request n svc)
unfolding resume_at
resume_at-Serves d env session_id c request none svc h = h
resume_at-Serves d env session_id c request (some n) svc h =
    if-keeps (Serves d) (is_queued svc session_id) (λ e. h)
      (λ e. resume_node-Serves d env session_id c request n svc h)

resume_saved-Serves :
    (d : Deps) (env : Env) (session_id : String) (request : Resume) (saved : Option Checkpoint)
    (svc : Service)
    → IsServing d svc
    → Serves d (resume_saved env session_id request saved svc)
unfolding resume_saved
resume_saved-Serves d env session_id request none svc h = h
resume_saved-Serves d env session_id request (some c) svc h =
    resume_at-Serves d env session_id c request c.next svc h

pub submit_resume-IsServing :
    (d : Deps) (env : Env) (session_id : String) (request : Resume) (svc : Service)
    → IsServing d svc
    → IsServing d (submit_resume env session_id request svc).0
unfolding submit_resume
submit_resume-IsServing d env session_id request svc h =
    resume_saved-Serves d env session_id request _ svc h

after_outcome-Serves :
    (d : Deps) (env : Env) (s : AgentState) (outcome : String) (referred_to : Option ℕ)
    (svc : Service) (go : Service → Service × Done)
    → IsServing d svc
    → ((r : Recorded) → IsServing d (commit r svc) → Serves d (go (commit r svc)))
    → Serves d (after_outcome env s outcome referred_to svc go)
after_outcome-Serves d env s outcome referred_to svc go h k =
    proceed-keeps (IsServing d) svc _ _ h (λ r e. k r h)

exclude_from-Serves :
    (d : Deps) (env : Env) (session_id : String) (c : Checkpoint) (who : ℕ) (actor : Option ℕ)
    (svc : Service)
    → IsServing d svc
    → Serves d (exclude_from env session_id c who actor svc)
unfolding exclude_from signal
exclude_from-Serves d env session_id c who actor svc h =
    if-keeps (Serves d) (is_on_top c.values.recommendations who)
      (λ e.
        after_outcome-Serves d env c.values "excluded" none svc
          (excluded env session_id c who actor) h (λ r h'. h'))
      (λ e. h)

with_referral-IsSame : (who : ℕ) (c : Checkpoint) → IsSame c.values (with_referral who c).values
with_referral-IsSame who c = record {
  asker = refl;
  declined = refl;
  shown = refl;
  asked = refl;
  routing = refl;
  verdict = refl;
}

refer_from-Serves :
    (d : Deps) (env : Env) (session_id : String) (c : Checkpoint) (who : ℕ) (actor : Option ℕ)
    (svc : Service) (recs : List ScoredCandidate)
    → IsServing d svc
    → IsGoodCheckpoint d c
    → Serves d (refer_from env session_id c who actor svc recs)
unfolding refer_from signal
refer_from-Serves d env session_id c who actor svc [] h g = h
refer_from-Serves d env session_id c who actor svc (top ∷ rest) h g =
    if-keeps (Serves d) (may_refer svc.database c.values top who)
      (λ e.
        after_outcome-Serves d env c.values "referred" (some who) svc
          (referral env session_id c who actor) h
          (λ r h'.
            IsServing-save d (commit r svc) session_id (with_referral who c)
              (IsGoodNext-same (with_referral-IsSame who c) d c.next g) h'))
      (λ e. h)

corrected-Serves :
    (d : Deps) (env : Env) (session_id : String) (c : Checkpoint) (supplement : String)
    (actor : Option ℕ) (svc : Service)
    → IsServing d svc
    → Serves d (corrected env session_id c supplement actor svc)
unfolding corrected signal
corrected-Serves d env session_id c supplement actor svc h =
    if-keeps (Serves d) (is_text (env.deps.strip c.values.question))
      (λ e.
        after_outcome-Serves d env c.values "superseded" none
          (rewritten c.values.persistence.question_id (enriched env c.values supplement) svc)
          (restarted env session_id c supplement actor)
          (rewritten-IsServing d c.values.persistence.question_id (enriched env c.values supplement)
            svc h)
          (λ r h'. h'))
      (λ e. h)
  where
    rewritten-IsServing :
        (d : Deps) (id : Option String) (body : String) (svc : Service)
        → IsServing d svc
        → IsServing d (rewritten id body svc)
    rewritten-IsServing d none body svc h = h
    rewritten-IsServing d (some id) body svc h = h

with_method-IsServing :
    (d : Deps) (id : Option String) (method : String) (svc : Service)
    → IsServing d svc
    → IsServing d (with_method id method svc)
unfolding with_method
with_method-IsServing d none method svc h = h
with_method-IsServing d (some id) method svc h = h

edit_signal-IsServing :
    (d : Deps) (env : Env) (session_id : String) (id generated : Option String) (sent : String)
    (actor : Option ℕ) (svc : Service)
    → IsServing d svc
    → IsServing d (edit_signal env session_id id generated sent actor svc)
unfolding edit_signal signal
edit_signal-IsServing d env session_id id none sent actor svc h = h
edit_signal-IsServing d env session_id id (some t) sent actor svc h =
    if-keeps (IsServing d) (str_eq (env.deps.strip t) sent) (λ e. h) (λ e. h)

with_draft-IsSame : (sent : String) (c : Checkpoint) → IsSame c.values (with_draft sent c).values
with_draft-IsSame sent c = record {
  asker = refl;
  declined = refl;
  shown = refl;
  asked = refl;
  routing = refl;
  verdict = refl;
}

save_draft-IsServing :
    (d : Deps) (env : Env) (session_id : String) (c : Checkpoint) (sent method : String)
    (actor : Option ℕ) (svc : Service)
    → IsServing d svc
    → IsGoodCheckpoint d c
    → IsServing d (save_draft env session_id c sent method actor svc)
unfolding save_draft
save_draft-IsServing d env session_id c sent method actor svc h g =
    let question_id = c.values.persistence.question_id in
    let saved = save session_id (with_draft sent c) svc in
    edit_signal-IsServing d env session_id question_id c.values.draft sent actor
      (with_method question_id method saved)
      (with_method-IsServing d question_id method saved (
        IsServing-save d svc session_id (with_draft sent c)
          (IsGoodNext-same (with_draft-IsSame sent c) d c.next g) h))

module _ (d : Deps) (env : Env) (session_id : String) (actor : Option ℕ) (svc : Service) where
  pub exclude_handoff_target-IsServing :
      (who : ℕ)
      → IsServing d svc
      → IsServing d (exclude_handoff_target env session_id who actor svc).0
  unfolding exclude_handoff_target
  exclude_handoff_target-IsServing who h =
      on_handoff-keeps (IsServing d) svc session_id
        (λ c. exclude_from env session_id c who actor svc) h
        (λ c parked. exclude_from-Serves d env session_id c who actor svc h)

  pub refer_handoff_target-IsServing :
      (who : ℕ)
      → IsServing d svc
      → IsServing d (refer_handoff_target env session_id who actor svc).0
  unfolding refer_handoff_target
  refer_handoff_target-IsServing who h =
      on_handoff-keeps (IsServing d) svc session_id
        (λ c. refer_from env session_id c who actor svc c.values.recommendations) h
        (λ c parked.
          refer_from-Serves d env session_id c who actor svc c.values.recommendations h
            (IsServing-at d svc session_id h parked.saved))

  pub regenerate_handoff_draft-IsServing :
      IsServing d svc → IsServing d (regenerate_handoff_draft env session_id actor svc).0
  unfolding regenerate_handoff_draft signal
  regenerate_handoff_draft-IsServing h =
      on_handoff-keeps (IsServing d) svc session_id _ h (λ c parked. h)

  pub correct_interpretation-IsServing :
      (given : String)
      → IsServing d svc
      → IsServing d (correct_interpretation env session_id given actor svc).0
  unfolding correct_interpretation
  correct_interpretation-IsServing given h =
      let supplement = env.deps.strip given in
      if-keeps (Serves d) (is_text supplement)
        (λ e.
          on_handoff-keeps (IsServing d) svc session_id
            (λ c. corrected env session_id c supplement actor svc) h
            (λ c parked. corrected-Serves d env session_id c supplement actor svc h))
        (λ e. h)

  pub save_handoff_draft-IsServing :
      (draft method : String)
      → IsServing d svc
      → IsServing d (save_handoff_draft env session_id draft method actor svc).0
  unfolding save_handoff_draft
  save_handoff_draft-IsServing draft method h =
      let sent = env.deps.strip draft in
      if-keeps (Serves d) (is_text sent)
        (λ e.
          on_handoff-keeps {A = Unit} (IsServing d) svc session_id
            (λ c. (save_draft env session_id c sent method actor svc, accept tt)) h
            (λ c parked.
              save_draft-IsServing d env session_id c sent method actor svc h
                (IsServing-at d svc session_id h parked.saved)))
        (λ e. h)
