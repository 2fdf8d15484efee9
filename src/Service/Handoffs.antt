-- ===== src/Service/Handoffs.antt =====
-- Who a session's hand-off goes to, after any requests: api/service.py over agent/graph.py.
use tekijin.Prelude.{◌≡◌, refl, sym, String, some, List, ◌∷◌}
use mathlib.Core.Path.{subst}
use tekijin.Scorer.{ScoredCandidate}
use tekijin.Agent.Deps.{Deps}
use tekijin.Agent.Graph.{send}
use tekijin.Agent.Graph.Safety.{IsPassed, IsGood, IsGoodNext}
use tekijin.Agent.Graph.Handing.{IsHandable, handable}
use tekijin.Service.State.{Service, Checkpoint, Env, checkpoint_of}
use tekijin.Service.Request.{Request, serve, Served, opened, requested, written, elsewhere}
use tekijin.Service.Serving.{IsServing, IsServing-at}
use tekijin.Service.Serving.Waiting.{
  start_question-IsServing, submit_resume-IsServing, exclude_handoff_target-IsServing,
  refer_handoff_target-IsServing, regenerate_handoff_draft-IsServing,
  correct_interpretation-IsServing, save_handoff_draft-IsServing,
}
use tekijin.Service.Serving.Moving.{
  select_handoff_candidate-IsServing, request_document_fallback-IsServing,
}
use tekijin.Service.Serving.Streamed.{stream_events-IsServing}

-- Every request leaves all saved states as the graph leaves them: the one it is about and those of
-- the other sessions.
pub serve-IsServing :
    (env : Env) (r : Request) (svc : Service)
    → IsServing env.deps svc
    → IsServing env.deps (serve env r svc)
unfolding serve
serve-IsServing env (Request.start_question session asker question) svc h =
    start_question-IsServing env.deps env session asker question svc h
serve-IsServing env (Request.submit_resume session given) svc h =
    submit_resume-IsServing env.deps env session given svc h
serve-IsServing env (Request.exclude_handoff_target session who actor) svc h =
    exclude_handoff_target-IsServing env.deps env session actor svc who h
serve-IsServing env (Request.refer_handoff_target session who actor) svc h =
    refer_handoff_target-IsServing env.deps env session actor svc who h
serve-IsServing env (Request.regenerate_handoff_draft session actor) svc h =
    regenerate_handoff_draft-IsServing env.deps env session actor svc h
serve-IsServing env (Request.correct_interpretation session supplement actor) svc h =
    correct_interpretation-IsServing env.deps env session actor svc supplement h
serve-IsServing env (Request.save_handoff_draft session draft method actor) svc h =
    save_handoff_draft-IsServing env.deps env session actor svc draft method h
serve-IsServing env (Request.select_handoff_candidate session who) svc h =
    select_handoff_candidate-IsServing env.deps env session who svc h
serve-IsServing env (Request.request_document_fallback session) svc h =
    request_document_fallback-IsServing env session svc h
serve-IsServing env (Request.stream_events reads session) svc h =
    stream_events-IsServing env reads session svc h

Served-IsServing : {d : Deps} {svc : Service} → Served d svc → IsServing d svc
Served-IsServing (opened svc e) = rw e tt
Served-IsServing (requested {svc} env r e h) =
    subst (λ d'. IsServing d' (serve env r svc)) e
      (serve-IsServing env r svc (subst (λ d'. IsServing d' svc) (sym e) (Served-IsServing h)))
Served-IsServing (written w e h) = Served-IsServing h
Served-IsServing (elsewhere held active_runs h) = Served-IsServing h

-- After any requests on any sessions, a session that waits for a responder has a top candidate
-- who has not declined and is not the asker, its route is not the document's, and a wired critic
-- has found its shortlist answerable.
pub Served-send :
    {d : Deps} {svc : Service} (session_id : String) {c : Checkpoint}
    → Served d svc
    → checkpoint_of svc session_id ≡ some c
    → c.next ≡ some send
    → (top : ScoredCandidate) × (rest : List ScoredCandidate) × (c.values.recommendations
        ≡ top ∷ rest)
      × IsHandable c.values top
      × IsPassed d c.values
Served-send {d} {svc} session_id {c} h e waiting =
    let good : IsGood d send c.values =
      subst (λ m. IsGoodNext d m c.values) waiting
        (IsServing-at d svc session_id (Served-IsServing h) e) in
    let (sound, expert, passed) = good in
    let (top, rest, e', ok_top) = handable c.values c.values.recommendations refl sound expert in
    (top, rest, e', ok_top, passed)
