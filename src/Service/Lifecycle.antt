-- ===== src/Service/Lifecycle.antt =====
-- Every request of api/service.py is a move of the abstract machine of its session.
use tekijin.Service.State.{Service, Env}
use tekijin.Service.Request.{Request, serve}
use tekijin.Service.Isolated.{session_of}
use tekijin.Service.Phase.{Moves, phase}
use tekijin.Service.Phase.Answered.{
  submit_resume-Follows, exclude_handoff_target-Follows, refer_handoff_target-Follows,
  regenerate_handoff_draft-Follows, correct_interpretation-Follows,
}
use tekijin.Service.Phase.Edited.{save_handoff_draft-Follows, select_handoff_candidate-Follows}
use tekijin.Service.Phase.Opened.{start_question-Follows, request_document_fallback-Follows}
use tekijin.Service.Phase.Streamed.{stream_events-Follows}

-- What a request does to its session, whether it is refused or not, is a move of the abstract
-- machine: the phase stays; something is queued for a session that is over or that waits; a session
-- that is over is reopened between two nodes; or the stream takes what is queued, or a run that was
-- left between two nodes, to where nothing is queued. So a session that waits for a person is only
-- left by what is queued for it.
pub serve-phase :
    (env : Env) (r : Request) (svc : Service)
    → Moves (phase svc (session_of r)) (phase (serve env r svc) (session_of r))
unfolding serve
serve-phase env (Request.start_question session asker question) svc =
    start_question-Follows env session asker question svc
serve-phase env (Request.submit_resume session given) svc =
    submit_resume-Follows env svc session given
serve-phase env (Request.exclude_handoff_target session who actor) svc =
    exclude_handoff_target-Follows env svc session who actor
serve-phase env (Request.refer_handoff_target session who actor) svc =
    refer_handoff_target-Follows env svc session who actor
serve-phase env (Request.regenerate_handoff_draft session actor) svc =
    regenerate_handoff_draft-Follows env svc session actor
serve-phase env (Request.correct_interpretation session supplement actor) svc =
    correct_interpretation-Follows env svc session supplement actor
serve-phase env (Request.save_handoff_draft session draft method actor) svc =
    save_handoff_draft-Follows env svc session draft method actor
serve-phase env (Request.select_handoff_candidate session who) svc =
    select_handoff_candidate-Follows env svc session who
serve-phase env (Request.request_document_fallback session) svc =
    request_document_fallback-Follows env svc session
serve-phase env (Request.stream_events reads session) svc =
    stream_events-Follows env reads session svc
