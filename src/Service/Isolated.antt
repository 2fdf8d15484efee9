-- ===== src/Service/Isolated.antt =====
-- Sessions do not touch each other: the requests of api/service.py.
use tekijin.Prelude.{◌≡◌, String, false, some, str_eq}
use tekijin.Service.State.{Service, SessionCtx, Env, checkpoint_of, context_of}
use tekijin.Service.Request.{Request, serve}
use tekijin.Service.Apart.{IsApart, IsInUse}
use tekijin.Service.Apart.Requests.{
  start_question-IsApart, submit_resume-IsApart, exclude_handoff_target-IsApart,
  refer_handoff_target-IsApart, regenerate_handoff_draft-IsApart, correct_interpretation-IsApart,
}
use tekijin.Service.Apart.Drafts.{
  save_handoff_draft-IsApart, select_handoff_candidate-IsApart, request_document_fallback-IsApart,
}
use tekijin.Service.Apart.Streamed.{stream_events-IsApart}

-- The session that a request is about.
abbrev pub session_of : Request → String
session_of (Request.start_question session asker question) = session
session_of (Request.submit_resume session given) = session
session_of (Request.exclude_handoff_target session who actor) = session
session_of (Request.refer_handoff_target session who actor) = session
session_of (Request.regenerate_handoff_draft session actor) = session
session_of (Request.correct_interpretation session supplement actor) = session
session_of (Request.save_handoff_draft session draft method actor) = session
session_of (Request.select_handoff_candidate session who) = session
session_of (Request.request_document_fallback session) = session
session_of (Request.stream_events reads session) = session

serve-IsApart :
    (env : Env) (r : Request) (svc : Service) (other : String)
    → str_eq (session_of r) other ≡ false
    → IsApart env svc other (serve env r svc)
unfolding serve
serve-IsApart env (Request.start_question session asker question) svc other apart =
    start_question-IsApart env svc session other apart asker question
serve-IsApart env (Request.submit_resume session given) svc other apart =
    submit_resume-IsApart env svc session other apart given
serve-IsApart env (Request.exclude_handoff_target session who actor) svc other apart =
    exclude_handoff_target-IsApart env svc session other apart who actor
serve-IsApart env (Request.refer_handoff_target session who actor) svc other apart =
    refer_handoff_target-IsApart env svc session other apart who actor
serve-IsApart env (Request.regenerate_handoff_draft session actor) svc other apart =
    regenerate_handoff_draft-IsApart env svc session other apart actor
serve-IsApart env (Request.correct_interpretation session supplement actor) svc other apart =
    correct_interpretation-IsApart env svc session other apart supplement actor
serve-IsApart env (Request.save_handoff_draft session draft method actor) svc other apart =
    save_handoff_draft-IsApart env svc session other apart draft method actor
serve-IsApart env (Request.select_handoff_candidate session who) svc other apart =
    select_handoff_candidate-IsApart env svc session other apart who
serve-IsApart env (Request.request_document_fallback session) svc other apart =
    request_document_fallback-IsApart env svc session other apart
serve-IsApart env (Request.stream_events reads session) svc other apart =
    stream_events-IsApart env reads svc session other apart

-- A request, refused or not, leaves the saved state of every other session as it was, and the number
-- of active runs: the slot of a run is given back however the run ends.
pub serve_keeps_saved :
    (env : Env) (r : Request) (svc : Service) (other : String)
    → str_eq (session_of r) other ≡ false
    → (checkpoint_of (serve env r svc) other ≡ checkpoint_of svc other)
      × ((serve env r svc).active_runs ≡ svc.active_runs)
serve_keeps_saved env r svc other apart =
    let (saved, queued, running) = serve-IsApart env r svc other apart in (saved, running)

-- A request, refused or not, leaves the entry of another session with what is queued there as it
-- was, if that session waits or is amid a run, its lock is held, or it was touched within the last
-- hour: the sweep before a new question does not reach it.
pub serve_keeps_queued :
    (env : Env) (r : Request) (svc : Service) (other : String) (ctx : SessionCtx)
    → str_eq (session_of r) other ≡ false
    → context_of svc other ≡ some ctx
    → IsInUse env svc other ctx
    → context_of (serve env r svc) other ≡ some ctx
serve_keeps_queued env r svc other ctx apart e used =
    let (saved, queued, running) = serve-IsApart env r svc other apart in queued ctx e used
