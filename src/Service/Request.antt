-- ===== src/Service/Request.antt =====
-- The requests of api/service.py as values, and the states that they lead to.
use tekijin.Prelude.{ℕ, ◌≡◌, String, Option, some, List, []}
use tekijin.Agent.Deps.{Deps}
use tekijin.Store.{Database}
use tekijin.Store.Log.{Write, apply}
use tekijin.Service.State.{Service, Env}
use tekijin.Service.Sessions
use tekijin.Service.Requests
use tekijin.Service.Requests.{Resume}
use tekijin.Service.Draft
use tekijin.Service.Fallback
use tekijin.Service.Stream

pub data Request : Type 0 where
  start_question : String → ℕ → String → Request
  submit_resume : String → Resume → Request
  exclude_handoff_target : String → ℕ → Option ℕ → Request
  refer_handoff_target : String → ℕ → Option ℕ → Request
  regenerate_handoff_draft : String → Option ℕ → Request
  correct_interpretation : String → String → Option ℕ → Request
  save_handoff_draft : String → String → String → Option ℕ → Request
  select_handoff_candidate : String → ℕ → Request
  request_document_fallback : String → Request
  stream_events : ℕ → String → Request

-- What a request makes of the service.
unfoldable pub serve : Env → Request → Service → Service
serve env (start_question session asker question) svc =
    (Sessions.start_question env session asker question svc).0
serve env (submit_resume session given) svc = (Requests.submit_resume env session given svc).0
serve env (exclude_handoff_target session person actor) svc =
    (Requests.exclude_handoff_target env session person actor svc).0
serve env (refer_handoff_target session person actor) svc =
    (Requests.refer_handoff_target env session person actor svc).0
serve env (regenerate_handoff_draft session actor) svc =
    (Requests.regenerate_handoff_draft env session actor svc).0
serve env (correct_interpretation session supplement actor) svc =
    (Requests.correct_interpretation env session supplement actor svc).0
serve env (save_handoff_draft session draft method actor) svc =
    (Draft.save_handoff_draft env session draft method actor svc).0
serve env (select_handoff_candidate session person) svc =
    (Draft.select_handoff_candidate env session person svc).0
serve env (request_document_fallback session) svc =
    (Fallback.request_document_fallback env session svc).0
serve env (stream_events reads session) svc = (Stream.stream_events env reads session svc).0

-- What any requests lead to, in any order and on any sessions, from a service without sessions.
-- Between them the rest of the program writes to the database, and other requests hold locks and
-- slots.
pub data Served (d : Deps) : Service → Type 0 where
  opened : (svc : Service) → svc.checkpoints ≡ [] → Served d svc
  requested :
      {svc : Service} (env : Env) (r : Request)
      → env.deps ≡ d
      → Served d svc
      → Served d (serve env r svc)
  written :
      {svc : Service} {db : Database} (w : Write)
      → apply w svc.database ≡ some db
      → Served d svc
      → Served d (record svc { database = db })
  elsewhere :
      {svc : Service} (held : List String) (active_runs : ℕ)
      → Served d svc
      → Served d (record svc { held = held; active_runs = active_runs })
