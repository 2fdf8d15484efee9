-- ===== src/Service/Flow.antt =====
-- A concrete service for the examples: four employees, and one session that waits for a responder.
use tekijin.Prelude.{refl, arith, ℕ, String, false, Option, none, some, [], ◌∷◌, ◌+◌}
use tekijin.Agent.{AgentState}
use tekijin.Agent.Graph.{send}
use tekijin.Agent.Graph.Flow.{flow, asked, row}
use tekijin.Prelude.Int.{pos}
use tekijin.Store.{Database, Recommendation}
use tekijin.Store.Integrity.{IsConsistent}
use tekijin.Service.Requests.{Resume}
use tekijin.Service.State.{Service, Checkpoint, Env, Attempt, accept, refuse, checkpoint_of}
use tekijin.Service.Outcome.{Recorded, record_outcome, no_target}
use tekijin.Service.Request.{Request, serve}

abbrev pub database : Database
database = record {
  employees = 11 ∷ 12 ∷ 13 ∷ 14 ∷ 15 ∷ [];
  questions = [];
  recommendations = [];
  messages = [];
  answers = [];
  events = [];
  feedback = [];
  offline_consults = [];
  eval_runs = [];
  next_recommendation = 1;
  next_message = 1;
  next_consult = 1;
  next_eval_run = 1;
}

abbrev pub service : Service
service = record {
  database = database;
  checkpoints = [];
  registry = [];
  held = [];
  active_runs = 0;
  scheduled = [];
}

abbrev pub env : Env
env = record {
  deps = flow;
  max_concurrent_runs = 2;
  clock = 5000;
  now = record { micros = 1000; aware = false };
  wall_clock = 1000;
  database_clock = 1000;
  node_clock = λ n. 1000 + n;
  uid = "u1";
  embed = λ body. none;
  dump = λ e. "{}";
  blank = asked;
}

-- The asker's question is queued, then streamed up to the hand-off.
abbrev pub queued : Service
queued = serve env (Request.start_question "s1" 11 "見積の承認は?") service

abbrev pub waiting : Service
waiting = serve env (Request.stream_events 20 "s1") queued

abbrev pub or_blank : Option Checkpoint → Checkpoint
or_blank none = record { next = none; values = asked; document_fallback_requested = false }
or_blank (some c) = c

abbrev pub waiting_checkpoint : Checkpoint
waiting_checkpoint = or_blank (checkpoint_of waiting "s1")

abbrev pub shown : ℕ → ℕ → Option String → Recommendation
shown id person outcome = record {
  id = id;
  question_id = "api_u1";
  employee_id = person;
  rank = some 1;
  score = pos 5000;
  reasons = [];
  outcome = outcome;
  created_at = 2;
  declined_seen_at = none;
  accepted_seen_at = none;
  request_seen_at = none;
  referred_to_employee_id = none;
}

-- The first candidate has declined; the second one's row is there.
abbrev pub rerouted : Database
rerouted = record database {
  questions =
      record {
        id = "api_u1";
        asker_id = 11;
        body = "見積の承認は?";
        topics = [];
        status = "open";
        session_id = some "s1";
        route = some "person";
        consult_method = none;
        resolved_at = none;
        resolution_kind = none;
        created_at = 1;
      }
      ∷ [];
  recommendations = shown 1 14 (some "declined") ∷ shown 2 12 none ∷ [];
  next_recommendation = 3;
}

pub rerouted-IsConsistent : IsConsistent rerouted
rerouted-IsConsistent = record {
  askers = (refl, tt);
  shown = (refl, (refl, tt));
  people = (refl, (refl, tt));
  messages = tt;
  answers = tt;
  events = tt;
  feedback = tt;
  consults = tt;
  question_keys = (refl, tt);
  recommendation_keys = (refl, (refl, tt));
  consult_keys = tt;
  given_out = (omega arith, (omega arith, tt));
}

-- A reader left before the new row's id was saved: the stored id is still the first one's.
abbrev pub stale : AgentState
stale = record asked {
  persistence = record {
    question_id = some "api_u1";
    recommendation_ids = 1 ∷ [];
    primary_recommendation_id = some 1;
    last_event = none;
  };
  recommendations = row 12 ∷ row 13 ∷ [];
  draft = some "下書き";
}

abbrev pub stale_service : Service
stale_service = record service {
  database = rerouted;
  checkpoints =
      ("s1", record { next = some send; values = stale; document_fallback_requested = false }) ∷ [];
}

abbrev pub accepting : Resume
accepting = record {
  outcome = some "accepted";
  reply = none;
  recommendation_id = none;
  answer_body = some "承認は部長です";
}

abbrev pub or_nothing : Attempt Recorded → Recorded
or_nothing (refuse e) = record {
  database = rerouted;
  scheduled = [];
  status = no_target;
  effective = "";
}
or_nothing (accept r) = r

-- What the second candidate's acceptance records.
abbrev pub acceptance : Recorded
acceptance = or_nothing (record_outcome env rerouted stale "accepted" none none)
