-- ===== src/Agent/Graph/Flow.antt =====
-- A concrete flow for the examples: one office with five people, and the scorer on equal scores.
use tekijin.Prelude.{
  ℕ, String, true, false, Option, none, some, [], ◌∷◌, if◌then◌else◌, arith, ◌==◌,
}
use tekijin.Prelude.Int.{pos}
use tekijin.Route.{person, empty_retrieval, RetrievalResult}
use tekijin.Scorer.{ScoredCandidate, Ranker, ScorePerson}
use tekijin.Scorer.Filled.{IsNamed, ranker}
use tekijin.Agent.State.{AgentState, Intent}
use tekijin.Agent.Deps.{Deps}

abbrev pub row : ℕ → ScoredCandidate
row n = record {
  person_id = n;
  name = "氏名";
  dept = none;
  score = pos 5000;
  confidence = "中";
  reasons = [];
}

-- Everyone is known and scores the same.
abbrev pub score_person : ScorePerson
score_person q n = some (pos 5000, row n)

pub score_person-IsNamed : IsNamed score_person
score_person-IsNamed q n found e = ground arith

abbrev pub scorer : Ranker
scorer = ranker score_person score_person-IsNamed

abbrev pub branches : ℕ → Option String
branches n = if n == 14 then some "大阪支店" else some "東京本社"

abbrev pub topic_intent : Intent
topic_intent = record {
  topics = "見積" ∷ [];
  products = [];
  situation = none;
  question_type = "製品QA";
  out_of_scope = false;
  confidence = 9000;
  constraint_branch = some "大阪支店";
}

abbrev pub found : RetrievalResult
found = record empty_retrieval {
  candidate_people = 11 ∷ 12 ∷ 13 ∷ 14 ∷ 15 ∷ [];
  people_confidence = 6000;
}

abbrev pub flow : Deps
flow = record {
  strip = λ s. s;
  is_disallowed = λ s. false;
  analyze = λ q a. topic_intent;
  count_similar = none;
  missing_required_slots = λ q i. [];
  collect_known_values = λ q t p. [];
  check = λ q i n. record { sufficient = false; missing = []; followup_question = some "対象は?" };
  encode = λ q. 1 ∷ [];
  search = λ q v. found;
  scorer = scorer;
  draft = λ r. "下書き";
  assess = some (λ q e. record { confidence = 8000; reason = none });
  answerability_threshold = 5000;
  compose = none;
  collect_cited_evidence = λ r. [];
  answer_from_knowledge = none;
  prior_answer_reuse_min = none;
  prior_answer_relevance_floor = 1500;
  query_expansion_enabled = false;
  question_fit_enabled = false;
  branch_constraint_enabled = true;
  employee_branches = some branches;
  employee_source = none;
  additive_self_answer_enabled = false;
  additive_self_answer_floor = 0;
}

-- The same flow where the analysis finds no topic.
abbrev pub vague_flow : Deps
vague_flow = record flow { analyze = λ q a. record topic_intent { topics = [] } }

abbrev pub asked : AgentState
asked = record {
  question = "見積の承認は?";
  asker = some (record { id = some 11 });
  now = record { micros = 1000; aware = false };
  persistence = record {
    question_id = none;
    recommendation_ids = [];
    primary_recommendation_id = none;
    last_event = none;
  };
  intent = topic_intent;
  similar_asker_count = 0;
  sufficiency = record {
    sufficient = false;
    missing = [];
    followup_question = none;
    intent_unresolved = false;
  };
  followup_count = 0;
  query_vector = [];
  retrieval = empty_retrieval;
  routing = record { route = person; reason = none; confidence = 0; prior_answer_note = none };
  pinned_responder_id = none;
  referred_responder_id = none;
  self_answer = record { grounded = false; text = none; citations = [] };
  additive = record { text = none; citations = [] };
  recommendations = [];
  verdict = record { confidence = 0; reason = none; answerable = false };
  draft = none;
  outcome = none;
  declined_ids = [];
  terminal = record { answer = none; document_id = none; fallback_responder = none };
}
