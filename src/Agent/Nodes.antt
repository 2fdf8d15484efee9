-- ===== src/Agent/Nodes.antt =====
-- agent/nodes.py: the nodes of the graph but `c6_score`. A node returns the state with its update merged.
-- `ask` and `send` take the value that their interrupt is resumed with.
use tekijin.Prelude.{
  ℕ, ◌+◌, String, ◌<>◌, Bool, true, false, not, ◌&&◌, ◌||◌, Option, none, some, List, [],
  if◌then◌else◌, is_nonempty, elem, is_text, join, leb, top_by,
}
use tekijin.Route.{person, PastAnswer, empty_retrieval, default_gates, decide_route}
use tekijin.Agent.State.{
  AgentState, Asker, Reply, text, Intent, PriorNote, answered_by, past_answers_only, Citation,
  Answer, Embedding,
}
use tekijin.Agent.State
use tekijin.Agent.Deps.{Deps}
use tekijin.Agent.Pick.{asker_id}

pub data Error : Type 0 where
  value_error index_error composer_error : Error

pub data Result {ℓ} (A : Type ℓ) : Type ℓ where
  ok : A → Result A
  raise : Error → Result A

abbrev pub question_type_default : String
question_type_default = "製品QA"

-- `stubs.INTENT_CONFIDENCE_THRESHOLD`, 0.5.
abbrev pub intent_confidence_threshold : ℕ
intent_confidence_threshold = 5000

-- `stubs.MAX_FOLLOWUPS`
abbrev pub max_followups : ℕ
max_followups = 1

cleared : AgentState → AgentState
cleared s = record s {
  persistence = record (s.persistence) {
    recommendation_ids = [];
    primary_recommendation_id = none;
    last_event = none;
  };
  intent = record (s.intent) {
    topics = [];
    products = [];
    situation = none;
    question_type = question_type_default;
    out_of_scope = false;
    confidence = 0;
  };
  sufficiency = record {
    sufficient = false;
    missing = [];
    followup_question = none;
    intent_unresolved = false;
  };
  followup_count = 0;
  query_vector = [];
  retrieval = empty_retrieval;
  routing = record { route = person; reason = none; confidence = 0; prior_answer_note = none };
  pinned_responder_id = none;
  referred_responder_id = none;
  self_answer = record { grounded = false; text = none; citations = [] };
  additive = record { text = none; citations = [] };
  recommendations = [];
  verdict = record { confidence = 0; reason = none; answerable = false };
  draft = none;
  outcome = none;
  declined_ids = [];
  terminal = record (s.terminal) { answer = none };
}

unfoldable pub reset : Deps → AgentState → Result AgentState
unfolding cleared
reset d s =
    if not (is_text (d.strip s.question))
    then raise value_error
    else if s.now.aware
    then raise value_error
    else ok (cleared s)

refused : Intent
refused = record {
  topics = [];
  products = [];
  situation = none;
  question_type = question_type_default;
  out_of_scope = true;
  confidence = 0;
  constraint_branch = none;
}

-- The new `similar_asker_count`: written where it is wired and there is a topic.
unfoldable pub similar_update : Deps → AgentState → Intent → Option ℕ
similar_update d s i = elim d.count_similar [
  | none ↦ none
  | some count ↦
      if is_nonempty i.topics && not i.out_of_scope
      then some (count i.topics (asker_id s.asker) s.persistence.question_id)
      else none
]

similar_after : Deps → AgentState → Intent → ℕ
similar_after d s i = elim (similar_update d s i) [ none ↦ s.similar_asker_count | some n ↦ n ]

unfoldable pub c1_intent : Deps → AgentState → AgentState
unfolding refused similar_after
c1_intent d s =
    if d.is_disallowed s.question
    then record s { intent = refused }
    else (let i = d.analyze s.question s.asker in
        record s { intent = i; similar_asker_count = similar_after d s i })

unfoldable pub can_route : AgentState → Bool
can_route s = is_nonempty s.intent.topics && leb intent_confidence_threshold s.intent.confidence

-- `IntentResult(...)` in the sufficiency check leaves `constraint_branch` at its default.
abbrev intent_for_check : Intent → Intent
intent_for_check i = record i { constraint_branch = none }

unfoldable pub c2_sufficiency : Deps → AgentState → AgentState
unfolding can_route
c2_sufficiency d s =
    let i = intent_for_check s.intent in
    let result = d.check s.question i s.followup_count in
    let capped = leb max_followups s.followup_count in
    if can_route s
    then record s {
      sufficiency = record {
        sufficient = true;
        missing = d.missing_required_slots s.question i;
        followup_question = none;
        intent_unresolved = false;
      };
    }
    else record s {
      sufficiency = record {
        sufficient = result.sufficient || capped;
        missing = result.missing;
        followup_question = result.followup_question;
        intent_unresolved = capped && not (is_nonempty s.intent.topics);
      };
    }

-- `reply.strip() if isinstance(reply, str) else ""`
reply_text : Deps → Reply → String
reply_text d (text t) = d.strip t
reply_text d State.payload = ""

unfoldable pub ask : Deps → AgentState → Reply → AgentState
unfolding reply_text
ask d s reply =
    let t = reply_text d reply in
    record s {
      question = if is_text t then d.strip (s.question <> (" " <> t)) else s.question;
      followup_count = s.followup_count + 1;
    }

unfoldable pub c3_embed : Deps → AgentState → AgentState
c3_embed d s = record s { query_vector = d.encode s.question }

unfoldable pub c4_retrieve : Deps → AgentState → AgentState
c4_retrieve d s = record s {
  retrieval =
      if d.query_expansion_enabled && is_nonempty s.intent.topics
      then d.search (s.question <> (" " <> join " " s.intent.topics)) none
      else d.search s.question (some s.query_vector);
}

unfoldable pub c5_route : Deps → AgentState → AgentState
c5_route d s =
    let decision =
      decide_route
        (record default_gates {
          prior_answer_reuse_min = d.prior_answer_reuse_min;
          prior_answer_relevance_floor = d.prior_answer_relevance_floor;
        })
        s.retrieval in
    record s {
      routing = record (s.routing) {
        route = decision.route;
        reason = some decision.reason;
        confidence = decision.confidence;
      };
    }

-- The responder of the best past answer, unless that person has left.
present_responder : Option PastAnswer → List ℕ → Option ℕ
present_responder none departed = none
present_responder (some top) departed = elim top.responder_id [
  | none ↦ none
  | some n ↦ if elem n departed then none else some n
]

note_for : Option ℕ → PriorNote
note_for none = past_answers_only
note_for (some n) = answered_by n

unfoldable pub prior_answer : AgentState → AgentState
unfolding present_responder note_for
prior_answer s =
    let responder =
      present_responder (top_by (λ (p : PastAnswer). p.score) s.retrieval.past_answers)
        s.retrieval.departed_people in
    record s {
      routing = record (s.routing) { prior_answer_note = some (note_for responder) };
      pinned_responder_id = responder;
    }
