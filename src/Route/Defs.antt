-- ===== src/Route/Defs.antt =====
-- agent/state.py (the hits of a retrieval) and agent/route.py.
use tekijin.Prelude.{
  ℕ, String, Bool, ◌&&◌, Option, none, some, List, [], ltb, leb, max, if◌then◌else◌, is_nonempty,
  top_by,
}

abbrev pub Score : Type 0
Score = ℕ

pub data Route : Type 0 where
  person prior_answer document : Route

pub record PastAnswer : Type 0 where
  pub qa_id : String
  pub score : Score
  pub responder_id : Option ℕ
  pub reuse_count : ℕ

pub record DocumentHit : Type 0 where
  pub doc_id : String
  pub score : Score

pub record DailyHit : Type 0 where
  pub daily_id : ℕ
  pub score : Score

pub record RetrievalResult : Type 0 where
  pub past_answers : List PastAnswer
  pub documents : List DocumentHit
  pub candidate_people : List ℕ
  pub departed_people : List ℕ
  pub answer_confidence : Score
  pub document_confidence : Score
  pub people_confidence : Score
  pub person_question_similarity : List (ℕ × Score)
  pub daily_reports : List DailyHit

abbrev pub empty_retrieval : RetrievalResult
empty_retrieval = record {
  past_answers = [];
  documents = [];
  candidate_people = [];
  departed_people = [];
  answer_confidence = 0;
  document_confidence = 0;
  people_confidence = 0;
  person_question_similarity = [];
  daily_reports = [];
}

-- The keyword arguments of `decide_route`.
pub record Gates : Type 0 where
  pub prior_answer_sim : Score
  pub document_sim : Score
  pub person_weak_sim : Score
  pub prior_answer_reuse_min : Option ℕ
  pub prior_answer_relevance_floor : Score

abbrev pub default_gates : Gates
default_gates = record {
  prior_answer_sim = 5500;
  document_sim = 2800;
  person_weak_sim = 4000;
  prior_answer_reuse_min = none;
  prior_answer_relevance_floor = 1500;
}

-- The messages of `decide_route`, by their template, and the one of the document fallback.
pub data RouteReason : Type 0 where
  reused : ℕ → RouteReason
  near_answer : Score → RouteReason
  on_topic_document : Score → RouteReason
  candidates_found : RouteReason
  fallback : RouteReason
  handed_on : RouteReason

pub record RouteDecision : Type 0 where
  pub route : Route
  pub reason : RouteReason
  pub confidence : Score

-- `max(past_answers, key=score)` and its `reuse_count`, where there is a past answer.
abbrev pub top_reuse : List PastAnswer → Option ℕ
top_reuse past = elim (top_by (λ (p : PastAnswer). p.score) past) [
  | none ↦ none
  | some top ↦ some top.reuse_count
]

-- The block under `if prior_answer_reuse_min is not None and past_answers`: the reuse count, if
-- it fires.
abbrev reuse_gate : Option ℕ → Option ℕ → Bool → Option ℕ
reuse_gate none top relevant = none
reuse_gate (some least) none relevant = none
reuse_gate (some least) (some reuse) relevant =
    if leb least reuse && relevant then some reuse else none

-- What follows the reuse block.
cosine_route : Gates → RetrievalResult → RouteDecision
cosine_route g r =
    if leb g.prior_answer_sim r.answer_confidence && is_nonempty r.past_answers
    then record {
      route = prior_answer;
      reason = near_answer r.answer_confidence;
      confidence = r.answer_confidence;
    }
    else if leb g.document_sim r.document_confidence
        && (ltb r.people_confidence g.person_weak_sim && ltb r.answer_confidence g.prior_answer_sim)
    then record {
      route = document;
      reason = on_topic_document r.document_confidence;
      confidence = r.document_confidence;
    }
    else if is_nonempty r.candidate_people
    then record {
      route = person;
      reason = candidates_found;
      confidence = max r.people_confidence r.answer_confidence;
    }
    else record { route = person; reason = fallback; confidence = 0 }

unfoldable pub decide_route : Gates → RetrievalResult → RouteDecision
unfolding cosine_route
decide_route g r =
    elim (reuse_gate g.prior_answer_reuse_min (top_reuse r.past_answers)
      (leb g.prior_answer_relevance_floor r.answer_confidence)) [
        | some reuse ↦ record {
          route = prior_answer;
          reason = reused reuse;
          confidence = r.answer_confidence;
        }
        | none ↦ cosine_route g r
      ]
