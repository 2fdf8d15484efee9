-- ===== src/Agent/State.antt =====
-- agent/state.py: the state that the graph threads through its nodes. Its keys are grouped by the
-- component that writes them, as the comments in the source group them.
use tekijin.Prelude.{ℕ, String, Bool, Option, List}
use tekijin.Route.{Score, Route, RouteReason, RetrievalResult}
use tekijin.Scorer.{ScoredCandidate}

-- The `asker` dictionary: only its `id` is read.
pub record Asker : Type 0 where
  pub id : Option ℕ

-- A datetime: microseconds, and whether it carries a time zone.
pub record Moment : Type 0 where
  pub micros : ℕ
  pub aware : Bool

-- The value of a resumed interrupt: a text, or any other payload.
pub data Reply : Type 0 where
  text : String → Reply
  payload : Reply

-- A vector of floats, by their bit patterns.
abbrev pub Embedding : Type 0
Embedding = List ℕ

pub record Persistence : Type 0 where
  pub question_id : Option String
  pub recommendation_ids : List ℕ
  pub primary_recommendation_id : Option ℕ
  pub last_event : Option (String × String)

-- What the analysis writes.
pub record Intent : Type 0 where
  pub topics : List String
  pub products : List String
  pub situation : Option String
  pub question_type : String
  pub out_of_scope : Bool
  pub confidence : Score
  pub constraint_branch : Option String

-- What the sufficiency check writes, without the count of follow-ups.
pub record Sufficiency : Type 0 where
  pub sufficient : Bool
  pub missing : List String
  pub followup_question : Option String
  pub intent_unresolved : Bool

-- The two texts of `prior_answer`, by their template.
pub data PriorNote : Type 0 where
  answered_by : ℕ → PriorNote
  past_answers_only : PriorNote

-- What the route decision writes. `reason` is `none` for the empty text that `reset` writes.
pub record Routing : Type 0 where
  pub route : Route
  pub reason : Option RouteReason
  pub confidence : Score
  pub prior_answer_note : Option PriorNote

pub record Citation : Type 0 where
  pub source_id : String
  pub kind : String

pub record SelfAnswer : Type 0 where
  pub grounded : Bool
  pub text : Option String
  pub citations : List Citation

pub record Additive : Type 0 where
  pub text : Option String
  pub citations : List Citation

-- The answerability critic.
pub record Verdict : Type 0 where
  pub confidence : ℕ
  pub reason : Option String
  pub answerable : Bool

-- The fixed texts of the terminals, by the node that writes them, with the values they fill in.
pub data Answer : Type 0 where
  handed_to : Option String → Answer
  off_topic : Answer
  composed : String → Answer
  see_document : Option String → Option String → Answer
  no_candidate : Answer
  no_expert : Answer
  unresolved : Answer

pub record Terminal : Type 0 where
  pub answer : Option Answer
  pub document_id : Option String
  pub fallback_responder : Option ScoredCandidate

pub record AgentState : Type 0 where
  pub question : String
  pub asker : Option Asker
  pub now : Moment
  pub persistence : Persistence
  pub intent : Intent
  pub similar_asker_count : ℕ
  pub sufficiency : Sufficiency
  pub followup_count : ℕ
  pub query_vector : Embedding
  pub retrieval : RetrievalResult
  pub routing : Routing
  pub pinned_responder_id : Option ℕ
  pub referred_responder_id : Option ℕ
  pub self_answer : SelfAnswer
  pub additive : Additive
  pub recommendations : List ScoredCandidate
  pub verdict : Verdict
  pub draft : Option String
  pub outcome : Option Reply
  pub declined_ids : List ℕ
  pub terminal : Terminal
