-- ===== src/Agent/Deps.antt =====
-- agent/nodes.py, `AgentNodes.__init__`, and agent/protocols.py: what the nodes are given.
-- The models, the embedder, the retriever and the text routines are parameters of the flow.
use tekijin.Prelude.{ℕ, String, Bool, Option, List}
use tekijin.Route.{Score, RetrievalResult}
use tekijin.Scorer.{ScoredCandidate, Ranker}
use tekijin.Agent.State.{Asker, Embedding, Intent}

pub record SufficiencyResult : Type 0 where
  pub sufficient : Bool
  pub missing : List String
  pub followup_question : Option String

pub record AnswerabilityResult : Type 0 where
  pub confidence : ℕ
  pub reason : Option String

pub record SelfAnswerResult : Type 0 where
  pub answer : String
  pub cited_source_ids : List String
  pub grounded : Bool

-- `CitedEvidence`: a source, its kind and its text.
pub record CitedEvidence : Type 0 where
  pub source_id : String
  pub kind : String
  pub text : String

pub record DraftRequest : Type 0 where
  pub question : String
  pub responder : ScoredCandidate
  pub asker : Option Asker
  pub missing : List String
  pub situation : Option String
  pub topics : List String
  pub known_values : List (String × String)

-- `compose` returns `none` where the composer raises.
pub record Deps : Type 0 where
  pub strip : String → String
  pub is_disallowed : String → Bool
  pub analyze : String → Option Asker → Intent
  pub count_similar : Option (List String → Option ℕ → Option String → ℕ)
  pub missing_required_slots : String → Intent → List String
  pub collect_known_values : String → String → List String → List (String × String)
  pub check : String → Intent → ℕ → SufficiencyResult
  pub encode : String → Embedding
  pub search : String → Option Embedding → RetrievalResult
  pub scorer : Ranker
  pub draft : DraftRequest → String
  pub assess : Option (String → List String → AnswerabilityResult)
  pub answerability_threshold : ℕ
  pub compose : Option (String → List CitedEvidence → Option SelfAnswerResult)
  pub collect_cited_evidence : RetrievalResult → List CitedEvidence
  pub answer_from_knowledge : Option (Embedding → Option SelfAnswerResult)
  pub prior_answer_reuse_min : Option ℕ
  pub prior_answer_relevance_floor : Score
  pub query_expansion_enabled : Bool
  pub question_fit_enabled : Bool
  pub branch_constraint_enabled : Bool
  pub employee_branches : Option (ℕ → Option String)
  pub employee_source : Option (List ℕ)
  pub additive_self_answer_enabled : Bool
  pub additive_self_answer_floor : Score
