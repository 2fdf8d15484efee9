-- ===== src/Agent/Graph/Terminals.antt =====
-- What a run has behind it when it ends, or hands over again: agent/graph.py over agent/nodes.py.
use tekijin.Prelude.{
  ◌<◌, ◌≡◌, Bool, true, Option, none, some, String, List, ◌∷◌, is_nonempty, is_some, not, ◌||◌, leb,
}
use tekijin.Scorer.{ScoredCandidate}
use tekijin.Agent.State.{AgentState}
use tekijin.Agent.Deps.{Deps, AnswerabilityResult}
use tekijin.Agent.Nodes
use tekijin.Agent.Nodes.{Result, ok, raise}
use tekijin.Agent.Pick
use tekijin.Agent.Handoff
use tekijin.Agent.Handoff.{answerability_evidence}
use tekijin.Agent.Answering
use tekijin.Agent.Graph.{Node, reset, reroute, c8_update, no_expert, self_answered, is_outcome}
use tekijin.Agent.Graph.Handing.{IsHandable}

-- There is a top candidate whom the question may be handed to.
abbrev pub IsHanded : AgentState → Type 0
IsHanded s =
    (top : ScoredCandidate) × (rest : List ScoredCandidate) × (s.recommendations ≡ top ∷ rest)
    × IsHandable s top

-- The critic that is wired finds the people on the shortlist too weak for the question.
pub record IsRejected (d : Deps) (s : AgentState) : Type 0 where
  pub assess : String → List String → AnswerabilityResult
  pub wired : d.assess ≡ some assess
  pub weak :
      (assess s.question (answerability_evidence d s.recommendations)).confidence
      < d.answerability_threshold
  pub someone : is_nonempty s.recommendations ≡ true

-- What is behind the end of a run, or a reroute.
abbrev pub IsEarned : Deps → Node → AgentState → Type 0
IsEarned d c8_update s = (is_outcome s.outcome "accepted" ≡ true) × IsHanded s
IsEarned d reroute s = (is_outcome s.outcome "declined" ≡ true) × IsHanded s
IsEarned d no_expert s = IsRejected d s
IsEarned d self_answered s = (s.self_answer.grounded ≡ true) × (is_some s.self_answer.text ≡ true)
IsEarned d _ s = Unit

abbrev IsEarnedNext : Deps → Option Node → AgentState → Type 0
IsEarnedNext d none s = Unit
IsEarnedNext d (some n) s = IsEarned d n s

-- A grounded answer has its text.
abbrev has_text : AgentState → Bool
has_text s = not s.self_answer.grounded || is_some s.self_answer.text

abbrev HasText : Option Node → AgentState → Type 0
HasText (some reset) s = Unit
HasText _ s = has_text s ≡ true

abbrev Post : Deps → Result (Option Node × AgentState) → Type 0
Post d (ok (m, t)) = IsEarnedNext d m t × (has_text t ≡ true)
Post d (raise e) = Unit

-- The state after the critic.
abbrev judged : Deps → AgentState → AnswerabilityResult → AgentState
judged d s result = record s {
  verdict = record {
    confidence = result.confidence;
    reason = result.reason;
    answerable = leb d.answerability_threshold result.confidence;
  };
}
