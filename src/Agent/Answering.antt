-- ===== src/Agent/Answering.antt =====
-- agent/nodes.py: the answers from data, and the terminals.
use mathlib.Core.Option
use tekijin.Prelude.{
  String, true, false, Option, none, some, List, [], ◌∷◌, if◌then◌else◌, is_nonempty, is_text,
  or_empty, str_eq, ltb, max, top_by, head?,
}
use tekijin.Route.{DocumentHit}
use tekijin.Scorer.{ScoredCandidate}
use tekijin.Agent.State.{AgentState, Additive, Citation, Answer, composed, see_document}
use tekijin.Agent.Deps.{Deps, CitedEvidence, SelfAnswerResult}
use tekijin.Agent.Nodes.{Result, ok, raise, composer_error}

ungrounded : AgentState → AgentState
ungrounded s = record s { self_answer = record (s.self_answer) { grounded = false } }

knowledge_citations : List String → List Citation
knowledge_citations [] = []
knowledge_citations (sid ∷ cited) =
    record { source_id = sid; kind = "knowledge" } ∷ knowledge_citations cited

from_knowledge : AgentState → Option SelfAnswerResult → AgentState
unfolding ungrounded knowledge_citations
from_knowledge s none = ungrounded s
from_knowledge s (some result) =
    if result.grounded
    then record s {
      self_answer = record {
        grounded = true;
        text = some result.answer;
        citations = knowledge_citations result.cited_source_ids;
      };
    }
    else ungrounded s

-- Runs only where a similarity floor is wired.
unfoldable pub knowledge_answer : Deps → AgentState → AgentState
unfolding from_knowledge
knowledge_answer d s = elim d.answer_from_knowledge [
  | none ↦ s
  | some answer ↦
      if is_nonempty s.query_vector then from_knowledge s (answer s.query_vector) else ungrounded s
]

-- `kind_by_id.get(id)`, where a later source of one id wins.
kind_of : String → List CitedEvidence → Option String
kind_of sid [] = none
kind_of sid (e ∷ evidence) = elim (kind_of sid evidence) [
  | some kind ↦ some kind
  | none ↦ if str_eq e.source_id sid then some e.kind else none
]

unfoldable pub cite : List CitedEvidence → List String → List Citation
unfolding kind_of
cite evidence [] = []
cite evidence (sid ∷ cited) = elim (kind_of sid evidence) [
  | some kind ↦ record { source_id = sid; kind = kind } ∷ cite evidence cited
  | none ↦ cite evidence cited
]

from_composer : AgentState → List CitedEvidence → Option SelfAnswerResult → Result AgentState
unfolding ungrounded
from_composer s evidence none = raise composer_error
from_composer s evidence (some result) =
    if result.grounded
    then ok (record s {
      self_answer = record {
        grounded = true;
        text = some result.answer;
        citations = cite evidence result.cited_source_ids;
      };
    })
    else ok (ungrounded s)

-- Runs only where a composer is wired.
unfoldable pub self_answer : Deps → AgentState → Result AgentState
unfolding from_composer
self_answer d s = elim d.compose [
  | none ↦ ok s
  | some compose ↦
      let evidence = d.collect_cited_evidence s.retrieval in
      from_composer s evidence (compose s.question evidence)
]

unfoldable pub self_answered : AgentState → AgentState
self_answered s = record s {
  terminal = record (s.terminal) { answer = some (composed (or_empty s.self_answer.text)) };
}

added : List CitedEvidence → Option SelfAnswerResult → Option Additive
added evidence none = none
added evidence (some result) =
    if result.grounded
    then some
        (record { text = some result.answer; citations = cite evidence result.cited_source_ids })
    else none

-- The update of `additive_answer`: empty where the composer raises or its answer is not grounded.
unfoldable pub additive_update : Deps → AgentState → Option Additive
unfolding added
additive_update d s = elim d.compose [
  | none ↦ none
  | some compose ↦
      let evidence = d.collect_cited_evidence s.retrieval in
      if ltb (max s.retrieval.answer_confidence s.retrieval.document_confidence)
        d.additive_self_answer_floor
      then none
      else added evidence (compose s.question evidence)
]

-- An empty update leaves the state alone.
unfoldable pub additive_answer : Deps → AgentState → AgentState
additive_answer d s = elim (additive_update d s) [
  | none ↦ s
  | some additive ↦ record s { additive = additive }
]

-- `（文書ID: …）` is shown only for an id that is not empty.
shown_id : Option String → Option String
shown_id none = none
shown_id (some id) = if is_text id then some id else none

unfoldable pub document : AgentState → AgentState
unfolding shown_id
document s =
    let doc_id =
      Option.map (λ (h : DocumentHit). h.doc_id)
        (top_by (λ (h : DocumentHit). h.score) s.retrieval.documents) in
    let fallback = head? s.recommendations in
    record s {
      terminal = record {
        answer = some (
            see_document (shown_id doc_id) (Option.map (λ (c : ScoredCandidate). c.name) fallback));
        document_id = doc_id;
        fallback_responder = fallback;
      };
    }

-- The terminals that only write their fixed text.
unfoldable pub say : Answer → AgentState → AgentState
say answer s = record s { terminal = record (s.terminal) { answer = some answer } }
