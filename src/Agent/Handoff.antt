-- ===== src/Agent/Handoff.antt =====
-- agent/nodes.py: the critic, the draft, the hand-off and its outcome.
use mathlib.Core.Option
use tekijin.Prelude.{
  ℕ, String, ◌<>◌, Bool, not, none, some, List, [], ◌∷◌, ◌++◌, if◌then◌else◌, is_nonempty, select,
  any, is_some, is_text, or_empty, str_eq, join, leb, head?, tail,
}
use tekijin.Scorer.{ScoredReason, ScoredCandidate}
use tekijin.Agent.State.{AgentState, Reply, handed_to}
use tekijin.Agent.Deps.{Deps}
use tekijin.Agent.Nodes.{Result, ok, raise, index_error}

details : Deps → List ScoredReason → List String
details d [] = []
details d (r ∷ reasons) =
    let detail = d.strip r.detail in
    if is_text detail then detail ∷ details d reasons else details d reasons

evidence_line : Deps → ScoredCandidate → String
unfolding details
evidence_line d c =
    let name = d.strip c.name in
    let dept = d.strip (or_empty c.dept) in
    let who = if is_text dept then name <> ("（" <> (dept <> "）")) else name in
    let found = details d c.reasons in
    if is_nonempty found then who <> (": " <> join "; " found) else who

unfoldable pub answerability_evidence : Deps → List ScoredCandidate → List String
unfolding evidence_line
answerability_evidence d [] = []
answerability_evidence d (c ∷ recs) =
    let line = evidence_line d c in
    if is_text (d.strip line)
    then line ∷ answerability_evidence d recs
    else answerability_evidence d recs

-- Runs only where a critic is wired; without one the state is left alone.
unfoldable pub answerability : Deps → AgentState → AgentState
answerability d s = elim d.assess [
  | none ↦ s
  | some assess ↦
      let result = assess s.question (answerability_evidence d s.recommendations) in
      record s {
        verdict = record {
          confidence = result.confidence;
          reason = result.reason;
          answerable = leb d.answerability_threshold result.confidence;
        };
      }
]

-- `slot in known_values`
has_key : String → List (String × String) → Bool
has_key slot known = any (λ (e : String × String). str_eq e.0 slot) known

unfoldable pub draft_context : Deps → AgentState → List String × List (String × String)
unfolding has_key
draft_context d s =
    let known = d.collect_known_values s.question s.intent.question_type s.intent.products in
    (select (λ (slot : String). not (has_key slot known)) s.sufficiency.missing, known)

-- `(state.get("recommendations") or [])[0]` raises on an empty list.
unfoldable pub draft_for : Deps → AgentState → List ScoredCandidate → Result AgentState
draft_for d s [] = raise index_error
draft_for d s (top ∷ rest) =
    let (missing, known) = draft_context d s in
    ok (record s {
      draft = some (
          d.draft (record {
            question = s.question;
            responder = top;
            asker = s.asker;
            missing = missing;
            situation = s.intent.situation;
            topics = s.intent.topics;
            known_values = known;
          }));
    })

unfoldable pub c7_draft : Deps → AgentState → Result AgentState
unfolding draft_for
c7_draft d s = draft_for d s s.recommendations

-- The interrupt shows the draft and the top row; the resumed value is the outcome.
unfoldable pub send : AgentState → Reply → AgentState
send s reply = record s { outcome = some reply }

unfoldable pub decline : List ScoredCandidate → List ℕ
decline [] = []
decline (c ∷ recs) = c.person_id ∷ []

-- The top row's person declined.
unfoldable pub reroute : AgentState → AgentState
unfolding decline
reroute s = record s {
  declined_ids = s.declined_ids ++ decline s.recommendations;
  outcome = none;
  draft = none;
  recommendations = if is_some s.referred_responder_id then [] else tail s.recommendations;
}

unfoldable pub c8_update : AgentState → AgentState
c8_update s = record s {
  terminal = record (s.terminal) {
    answer =
        some (handed_to (Option.map (λ (c : ScoredCandidate). c.name) (head? s.recommendations)));
  };
}
