-- ===== src/Agent/Graph/Safety.antt =====
-- What holds at each node of every run: agent/graph.py with the nodes of agent/nodes.py.
use tekijin.Prelude.{
  ◌≤◌, ◌≡◌, ◌≢◌, refl, Bool, true, false, Option, none, some, arith, [], ◌∷◌, if◌then◌else◌,
  Bool-cases, inl, inr, is_nonempty, not, is_text, ℕ, List, ◌++◌, Distinct, Distinct-append, Apart,
  elem-append, tail, is_some,
}
use mathlib.Core.Path.{subst}
use mathlib.Core.List.{append-nil}
use tekijin.Scorer.{ScoredCandidate, ids}
use tekijin.Agent.State.{AgentState, Reply}
use tekijin.Agent.Deps.{Deps}
use tekijin.Agent.Pick
use tekijin.Agent.Pick.{scored}
use tekijin.Agent.Pick.Clean.{IsClean, nil-IsClean}
use tekijin.Agent.Pick.Shortlist.{IsShortlist, c6_score-IsShortlist, c6_score_survivors}
use tekijin.Agent.Nodes
use tekijin.Agent.Handoff
use tekijin.Agent.Handoff.{decline}
use tekijin.Agent.Answering
use tekijin.Agent.Nodes.{Result, ok, raise, Error, index_error}
use tekijin.Agent.Graph.{
  Node, reset, ask, c6_score, answerability, c7_draft, send, reroute, next, exec, step, is_document,
  critique_wired, Reach, start, move,
}

-- After `reset`: the shortlist is in order, and at most one clarification was asked.
pub record IsSound (s : AgentState) : Type 0 where
  pub shortlist : IsShortlist s
  pub once : s.followup_count ≤ 1
  pub declined_once : Distinct s.declined_ids

-- There is a first candidate, and the route is not the document's.
pub record HasExpert (s : AgentState) : Type 0 where
  pub someone : is_nonempty s.recommendations ≡ true
  pub handed : is_document s.routing.route ≡ false

-- A wired critic has let the shortlist pass.
abbrev pub IsPassed : Deps → AgentState → Type 0
IsPassed d s = critique_wired d ≡ true → s.verdict.answerable ≡ true

-- What holds when a node is about to run.
abbrev pub IsGood : Deps → Node → AgentState → Type 0
IsGood d reset s = Unit
IsGood d ask s = IsSound s × (s.followup_count ≡ 0)
IsGood d answerability s = IsSound s × HasExpert s × (critique_wired d ≡ true)
IsGood d c7_draft s = IsSound s × HasExpert s × IsPassed d s
IsGood d send s = IsSound s × HasExpert s × IsPassed d s
IsGood d _ s = IsSound s

abbrev pub IsGoodNext : Deps → Option Node → AgentState → Type 0
IsGoodNext d none s = IsSound s
IsGoodNext d (some n) s = IsGood d n s

-- No step of a sound run raises `IndexError`.
abbrev pub Post : Deps → Result (Option Node × AgentState) → Type 0
Post d (ok (m, t)) = IsGoodNext d m t
Post d (raise e) = e ≢ index_error

reset-Post : (d : Deps) (s : AgentState) (reply : Reply) → Post d (step d reset s reply)
unfolding step exec next Nodes.reset
reset-Post d s reply = elim (Bool-cases (not (is_text (d.strip s.question)))) [
  | inl e ↦ rw e (λ e'. cc)
  | inr e ↦ elim (Bool-cases s.now.aware) [
    | inl e' ↦ rw (e, e') (λ e''. cc)
    | inr e' ↦
        rw (e, e') (record { shortlist = nil-IsClean; once = omega arith; declined_once = tt })
  ]
]

-- Scoring leaves the count of clarifications, and goes on with a candidate unless it ends the run.
c6_score-Post :
    (d : Deps) (s : AgentState) (reply : Reply) → IsSound s → Post d (step d c6_score s reply)
unfolding step exec next
c6_score-Post d s reply g =
    let sound : IsSound (Pick.c6_score d s) = record {
      shortlist = c6_score-IsShortlist d s g.shortlist;
      once = unfold Pick.c6_score scored in ground arith;
      declined_once = rw (c6_score_survivors d s).3 g.declined_once;
    } in
    ground arith

-- The rows that a reroute keeps, and the people who have declined after it.
rerouted-IsClean :
    {asker : Option ℕ} (declined : List ℕ) (recs : List ScoredCandidate) (drop : Bool)
    → IsClean asker declined Pick.top_k (ids recs)
    → Distinct declined
    → IsClean asker (declined ++ decline recs) Pick.top_k (ids (if drop then [] else tail recs))
      × Distinct (declined ++ decline recs)
unfolding decline
rerouted-IsClean {asker} declined [] true h u = (nil-IsClean, rw (append-nil declined) u)
rerouted-IsClean {asker} declined [] false h u = (nil-IsClean, rw (append-nil declined) u)
rerouted-IsClean {asker} declined (c ∷ recs) drop h u =
    (rest drop, Distinct-append declined (c.person_id ∷ []) u (refl, tt) apart)
  where
    apart : Apart declined (c.person_id ∷ [])
    apart n e = ground (arith, h.allowed c.person_id)

    rest :
        (drop : Bool)
        → IsClean asker
            (declined ++ (c.person_id ∷ []))
            Pick.top_k
            (ids (if drop then [] else recs))
    rest true = nil-IsClean
    rest false = record {
      few = omega (arith, h.few);
      distinct = h.distinct.1;
      allowed = λ n e.
          ground (arith, elem-append n declined (c.person_id ∷ []), h.allowed n, h.distinct.0);
    }

-- A reroute keeps the state in order: three people at most on the shortlist, each once, none of
-- them the asker or anyone who has declined, the person who just declined included; nobody
-- declines twice, and at most one clarification was asked.
pub reroute-IsSound : (s : AgentState) → IsSound s → IsSound (Handoff.reroute s)
unfolding Handoff.reroute
reroute-IsSound s h =
    let (clean, distinct) =
      rerouted-IsClean s.declined_ids s.recommendations (is_some s.referred_responder_id)
        h.shortlist h.declined_once in
    record { shortlist = clean; once = h.once; declined_once = distinct }

pub step-Post :
    (d : Deps) (n : Node) (s : AgentState) (reply : Reply)
    → IsGood d n s
    → Post d (step d n s reply)
unfolding step exec next Nodes.reset Nodes.c1_intent Nodes.c2_sufficiency Nodes.ask Nodes.c3_embed
    Nodes.c4_retrieve Nodes.c5_route Nodes.prior_answer Handoff.answerability Handoff.c7_draft
    Handoff.send Handoff.c8_update Handoff.reroute Answering.knowledge_answer Answering.self_answer
    Answering.self_answered Answering.additive_answer Answering.document Answering.say
step-Post d reset s reply g = reset-Post d s reply
step-Post d c6_score s reply g = c6_score-Post d s reply g
step-Post d reroute s reply g = reroute-IsSound s g
step-Post d _ s reply g = ground arith

-- After `reset` every state of a run is in order: three people at most on the shortlist, each
-- once, none of them the asker or anyone who has declined; nobody declines twice, and at most
-- one clarification was asked, none before `ask`. At the critic, the draft and the hand-off
-- there is a first candidate and the route is not the document's; the critic runs only where it
-- is wired, and where it is, the draft and the hand-off come after it has let the shortlist
-- pass.
pub Reach-IsGood : {d : Deps} {m : Option Node} {s : AgentState} → Reach d m s → IsGoodNext d m s
Reach-IsGood (start s) = tt
Reach-IsGood {d} (move {n} {s} reply r e) =
    subst (Post d) e (step-Post d n s reply (Reach-IsGood r))
