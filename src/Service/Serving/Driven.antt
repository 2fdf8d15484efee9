-- ===== src/Service/Serving/Driven.antt =====
-- A run of api/service.py, `_run`, saves states as the graph leaves them.
use tekijin.Prelude.{
  ℕ, zero, suc, ◌≡◌, refl, sym, ap, String, Bool, true, false, Option, none, some, List, [], ◌∷◌,
  arith, if◌then◌else◌, inl, inr, Bool-cases, is_nonempty, is_str, not, ◌&&◌,
}
use mathlib.Core.Path.{subst}
use tekijin.Scorer.{ScoredCandidate}
use tekijin.Agent.{AgentState, Reply, payload, Result, ok, raise}
use tekijin.Agent.Deps.{Deps}
use tekijin.Agent.Graph
use tekijin.Agent.Graph.{Node, c6_score, next, exec, step, then_next}
use tekijin.Agent.Graph.Safety.{IsGood, IsGoodNext, Post, step-Post}
use tekijin.Agent.Graph.Segment.{is_pause}
use tekijin.Events.{ServerSentEvent, recommended}
use tekijin.Service.State.{Checkpoint, Env}
use tekijin.Service.Persist.{
  Segment, persist_route, persist_question_body, persist_recommendations, rows_inserted,
  is_deferred, persist_fallback, persist_update, insert_for, sent_after, known_ids,
}
use tekijin.Service.Send.{
  time_stage, held_back, decided, decide_critic, send_event, saved_update, sent_update, take_update,
  node_name,
}
use tekijin.Service.Run.{Close, go_on, after_update, after_exec, drive}
use tekijin.Service.Serving.{IsGoodCheckpoint}

-- The saved state of a segment, if it goes on, is the one given.
pub data Saves (c : Checkpoint) : Option Segment → Type 0 where
  stopped : Saves c none
  saves : {seg : Segment} → seg.checkpoint ≡ c → Saves c (some seg)

persist_recommendations-Saves :
    (env : Env) (recs : List ScoredCandidate) (seg : Segment)
    → Saves seg.checkpoint (persist_recommendations env recs seg)
unfolding persist_recommendations insert_for rows_inserted
persist_recommendations-Saves env [] seg = saves refl
persist_recommendations-Saves env (top ∷ recs) seg = insert_for-Saves seg.question_id
  where
    rows_inserted-Saves : (r : _) → Saves seg.checkpoint (rows_inserted seg r)
    rows_inserted-Saves none = stopped
    rows_inserted-Saves (some (db, ids)) = saves refl

    insert_for-Saves :
        (id : Option String) → Saves seg.checkpoint (insert_for env (top ∷ recs) id seg)
    insert_for-Saves none = saves refl
    insert_for-Saves (some id) = rows_inserted-Saves _

sent_after-Saves :
    {c : Checkpoint} {o : Option Segment} (e : Option ServerSentEvent)
    → Saves c o
    → Saves c (sent_after e o)
sent_after-Saves e stopped = stopped
sent_after-Saves e (saves h) = saves h

decided-Saves :
    {c : Checkpoint} {o : Option Segment} (e : Option ServerSentEvent)
    → Saves c o
    → Saves c (decided e o)
decided-Saves e stopped = stopped
decided-Saves e (saves h) = saves h

if-Saves :
    {c : Checkpoint} (b : Bool) {x y : Option Segment}
    → Saves c x
    → Saves c y
    → Saves c (if b then x else y)
if-Saves true h k = h
if-Saves false h k = k

persist_update-Saves :
    (env : Env) (n : Node) (s : AgentState) (seg : Segment)
    → Saves seg.checkpoint (persist_update env n s seg)
unfolding persist_update persist_question_body persist_route persist_fallback
persist_update-Saves env Graph.knowledge_answer s seg = saves (ground arith)
persist_update-Saves env Graph.c6_score s seg =
    if-Saves (is_str seg.route "document") (saves refl) (
      if-Saves (is_deferred env s) (saves refl)
        (persist_recommendations-Saves env s.recommendations seg))
persist_update-Saves env Graph.c7_draft s seg =
    if-Saves
      (seg.checkpoint.document_fallback_requested
        && not (is_nonempty s.persistence.recommendation_ids))
      (sent_after-Saves (some (recommended s.recommendations)) (
        if-Saves (is_nonempty (known_ids seg)) (saves refl)
          (persist_recommendations-Saves env s.recommendations seg)))
      (saves refl)
persist_update-Saves env _ s seg = saves refl

decide_critic-Saves :
    (env : Env) (s : AgentState) (seg : Segment) → Saves seg.checkpoint (decide_critic env s seg)
unfolding decide_critic
decide_critic-Saves env s seg =
    let (recs, event) = held_back s seg.pending_recs seg.pending_recommend in
    if-Saves s.verdict.answerable (decided-Saves event (persist_recommendations-Saves env recs seg))
      (saves refl)

send_event-Saves :
    (env : Env) (n : Node) (before s : AgentState) (seg : Segment)
    → Saves seg.checkpoint (send_event env n before s seg)
unfolding send_event
send_event-Saves env Graph.c6_score before s seg =
    if-Saves (is_str seg.route "document") (saves refl)
      (if-Saves (is_deferred env s) (saves refl) (saves refl))
send_event-Saves env Graph.answerability before s seg = decide_critic-Saves env s seg
send_event-Saves env _ before s seg = saves refl

sent_update-Saves :
    {c : Checkpoint} {o : Option Segment} (env : Env) (n : Node) (before s : AgentState)
    → Saves c o
    → Saves c (sent_update env n before s o)
unfolding time_stage
sent_update-Saves env n before s stopped = stopped
sent_update-Saves env n before s (saves {seg} h) =
    subst (λ c'. Saves c' (send_event env n before s (time_stage env (node_name n) seg))) h
      (send_event-Saves env n before s (time_stage env (node_name n) seg))

pub take_update-Saves :
    (env : Env) (n : Node) (before s : AgentState) (seg : Segment)
    → Saves seg.checkpoint (take_update env n before s seg)
unfolding take_update
take_update-Saves env n before s seg =
    sent_update-Saves env n before s (persist_update-Saves env n s seg)

abbrev IsGoodSegment : Deps → Segment → Type 0
IsGoodSegment d seg = IsGoodCheckpoint d seg.checkpoint

module _ (d : Deps) (go : Node → Segment → Segment × Close) (s : AgentState)
    (k : (m : Node) (seg : Segment)
      → IsGoodSegment d seg
      → IsGood d m seg.checkpoint.values
      → IsGoodSegment d (go m seg).0) where
  go_on-IsGood :
      (reads : ℕ) (seg : Segment) (m : Option Node)
      → seg.checkpoint.next ≡ m
      → IsGoodSegment d seg
      → IsGoodSegment d (go_on reads go s seg m).0
  unfolding go_on
  go_on-IsGood zero seg m e h = h
  go_on-IsGood (suc reads) seg none e h = h
  go_on-IsGood (suc reads) seg (some m) e h = elim (Bool-cases (is_pause m)) [
    | inl p ↦ rw p h
    | inr p ↦ rw p (k m seg h (subst (λ m'. IsGoodNext d m' seg.checkpoint.values) e h))
  ]

  after_update-IsGood :
      (reads : ℕ) (saved : Segment) {o : Option Segment}
      → Saves saved.checkpoint o
      → IsGoodSegment d saved
      → IsGoodSegment d (after_update reads go s saved o).0
  unfolding after_update
  after_update-IsGood reads saved stopped h = h
  after_update-IsGood reads saved (saves {seg} e) h =
      go_on-IsGood reads seg saved.checkpoint.next (ap (λ (c : Checkpoint). c.next) e)
        (subst (IsGoodCheckpoint d) (sym e) h)

exec-IsGood :
    (env : Env) (n : Node) (reply : Reply) (seg : Segment) {s : AgentState}
    → IsGood env.deps n seg.checkpoint.values
    → exec env.deps n seg.checkpoint.values reply ≡ ok s
    → IsGoodSegment env.deps (saved_update env n s seg)
unfolding step
exec-IsGood env n reply seg {s} g e =
    subst (Post env.deps) stepped (step-Post env.deps n seg.checkpoint.values reply g)
  where
    stepped : step env.deps n seg.checkpoint.values reply ≡ ok (next env.deps n s, s)
    stepped = ap (then_next env.deps n) e

-- A run from a node on leaves the saved state as the graph leaves it, wherever it stops.
pub drive-IsGood :
    (env : Env) (reads : ℕ) (n : Node) (reply : Reply) (seg : Segment)
    → IsGoodSegment env.deps seg
    → IsGood env.deps n seg.checkpoint.values
    → IsGoodSegment env.deps (drive env reads n reply seg).0
unfolding drive after_exec
drive-IsGood env zero n reply seg h g = h
drive-IsGood env (suc reads) n reply seg h g =
    after (exec env.deps n seg.checkpoint.values reply) refl
      (λ m seg' h' g'. drive-IsGood env reads m payload seg' h' g')
  where
    after :
        (r : Result AgentState)
        → exec env.deps n seg.checkpoint.values reply ≡ r
        → ((m : Node) (seg' : Segment)
            → IsGoodSegment env.deps seg'
            → IsGood env.deps m seg'.checkpoint.values
            → IsGoodSegment env.deps (drive env reads m payload seg').0)
        → IsGoodSegment env.deps (after_exec env reads (λ m. drive env reads m payload) n seg r).0
    after (raise x) e k = h
    after (ok s) e k =
        after_update-IsGood env.deps (λ m. drive env reads m payload) s k reads
          (saved_update env n s seg)
          (take_update-Saves env n seg.checkpoint.values s (saved_update env n s seg))
          (exec-IsGood env n reply seg g e)
