-- ===== src/Service/Serving/Resting.antt =====
-- A run of api/service.py, `_run`, comes to its end for a reader that stays.
use tekijin.Prelude.{
  ℕ, zero, suc, ◌<◌, ◌≡◌, refl, ◌∙◌, ap, Bool, true, false, Option, none, some, arith, inl, inr,
  Bool-cases,
}
use tekijin.Agent.{AgentState, Reply, payload, Result, ok, raise}
use tekijin.Agent.Graph.{Node, next, exec}
use tekijin.Agent.Graph.Segment.{is_pause, height, next-height}
use tekijin.Service.State.{Checkpoint, Env}
use tekijin.Service.Persist.{Segment}
use tekijin.Service.Send.{saved_update}
use tekijin.Service.Run.{Close, finished, broken, go_on, after_update, after_exec, drive}
use tekijin.Service.Serving.Driven.{Saves, stopped, saves, take_update-Saves}

-- A run that waits for a person, or that is over.
abbrev pub is_resting : Option Node → Bool
is_resting none = true
is_resting (some n) = is_pause n

-- A run that has finished rests; otherwise it broke. The reader did not go away.
pub data Rests : Segment × Close → Type 0 where
  rested : {seg : Segment} → is_resting seg.checkpoint.next ≡ true → Rests (seg, finished)
  broke : {seg : Segment} → Rests (seg, broken)

module _ (reads : ℕ) (stays : 0 < reads) (go : Node → Segment → Segment × Close)
    (s : AgentState) where
  go_on-Rests :
      (seg : Segment) (m : Option Node)
      → seg.checkpoint.next ≡ m
      → ((k : Node) → m ≡ some k → is_pause k ≡ false → (after : Segment) → Rests (go k after))
      → Rests (go_on reads go s seg m)
  unfolding go_on
  go_on-Rests seg m e h = reader_stays reads stays m e h
    where
      reader_stays :
          (left : ℕ)
          → 0 < left
          → (m : Option Node) → seg.checkpoint.next ≡ m
          → ((k : Node) → m ≡ some k → is_pause k ≡ false → (after : Segment) → Rests (go k after))
          → Rests (go_on left go s seg m)
      reader_stays zero still m e h = absurd (omega (arith, still))
      reader_stays (suc left) still none e h = rested (ap is_resting e)
      reader_stays (suc left) still (some k) e h = elim (Bool-cases (is_pause k)) [
        | inl p ↦ rw p (rested (ap is_resting e ∙ p))
        | inr p ↦ rw p (h k refl p seg)
      ]

  after_update-Rests :
      (saved : Segment) {o : Option Segment}
      → Saves saved.checkpoint o
      → ((k : Node)
          → saved.checkpoint.next ≡ some k
          → is_pause k ≡ false
          → (after : Segment) → Rests (go k after))
      → Rests (after_update reads go s saved o)
  unfolding after_update
  after_update-Rests saved stopped h = broke
  after_update-Rests saved (saves {seg} e) h =
      go_on-Rests seg saved.checkpoint.next (ap (λ (c : Checkpoint). c.next) e) h

after_exec-Rests :
    (env : Env) (reads : ℕ)
    → 0 < reads
    → (go : Node → Segment → Segment × Close) (n : Node) (seg : Segment) (r : Result AgentState)
    → ((s : AgentState) (k : Node)
        → next env.deps n s ≡ some k
        → is_pause k ≡ false
        → (after : Segment) → Rests (go k after))
    → Rests (after_exec env reads go n seg r)
unfolding after_exec
after_exec-Rests env reads stays go n seg (raise e) h = broke
after_exec-Rests env reads stays go n seg (ok s) h =
    after_update-Rests reads stays go s (saved_update env n s seg)
      (take_update-Saves env n seg.checkpoint.values s (saved_update env n s seg)) (h s)

height_positive : (n : Node) → 0 < height n
height_positive n = ground arith

-- From a node that is no pause, a reader that stays for more updates than its height sees the end.
drive-Rests :
    (env : Env) (reads : ℕ) (n : Node) (reply : Reply) (seg : Segment)
    → is_pause n ≡ false
    → height n < reads
    → Rests (drive env reads n reply seg)
unfolding drive
drive-Rests env zero n reply seg p h = absurd (omega arith)
drive-Rests env (suc reads) n reply seg p h =
    after_exec-Rests env reads (omega (arith, height_positive n)) (λ m. drive env reads m payload) n
      seg (exec env.deps n seg.checkpoint.values reply)
      (λ s k e q after.
        drive-Rests env reads k payload after q (omega (arith, next-height env.deps n s p e)))

height_bound : (n : Node) → height n < 14
height_bound n = ground arith

-- From any node, also one that waited for a person, 15 updates are enough.
pub drive_stops :
    (env : Env) (reads : ℕ) (n : Node) (reply : Reply) (seg : Segment)
    → 14 < reads
    → Rests (drive env reads n reply seg)
unfolding drive
drive_stops env zero n reply seg h = absurd (omega arith)
drive_stops env (suc reads) n reply seg h =
    after_exec-Rests env reads (omega arith) (λ m. drive env reads m payload) n seg
      (exec env.deps n seg.checkpoint.values reply)
      (λ s k e q after. drive-Rests env reads k payload after q (omega (arith, height_bound k)))
