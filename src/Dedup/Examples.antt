-- ===== src/Dedup/Examples.antt =====
-- The guard at concrete deliveries.
use text.Mathlib.TextEquality.{eq_iff}
use tekijin.Prelude.{◌≡◌, refl, arith, true, [], ◌∷◌}
use tekijin.Dedup.Defs.{SeenEventIds, seen_before, after_all, evict}
use tekijin.Dedup.Bound.{IsBounded, seen_before-IsBounded}
use tekijin.Dedup.Memory.{seen_before_repeated}

abbrev guard : SeenEventIds
guard = record { max_size = 2; seen = "Ev1" ∷ "Ev2" ∷ [] }

guard-IsBounded : IsBounded guard
guard-IsBounded = record { few = omega arith; distinct = (refl, (refl, tt)) }

-- A third id drops the oldest one, which is then reported as new again.
oldest_dropped : (seen_before guard "Ev3").0.seen ≡ "Ev2" ∷ "Ev3" ∷ []
unfolding seen_before evict
oldest_dropped = refl

-- A repeated id moves to the end.
repeated_moves : (seen_before guard "Ev1").0.seen ≡ "Ev2" ∷ "Ev1" ∷ []
unfolding seen_before evict
repeated_moves = refl

seen_before-IsBounded_example : IsBounded (seen_before guard "Ev3").0
seen_before-IsBounded_example = seen_before-IsBounded guard "Ev3" guard-IsBounded

seen_before_repeated_example :
    (seen_before (after_all (seen_before guard "Ev3").0 ("Ev4" ∷ [])) "Ev3").1 ≡ true
seen_before_repeated_example =
    seen_before_repeated guard "Ev3" ("Ev4" ∷ []) guard-IsBounded
      (ground (arith, eq_iff "Ev4" "Ev3"), tt) (omega arith)
