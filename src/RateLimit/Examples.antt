-- ===== src/RateLimit/Examples.antt =====
-- The limiter at concrete calls.
use tekijin.Prelude.{◌≡◌, ◌≤◌, ◌+◌, ◌-◌, ◌<◌, ◌↔◌, true, refl, arith, [], ◌∷◌, List, ℕ, String}
use tekijin.RateLimit.Defs.{bucket_of, put_bucket, drop_expired, admit, visit, allow, allowed_times}
use tekijin.RateLimit.Window.{count_between, allowed_for, allow_bounded, visit-allowed}

abbrev times : List ℕ
times = 0 ∷ 10 ∷ 20 ∷ 30 ∷ 95 ∷ 105 ∷ 111 ∷ []

-- Two calls per 100: the third and fourth are refused, and so is the one at 95.
times_allowed : allowed_times 2 100 [] times ≡ 0 ∷ 10 ∷ 105 ∷ 111 ∷ []
unfolding allowed_times visit admit drop_expired
times_allowed = refl

-- Two callers; the first one's third call is refused, and the second one goes its own way.
abbrev calls : List (String × ℕ)
calls = ("E001", 5) ∷ ("E002", 60) ∷ ("E001", 60) ∷ ("E001", 90) ∷ ("E002", 30) ∷ ("E001", 106) ∷ []

calls_allowed :
    allowed_for "E001" (record { max_events = 2; window = 100; events = [] }) calls
    ≡ 5 ∷ 60 ∷ 106 ∷ []
unfolding allow visit admit drop_expired bucket_of put_bucket
calls_allowed = refl

allow_bounded_example :
    count_between 10
      (10 + 100)
      (allowed_for "E001" (record { max_events = 2; window = 100; events = [] }) calls)
    ≤ 2
allow_bounded_example = allow_bounded 2 100 0 "E001" calls 10 (omega arith)

visit-allowed_example :
    ((visit 2 100 104 (5 ∷ 60 ∷ [])).0 ≡ true) ↔ (count_between (104 - 100) 104 (5 ∷ 60 ∷ []) < 2)
visit-allowed_example = visit-allowed 2 100 0 104 (5 ∷ 60 ∷ []) (omega arith) (omega arith)
