-- ===== src/RateLimit/Defs.antt =====
-- api/rate_limit.py, `SlidingWindowLimiter`.
use tekijin.Prelude.{
  ℕ, ◌+◌, String, Bool, true, false, List, [], ◌∷◌, ◌++◌, ltb, leb, length, if◌then◌else◌, str_eq,
}

pub record Limiter : Type 0 where
  pub max_events : ℕ
  pub window : ℕ
  pub events : List (String × List ℕ)

-- `self._events[key]` on a `defaultdict(deque)`.
unfoldable pub bucket_of : String → List (String × List ℕ) → List ℕ
bucket_of key [] = []
bucket_of key ((k, bucket) ∷ events) = if str_eq k key then bucket else bucket_of key events

unfoldable pub put_bucket : String → List ℕ → List (String × List ℕ) → List (String × List ℕ)
put_bucket key bucket [] = (key, bucket) ∷ []
put_bucket key bucket ((k, b) ∷ events) =
    if str_eq k key then (k, bucket) ∷ events else (k, b) ∷ put_bucket key bucket events

-- `while bucket and bucket[0] < cutoff: bucket.popleft()`
unfoldable pub drop_expired : ℕ → ℕ → List ℕ → List ℕ
drop_expired window now [] = []
drop_expired window now (t ∷ bucket) =
    let rest = drop_expired window now bucket in if ltb (t + window) now then rest else t ∷ bucket

-- The rest of `allow` on the bucket: the answer, and the bucket after it.
unfoldable pub admit : ℕ → ℕ → List ℕ → Bool × List ℕ
admit max_events now bucket =
    if leb max_events (length bucket) then (false, bucket) else (true, bucket ++ (now ∷ []))

unfoldable pub visit : ℕ → ℕ → ℕ → List ℕ → Bool × List ℕ
visit max_events window now bucket = admit max_events now (drop_expired window now bucket)

unfoldable pub allow : Limiter → String → ℕ → Limiter × Bool
allow l key now =
    let (allowed, bucket) = visit l.max_events l.window now (bucket_of key l.events) in
    (record l { events = put_bucket key bucket l.events }, allowed)

-- The times of a sequence of calls for one key that were allowed.
unfoldable pub allowed_times : ℕ → ℕ → List ℕ → List ℕ → List ℕ
allowed_times max_events window bucket [] = []
allowed_times max_events window bucket (now ∷ times) =
    let (allowed, bucket') = visit max_events window now bucket in
    let rest = allowed_times max_events window bucket' times in if allowed then now ∷ rest else rest
