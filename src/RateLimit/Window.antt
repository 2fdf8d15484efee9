-- ===== src/RateLimit/Window.antt =====
-- What the limiter promises: api/rate_limit.py, `SlidingWindowLimiter.allow`.
use mathlib.Core.List.{append_assoc, append-nil}
use text.Mathlib.TextEquality.{eq_iff}
use tekijin.Prelude.{
  ℕ, suc, ◌+◌, ◌≤◌, ◌<◌, ◌≡◌, ◌≢◌, ◌↔◌, refl, ap, String, true, ◌&&◌, List, [], ◌∷◌, ◌++◌, leb, ltb,
  length, if◌then◌else◌, arith, Bool-cases, inl, inr, str_eq, sym, ◌∙◌, ◌-◌, All,
}
use tekijin.RateLimit.Defs.{
  Limiter, bucket_of, put_bucket, drop_expired, admit, visit, allow, allowed_times,
}

-- How many of the times lie between two others, both included.
abbrev pub count_between : ℕ → ℕ → List ℕ → ℕ
count_between lo hi [] = 0
count_between lo hi (t ∷ times) =
    let rest = count_between lo hi times in if leb lo t && leb t hi then suc rest else rest

-- The times never go back, and start no earlier than `from`.
abbrev pub Ascending : ℕ → List ℕ → Type 0
Ascending from [] = Unit
Ascending from (t ∷ times) = (from ≤ t) × Ascending t times

-- Each time has left the window by `now`.
abbrev Expired : ℕ → ℕ → List ℕ → Type 0
Expired window now [] = Unit
Expired window now (t ∷ times) = (t + window < now) × Expired window now times

count_between-append :
    (lo hi : ℕ) (xs ys : List ℕ)
    → count_between lo hi (xs ++ ys) ≡ count_between lo hi xs + count_between lo hi ys
count_between-append lo hi [] ys = omega arith
count_between-append lo hi (x ∷ xs) ys = ground (arith, count_between-append lo hi xs ys)

count_between-le : (lo hi : ℕ) (xs : List ℕ) → count_between lo hi xs ≤ length xs
count_between-le lo hi [] = omega arith
count_between-le lo hi (x ∷ xs) = ground (arith, count_between-le lo hi xs)

-- A window that reaches `now` holds none of the expired times.
count_between-Expired :
    (lo window now : ℕ) (xs : List ℕ)
    → Expired window now xs
    → now ≤ lo + window
    → count_between lo (lo + window) xs ≡ 0
count_between-Expired lo window now [] h r = refl
count_between-Expired lo window now (x ∷ xs) h r =
    ground (arith, count_between-Expired lo window now xs)

Expired-append :
    (window now : ℕ) (xs ys : List ℕ)
    → Expired window now xs
    → Expired window now ys
    → Expired window now (xs ++ ys)
Expired-append window now [] ys h k = k
Expired-append window now (x ∷ xs) ys h k = (h.0, Expired-append window now xs ys h.1 k)

Expired-mono :
    (window now later : ℕ) (xs : List ℕ)
    → now ≤ later
    → Expired window now xs
    → Expired window later xs
Expired-mono window now later [] r h = tt
Expired-mono window now later (x ∷ xs) r h = (omega arith, Expired-mono window now later xs r h.1)

-- What a visit drops is expired.
drop_expired-split :
    (window now : ℕ) (bucket : List ℕ)
    → (old : List ℕ) × (bucket ≡ old ++ drop_expired window now bucket) × Expired window now old
unfolding drop_expired
drop_expired-split window now [] = ([], refl, tt)
drop_expired-split window now (t ∷ bucket) =
    let (old, e, x) = drop_expired-split window now bucket in
    elim (Bool-cases (ltb (t + window) now)) [
      | inl h ↦ (t ∷ old, rw h (ap (◌∷◌ t) e), (ground arith, x))
      | inr h ↦ ([], rw h, tt)
    ]

-- No window of the given width has held more than `most` of the times.
abbrev Within : ℕ → ℕ → List ℕ → Type 0
Within most window times = (lo : ℕ) → count_between lo (lo + window) times ≤ most

-- One more time keeps the bound, if what it shares its window with is short enough.
Within-admit :
    (most window now : ℕ) (old bucket : List ℕ)
    → Expired window now old
    → length bucket < most
    → Within most window (old ++ bucket)
    → Within most window (old ++ (bucket ++ (now ∷ [])))
Within-admit most window now old bucket x room h lo = ground (
  arith,
  h lo,
  count_between-append lo (lo + window) old bucket,
  count_between-append lo (lo + window) old (bucket ++ (now ∷ [])),
  count_between-append lo (lo + window) bucket (now ∷ []),
  count_between-Expired lo window now old x,
  count_between-le lo (lo + window) bucket,
)

regroup_admitted :
    (xs ys : List ℕ) (n : ℕ) (zs : List ℕ) → (xs ++ (ys ++ (n ∷ []))) ++ zs ≡ (xs ++ ys) ++ (n ∷ zs)
regroup_admitted xs ys n zs = simp append_assoc

-- The bound goes on over further calls.
allowed_times-extends :
    (most window from : ℕ) (old bucket times : List ℕ)
    → Expired window from old
    → Ascending from times
    → Within most window (old ++ bucket)
    → Within most window ((old ++ bucket) ++ allowed_times most window bucket times)
unfolding allowed_times visit admit
allowed_times-extends most window from old bucket [] x a h = rw (append-nil (old ++ bucket)) h
allowed_times-extends most window from old bucket (now ∷ times) x a h =
    let kept = drop_expired window now bucket in
    let (gone, e, x') = drop_expired-split window now bucket in
    let before = old ++ gone in
    let regroup : old ++ bucket ≡ before ++ kept =
      ap (λ l. old ++ l) e ∙ sym (append_assoc old gone kept) in
    let expired : Expired window now before =
      Expired-append window now old gone (Expired-mono window from now old a.0 x) x' in
    let start : Within most window (before ++ kept) = λ lo. rw (← regroup) (h lo) in
    elim (Bool-cases (leb most (length kept))) [
      | inl full ↦
          rw regroup
            (rw full (allowed_times-extends most window now before kept times expired a.1 start))
      | inr room ↦
          let rest = allowed_times most window (kept ++ (now ∷ [])) times in
          let further =
            allowed_times-extends most window now before (kept ++ (now ∷ [])) times expired a.1
              (Within-admit most window now before kept expired (ground arith) start) in
          rw regroup (rw room (rw (← regroup_admitted before kept now rest) further))
    ]

pub allowed_times_bounded :
    (max_events window from : ℕ) (times : List ℕ) (lo : ℕ)
    → Ascending from times
    → count_between lo (lo + window) (allowed_times max_events window [] times) ≤ max_events
allowed_times_bounded max_events window from times lo a =
    allowed_times-extends max_events window from [] [] times tt a (λ _. omega arith) lo

bucket_of-put_bucket :
    (key other : String) (bucket : List ℕ) (events : List (String × List ℕ))
    → bucket_of other (put_bucket key bucket events)
      ≡ (if str_eq key other then bucket else bucket_of other events)
unfolding bucket_of put_bucket
bucket_of-put_bucket key other bucket [] = refl
bucket_of-put_bucket key other bucket ((k, b) ∷ events) = ground (
  arith,
  eq_iff k key,
  eq_iff k other,
  eq_iff key other,
  bucket_of-put_bucket key other bucket events,
)

allow-visit :
    (l : Limiter) (key other : String) (now : ℕ)
    → ((allow l key now).1 ≡ (visit l.max_events l.window now (bucket_of key l.events)).0)
      × (bucket_of key (allow l key now).0.events
          ≡ (visit l.max_events l.window now (bucket_of key l.events)).1)
      × (key ≢ other → bucket_of other (allow l key now).0.events ≡ bucket_of other l.events)
unfolding allow
allow-visit l key other now = (
  refl,
  bucket_of-put_bucket key key _ l.events ∙ ground (arith, eq_iff key key),
  λ ne. bucket_of-put_bucket key other _ l.events ∙ ground (arith, eq_iff key other),
)

count_between-all :
    (lo hi from : ℕ) (times : List ℕ)
    → Ascending from times
    → All (λ t. t ≤ hi) times
    → lo ≤ from
    → count_between lo hi times ≡ length times
count_between-all lo hi from [] a h r = refl
count_between-all lo hi from (t ∷ times) a h r =
    ground (arith, count_between-all lo hi t times a.1 h.1)

-- The times of a bucket in ascending order that are still in the window are those that a visit
-- keeps.
drop_expired-length :
    (window from now : ℕ) (bucket : List ℕ)
    → Ascending from bucket
    → All (λ t. t ≤ now) bucket
    → length (drop_expired window now bucket) ≡ count_between (now - window) now bucket
unfolding drop_expired
drop_expired-length window from now [] a h = refl
drop_expired-length window from now (t ∷ bucket) a h = ground (
  arith,
  drop_expired-length window t now bucket a.1 h.1,
  count_between-all (now - window) now t bucket a.1 h.1,
)

-- A call at a time that is not before the recorded ones is allowed exactly when fewer than
-- `max_events` of these, which ascend, are still in the window.
pub visit-allowed :
    (max_events window from now : ℕ) (bucket : List ℕ)
    → Ascending from bucket
    → All (λ t. t ≤ now) bucket
    → ((visit max_events window now bucket).0 ≡ true)
      ↔ (count_between (now - window) now bucket < max_events)
unfolding visit admit
visit-allowed max_events window from now bucket a h =
    let e = drop_expired-length window from now bucket a h in (ground arith, ground arith)

-- The times of one key's calls, and of those that are allowed, among calls for any keys.
abbrev pub times_of : String → List (String × ℕ) → List ℕ
times_of key [] = []
times_of key ((k, now) ∷ calls) =
    if str_eq k key then now ∷ times_of key calls else times_of key calls

abbrev pub allowed_for : String → Limiter → List (String × ℕ) → List ℕ
allowed_for key l [] = []
allowed_for key l ((k, now) ∷ calls) =
    let rest = allowed_for key (allow l k now).0 calls in
    if str_eq k key && (allow l k now).1 then now ∷ rest else rest

-- The answers to one key's calls are those that it gets alone.
allowed_for-alone :
    (key : String) (l : Limiter) (calls : List (String × ℕ))
    → allowed_for key l calls
      ≡ allowed_times l.max_events l.window (bucket_of key l.events) (times_of key calls)
unfolding allowed_times allow
allowed_for-alone key l [] = refl
allowed_for-alone key l ((k, now) ∷ calls) = elim (Bool-cases (str_eq k key)) [
  | inl e ↦
      let (answer, own, others) = allow-visit l key key now in
      rw (e, (eq_iff k key).0 e, answer)
        (rw (allowed_for-alone key (allow l key now).0 calls) (rw own refl))
  | inr e ↦
      let (answer, own, others) = allow-visit l k key now in
      rw e (
        allowed_for-alone key (allow l k now).0 calls
        ∙ rw (others (ground (arith, eq_iff k key))) refl)
]

-- Over any calls for any keys, in any interleaving, a limiter that starts empty allows no key more
-- than `max_events` calls in a span as long as the window, where the times of that key's calls do
-- not go back; the calls of the other keys may come at any time.
pub allow_bounded :
    (max_events window from : ℕ) (key : String) (calls : List (String × ℕ)) (lo : ℕ)
    → Ascending from (times_of key calls)
    → count_between lo
        (lo + window)
        (allowed_for key (record { max_events = max_events; window = window; events = [] }) calls)
      ≤ max_events
unfolding bucket_of
allow_bounded max_events window from key calls lo a =
    rw
      (allowed_for-alone key (record { max_events = max_events; window = window; events = [] })
        calls)
      (allowed_times_bounded max_events window from (times_of key calls) lo a)
