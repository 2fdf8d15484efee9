-- ===== src/Agent/Pick/Shortlist.antt =====
-- The shortlist that scoring leaves: agent/nodes.py, `c6_score`.
use tekijin.Prelude.{
  ℕ, ◌-◌, ◌≤◌, ◌≡◌, refl, Bool, true, false, not, Option, some, none, List, [], ◌∷◌, ◌++◌, map,
  arith, length, elem, elem-append, elem-select, select, is_nonempty, ltb, ◌==◌, inl, inr,
  Bool-cases, Option-cases, ◌||◌, ◌&&◌, sym,
}
use mathlib.Core.List.{append-nil, append_assoc}
use tekijin.Scorer.{ScoredCandidate, ids, length-ids, ids-append}
use tekijin.Agent.State.{AgentState}
use tekijin.Agent.Deps.{Deps}
use tekijin.Agent.Pick.{
  asker_id, note_one, note_unmet_branch, requested_branch, is_at, split_by_branch, rank_query,
  prior_pin, referral_pin, pin_if, vouch, seat, seated, branch_first, others_after,
  pick_constrained, pick_split, is_open, is_other, candidate_pool, open_candidates, backfill,
  scored, top_k, fresh_rows, c6_score,
}
use tekijin.Agent.Pick.Clean.{IsClean, nil-IsClean, append-IsClean, rank-IsClean, IsClean-mono}

-- The shown people are at most three, each once, none of them declined, and never the asker.
abbrev pub IsShortlist : AgentState → Type 0
IsShortlist s = IsClean (asker_id s.asker) s.declined_ids top_k (ids s.recommendations)

map-note_one-ids :
    (d : Deps) (branch : _) (recs : List ScoredCandidate)
    → ids (map (note_one d branch) recs) ≡ ids recs
unfolding note_one
map-note_one-ids d branch [] = refl
map-note_one-ids d branch (c ∷ recs) = ground (arith, map-note_one-ids d branch recs)

-- Notes on the rows leave the people as they are.
pub note_unmet_branch-ids :
    (d : Deps) (s : AgentState) (recs : List ScoredCandidate)
    → ids (note_unmet_branch d s recs) ≡ ids recs
unfolding note_unmet_branch
note_unmet_branch-ids d s recs = elim (Option-cases (requested_branch d s)) [
  | inl e ↦ rw (e, note_unmet_branch)
  | inr (branch, e) ↦ rw (e, note_unmet_branch) (map-note_one-ids d branch recs)
]

vouch-ids : (recs : List ScoredCandidate) → ids (vouch recs) ≡ ids recs
unfolding vouch
vouch-ids [] = refl
vouch-ids (c ∷ recs) = refl

rank_query-asker : (d : Deps) (s : AgentState) → (rank_query d s).asker_id ≡ asker_id s.asker
unfolding rank_query
rank_query-asker d s = refl

module _ (d : Deps) (s : AgentState) where
  -- One pinned person who is not banned.
  seat-IsClean :
      (banned : List ℕ) (pin k : ℕ)
      → 1 ≤ k
      → elem pin banned ≡ false
      → IsClean (asker_id s.asker) banned k (ids (seat d s pin))
  unfolding seat
  seat-IsClean banned pin k pos free = rw (note_unmet_branch-ids d s _) (
      IsClean-mono 1 k pos (
        rank-IsClean d.scorer (rank_query d s) (pin ∷ []) (rank_query-asker d s)
          (λ n h. ground arith)))

  -- A pin that is kept is not declined, not the asker and not shown already.
  pin_if-allowed :
      (live : Bool) (pin : Option ℕ) {n : ℕ}
      → pin_if live pin s ≡ some n
      → elem n (s.declined_ids ++ ids s.recommendations) ≡ false
  pin_if-allowed live none {n} e = cc
  pin_if-allowed live (some m) {n} e =
      ground (arith, elem-append m s.declined_ids (ids s.recommendations))

  abbrev shown_or_declined : List ℕ
  shown_or_declined = s.declined_ids ++ ids s.recommendations

  seated-IsClean :
      (k : ℕ) → 1 ≤ k → IsClean (asker_id s.asker) shown_or_declined k (ids (seated d s))
  unfolding seated referral_pin prior_pin
  seated-IsClean k pos = elim (Option-cases (referral_pin s)) [
    | inr (pin, e) ↦
        rw (e, seated)
          (rw (vouch-ids (seat d s pin))
            (seat-IsClean shown_or_declined pin k pos (pin_if-allowed true _ e)))
    | inl e ↦ elim (Option-cases (prior_pin s)) [
      | inr (pin, e') ↦
          rw (e, seated)
            (rw (e', seated) (seat-IsClean shown_or_declined pin k pos (pin_if-allowed _ _ e')))
      | inl e' ↦ rw (e, seated) (rw (e', seated) nil-IsClean)
    ]
  ]

  open_candidates-allowed :
      (filled : List ℕ) (n : ℕ)
      → elem n (open_candidates d s filled) ≡ true
      → elem n (s.declined_ids ++ filled) ≡ false
  unfolding open_candidates
  open_candidates-allowed filled n h =
      let (pooled, clear) =
        elem-select (is_open s.declined_ids filled) n (candidate_pool d s.retrieval) h in
      ground (arith, elem-append n s.declined_ids filled)

  abbrev Allowed : List ℕ → List ℕ → Type 0
  Allowed banned people = (n : ℕ) → elem n people ≡ true → elem n banned ≡ false

  pub branch_first-from :
      (matching : List ℕ) (k n : ℕ)
      → elem n (ids (branch_first d s matching k)) ≡ true
      → elem n matching ≡ true
  unfolding branch_first
  branch_first-from [] k n h = h
  branch_first-from (m ∷ matching) k n h =
      (d.scorer.rank_from (rank_query d s) (m ∷ matching) k n h).0

  branch_first-IsClean :
      (banned matching : List ℕ) (k : ℕ)
      → Allowed banned matching
      → IsClean (asker_id s.asker) banned k (ids (branch_first d s matching k))
  unfolding branch_first
  branch_first-IsClean banned [] k free = nil-IsClean
  branch_first-IsClean banned (m ∷ matching) k free =
      rank-IsClean d.scorer (rank_query d s) (m ∷ matching) (rank_query-asker d s) free

  others_after-IsClean :
      (banned others : List ℕ) (k : ℕ)
      → Allowed banned others
      → IsClean (asker_id s.asker) banned k (ids (others_after d s others k))
  unfolding others_after
  others_after-IsClean banned others k free = elim (Bool-cases (ltb 0 k)) [
    | inl e ↦ rw e (rank-IsClean d.scorer (rank_query d s) others (rank_query-asker d s) free)
    | inr e ↦ rw e nil-IsClean
  ]

  -- Rows behind others: each part is clean, and the second is apart from the first.
  join-IsClean :
      {banned : List ℕ} {k : ℕ} (xs ys : List ScoredCandidate)
      → IsClean (asker_id s.asker) banned k (ids xs)
      → IsClean (asker_id s.asker) (banned ++ ids xs) (k - length xs) (ids ys)
      → IsClean (asker_id s.asker) banned k (ids (xs ++ ys))
  join-IsClean xs ys cx cy =
      rw (ids-append xs ys) (append-IsClean (ids xs) (ids ys) cx (rw (length-ids xs) cy))

  pick_constrained-IsClean :
      (banned matching others : List ℕ) (k : ℕ)
      → Allowed banned matching
      → Allowed banned others
      → ((n : ℕ) → elem n others ≡ true → elem n matching ≡ false)
      → IsClean (asker_id s.asker) banned k (ids (pick_constrained d s matching others k))
  unfolding pick_constrained
  pick_constrained-IsClean banned matching others k free free' apart =
      let picked = branch_first d s matching k in
      rw (note_unmet_branch-ids d s _) (
        join-IsClean picked (others_after d s others (k - length picked))
          (branch_first-IsClean banned matching k free)
          (others_after-IsClean (banned ++ ids picked) others (k - length picked) later))
    where
      later : Allowed (banned ++ ids (branch_first d s matching k)) others
      later n h = ground (
        arith,
        elem-append n banned (ids (branch_first d s matching k)),
        branch_first-from matching k n,
        free' n h,
        apart n h,
      )

  split-IsClean :
      (banned candidates matching others : List ℕ) (k : ℕ)
      → Allowed banned candidates
      → ((n : ℕ) → elem n matching ≡ true → elem n candidates ≡ true)
      → ((n : ℕ) → elem n others ≡ true → (elem n candidates ≡ true) × (is_other matching n ≡ true))
      → IsClean (asker_id s.asker) banned k (ids (pick_split d s (matching, others) candidates k))
  unfolding pick_split
  split-IsClean banned candidates matching [] k free m o =
      rank-IsClean d.scorer (rank_query d s) candidates (rank_query-asker d s) free
  split-IsClean banned candidates matching (x ∷ others) k free m o =
      pick_constrained-IsClean banned matching (x ∷ others) k (λ n h. free n (m n h))
        (λ n h. free n (o n h).0) (λ n h. let w = (o n h).1 in ground arith)

  pick_split-IsClean :
      (banned candidates : List ℕ) (k : ℕ)
      → Allowed banned candidates
      → IsClean
          (asker_id s.asker)
          banned
          k
          (ids (pick_split d s (split_by_branch d s candidates) candidates k))
  unfolding split_by_branch
  pick_split-IsClean banned candidates k free = elim (Option-cases (requested_branch d s)) [
    | inl e ↦
        rw (e, split_by_branch)
          (split-IsClean banned candidates candidates [] k free (λ n h. h) (λ n h. cc))
    | inr (branch, e) ↦
        let matching = select (is_at d branch) candidates in
        rw (e, split_by_branch)
          (split-IsClean banned candidates matching (select (is_other matching) candidates) k free
            (λ n h. (elem-select (is_at d branch) n candidates h).0)
            (λ n h. elem-select (is_other matching) n candidates h))
  ]

  backfill-IsClean :
      (filled : List ℕ) (k : ℕ)
      → IsClean (asker_id s.asker) (s.declined_ids ++ filled) k (ids (backfill d s filled k))
  unfolding backfill
  backfill-IsClean filled k =
      elim (Bool-cases (ltb 0 k && is_nonempty (open_candidates d s filled))) [
        | inl e ↦
            rw (e, backfill)
              (pick_split-IsClean (s.declined_ids ++ filled) (open_candidates d s filled) k
                (open_candidates-allowed filled))
        | inr e ↦ rw (e, backfill) nil-IsClean
      ]

  -- The added people are not declined, not the asker and not shown already.
  fresh_rows-IsClean :
      (k : ℕ) → 1 ≤ k → IsClean (asker_id s.asker) shown_or_declined k (ids (fresh_rows d s k))
  unfolding fresh_rows
  fresh_rows-IsClean k pos =
      let pinned = seated d s in
      join-IsClean pinned (backfill d s (ids s.recommendations ++ ids pinned) (k - length pinned))
        (seated-IsClean k pos)
        (rw (append_assoc s.declined_ids (ids s.recommendations) (ids pinned))
          (backfill-IsClean (ids s.recommendations ++ ids pinned) (k - length pinned)))

-- A scoring pass keeps the shortlist: at most three people, each once, none of them declined, and
-- never the asker.
pub c6_score-IsShortlist : (d : Deps) (s : AgentState) → IsShortlist s → IsShortlist (c6_score d s)
unfolding c6_score scored
c6_score-IsShortlist d s h =
    let remaining = top_k - length s.recommendations in
    elim (Bool-cases (not (is_nonempty s.intent.topics) || remaining == 0)) [
      | inl e ↦ rw (e, c6_score) h
      | inr e ↦
          rw (e, c6_score)
            (join-IsClean d s s.recommendations (fresh_rows d s remaining) h
              (fresh_rows-IsClean d s remaining (ground arith)))
    ]

-- The people who survived a decline keep their rows, in front of the added ones, and a pending
-- referral is consumed.
pub c6_score_survivors :
    (d : Deps) (s : AgentState)
    → (fresh : List ScoredCandidate) × ((c6_score d s).recommendations ≡ s.recommendations ++ fresh)
      × ((c6_score d s).referred_responder_id ≡ none)
      × ((c6_score d s).declined_ids ≡ s.declined_ids)
unfolding c6_score scored
c6_score_survivors d s =
    let remaining = top_k - length s.recommendations in
    elim (Bool-cases (not (is_nonempty s.intent.topics) || remaining == 0)) [
      | inl e ↦ rw (e, c6_score) ([], sym (append-nil s.recommendations), refl, refl)
      | inr e ↦ rw (e, c6_score) (fresh_rows d s remaining, refl, refl, refl)
    ]
