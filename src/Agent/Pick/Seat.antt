-- ===== src/Agent/Pick/Seat.antt =====
-- Who is seated at rank 1: agent/nodes.py, `c6_score`, the two pins.
use tekijin.Prelude.{
  ℕ, ◌≡◌, refl, true, some, List, [], ◌∷◌, ◌++◌, arith, is_nonempty, Option-cases, inl, inr, head?,
  Bool-cases, length, ◌<◌, ◌-◌, ◌==◌, ap, ◌∙◌,
}
use tekijin.Scorer.{ScoredCandidate, ids}
use tekijin.Agent.State.{AgentState}
use tekijin.Agent.Deps.{Deps}
use tekijin.Agent.Pick.{
  note_one, note_unmet_branch, requested_branch, rank_query, referral_pin, referral_reason, vouch,
  seat, seated, backfill, top_k, fresh_rows, scored, c6_score,
}

note_unmet_branch-one :
    (d : Deps) (s : AgentState) (c : ScoredCandidate)
    → (noted : ScoredCandidate) × (note_unmet_branch d s (c ∷ []) ≡ noted ∷ [])
      × (noted.person_id ≡ c.person_id)
unfolding note_unmet_branch
note_unmet_branch-one d s c = elim (Option-cases (requested_branch d s)) [
  | inl e ↦ (c, rw (e, note_unmet_branch), refl)
  | inr (branch, e) ↦
      (note_one d branch c, rw (e, note_unmet_branch), unfold note_one in ground arith)
]

-- A referral that the scorer finds is the only seated row, with the referral as its first reason.
seated-referral :
    (d : Deps) (s : AgentState) (n : ℕ) (c : ScoredCandidate)
    → referral_pin s ≡ some n
    → d.scorer.rank (rank_query d s) (n ∷ []) 1 ≡ c ∷ []
    → (first : ScoredCandidate) × (seated d s ≡ first ∷ [])
      × (first.person_id ≡ n)
      × (head? first.reasons ≡ some referral_reason)
unfolding seated seat vouch
seated-referral d s n c pin found =
    let from = d.scorer.rank_from (rank_query d s) (n ∷ []) 1 c.person_id in
    let (noted, e, same) = note_unmet_branch-one d s c in
    (
      record noted { reasons = referral_reason ∷ noted.reasons },
      rw (pin, seated) (rw found (rw (e, vouch))),
      ground (arith, from (rw found (ground arith))),
      refl,
    )

-- With a topic and a free slot the pass appends the new rows.
pub c6_score-added :
    (d : Deps) (s : AgentState)
    → is_nonempty s.intent.topics ≡ true
    → length s.recommendations < top_k
    → (c6_score d s).recommendations
      ≡ s.recommendations ++ fresh_rows d s (top_k - length s.recommendations)
unfolding c6_score scored
c6_score-added d s topics room = elim (Bool-cases (top_k - length s.recommendations == 0)) [
  | inl e ↦ absurd (ground arith)
  | inr e ↦ rw (topics, c6_score) (rw (e, c6_score))
]

-- If the shortlist is empty, there is a topic, and the person whom the responder named may be
-- seated and is found by the scorer, then that person heads the new shortlist, with the referral
-- as the first reason.
pub c6_score-referral :
    (d : Deps) (s : AgentState) (n : ℕ) (c : ScoredCandidate)
    → s.recommendations ≡ []
    → is_nonempty s.intent.topics ≡ true
    → referral_pin s ≡ some n
    → d.scorer.rank (rank_query d s) (n ∷ []) 1 ≡ c ∷ []
    → (first : ScoredCandidate) × (rest : List ScoredCandidate) × ((c6_score d s).recommendations
        ≡ first ∷ rest)
      × (first.person_id ≡ n)
      × (head? first.reasons ≡ some referral_reason)
unfolding fresh_rows
c6_score-referral d s n c empty topics pin found =
    let (first, e, same, vouched) = seated-referral d s n c pin found in
    let short = top_k - length s.recommendations in
    let rest =
      backfill d s (ids s.recommendations ++ ids (first ∷ [])) (short - length (first ∷ [])) in
    let opened : fresh_rows d s short ≡ first ∷ rest = rw (e, fresh_rows) in
    (
      first,
      rest,
      c6_score-added d s topics (omega (arith, ap (λ (l : List ScoredCandidate). length l) empty))
          ∙ (ap (λ l. l ++ fresh_rows d s short) empty ∙ opened),
      same,
      vouched,
    )
