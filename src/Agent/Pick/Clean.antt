-- ===== src/Agent/Pick/Clean.antt =====
-- Lists of people that scoring may show: agent/nodes.py, `c6_score` and its helpers.
use tekijin.Prelude.{
  ℕ, ◌-◌, ◌≤◌, ◌≡◌, true, false, Option, List, [], ◌++◌, arith, length, elem, elem-append, Distinct,
  Distinct-append, is_id, length-append,
}
use tekijin.Scorer.{ids, RankQuery, Ranker, length-ids}

-- At most `k` people, each once, none of them banned, and never the asker.
pub record IsClean (asker : Option ℕ) (banned : List ℕ) (k : ℕ) (people : List ℕ) : Type 0 where
  pub few : length people ≤ k
  pub distinct : Distinct people
  pub allowed : (n : ℕ) → elem n people ≡ true → (elem n banned ≡ false) × (is_id asker n ≡ false)

module _ {asker : Option ℕ} {banned : List ℕ} {k : ℕ} where
  pub nil-IsClean : IsClean asker banned k []
  nil-IsClean = record { few = omega arith; distinct = tt; allowed = λ n h. ground arith }

  pub append-IsClean :
      (xs ys : List ℕ)
      → IsClean asker banned k xs
      → IsClean asker (banned ++ xs) (k - length xs) ys
      → IsClean asker banned k (xs ++ ys)
  append-IsClean xs ys cx cy = record {
    few = omega (arith, length-append {0} xs ys, cx.few, cy.few);
    distinct =
        Distinct-append xs ys cx.distinct cy.distinct
          (λ n h. ground (arith, cy.allowed n, elem-append n banned xs));
    allowed = λ n h.
        ground (arith, elem-append n xs ys, elem-append n banned xs, cx.allowed n, cy.allowed n);
  }

  -- The rows of a scoring pass over people who are not banned.
  pub rank-IsClean :
      (r : Ranker) (q : RankQuery) (people : List ℕ)
      → q.asker_id ≡ asker
      → ((n : ℕ) → elem n people ≡ true → elem n banned ≡ false)
      → IsClean asker banned k (ids (r.rank q people k))
  rank-IsClean r q people e free = record {
    few = omega (arith, length-ids (r.rank q people k), r.rank_length q people k);
    distinct = r.rank_distinct q people k;
    allowed = λ n h. ground (arith, r.rank_from q people k n h, free n);
  }

pub IsClean-mono :
    {asker : Option ℕ} {banned people : List ℕ} (j k : ℕ)
    → j ≤ k
    → IsClean asker banned j people
    → IsClean asker banned k people
IsClean-mono j k h c = record {
  few = omega (arith, c.few);
  distinct = c.distinct;
  allowed = c.allowed;
}
