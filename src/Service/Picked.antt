-- ===== src/Service/Picked.antt =====
-- Taking one row out of the shortlist: api/service.py, `select_handoff_candidate`.
use tekijin.Prelude.{
  ℕ, zero, suc, ◌≡◌, refl, Option, none, some, List, [], ◌∷◌, arith, length, elem, Distinct,
}
use tekijin.Scorer.{ScoredCandidate, ids}
use tekijin.Agent.{IsClean}
use tekijin.Service.Draft.{pop, keep_head}

keep_head-some :
    {A : Type 0} (x : A) (o : Option (A × List A)) {y : A} {rest : List A}
    → keep_head x o ≡ some (y, rest)
    → (back : List A) × (o ≡ some (y, back)) × (rest ≡ x ∷ back)
keep_head-some x none e = cc
keep_head-some x (some (z, back)) e = (back, cc, cc)

-- The same people, as many, none twice.
pub record IsReordered (old new : List ScoredCandidate) : Type 0 where
  pub same_length : length (ids new) ≡ length (ids old)
  pub same_people : (n : ℕ) → elem n (ids new) ≡ elem n (ids old)
  pub distinct : Distinct (ids old) → Distinct (ids new)

front-IsReordered :
    (x y : ScoredCandidate) (xs back : List ScoredCandidate)
    → IsReordered xs (y ∷ back)
    → IsReordered (x ∷ xs) (y ∷ x ∷ back)
front-IsReordered x y xs back h = record {
  same_length = ground (arith, h.same_length);
  same_people = λ n. ground (arith, h.same_people n);
  distinct = λ u. let rest = h.distinct u.1 in ground (arith, h.same_people x.person_id);
}

pub pop-IsReordered :
    (index : ℕ) (recs : List ScoredCandidate) {y : ScoredCandidate} {rest : List ScoredCandidate}
    → pop index recs ≡ some (y, rest)
    → IsReordered recs (y ∷ rest)
pop-IsReordered index [] e = cc
pop-IsReordered zero (x ∷ xs) {y} {rest} e =
    let same : (x ≡ y) × (xs ≡ rest) = (cc, cc) in
    rw (← same.0, ← same.1)
      (record { same_length = refl; same_people = λ n. refl; distinct = λ u. u })
pop-IsReordered (suc index) (x ∷ xs) {y} {rest} e =
    let (back, e', same) = keep_head-some x (pop index xs) e in
    rw same (front-IsReordered x y xs back (pop-IsReordered index xs e'))

-- Another order of the shortlist is as good.
pub IsReordered-IsClean :
    {asker : Option ℕ} {banned : List ℕ} {k : ℕ} {old new : List ScoredCandidate}
    → IsReordered old new
    → IsClean asker banned k (ids old)
    → IsClean asker banned k (ids new)
IsReordered-IsClean h c = record {
  few = rw h.same_length c.few;
  distinct = h.distinct c.distinct;
  allowed = λ n e. c.allowed n (rw (← h.same_people n) e);
}
