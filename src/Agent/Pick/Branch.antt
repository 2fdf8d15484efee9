-- ===== src/Agent/Pick/Branch.antt =====
-- The requested branch as a condition: agent/nodes.py, `_split_by_branch`, `_note_unmet_branch` and
-- the constrained part of `c6_score`.
use tekijin.Prelude.{ℕ, ◌≡◌, String, true, false, List, [], ◌∷◌, ◌++◌, select, length, All, ◌≤◌}
use tekijin.Scorer.{ScoredReason, ScoredCandidate}
use tekijin.Agent.State.{AgentState}
use tekijin.Agent.Deps.{Deps}
use tekijin.Agent.Pick.{is_at, constraint_note, open_candidates}

-- A row whose last reason is the note that the branch could not be honoured.
abbrev pub IsNoted : String → ScoredCandidate → Type 0
IsNoted branch c =
    (earlier : List ScoredReason) × (c.reasons ≡ earlier ++ (constraint_note branch ∷ []))

abbrev pub IsAt : Deps → String → ScoredCandidate → Type 0
IsAt d branch c = is_at d branch c.person_id ≡ true

abbrev pub IsElsewhere : Deps → String → ScoredCandidate → Type 0
IsElsewhere d branch c = (is_at d branch c.person_id ≡ false) × IsNoted branch c

-- In front the rows of the branch, in their order and without a note, behind them rows from
-- elsewhere with one, as many as there are slots at most.
pub record IsBranchFirst (d : Deps) (branch : String) (here : List ScoredCandidate) (slots : ℕ)
    (rows : List ScoredCandidate) : Type 0 where
  pub there : List ScoredCandidate
  pub split : rows ≡ here ++ there
  pub at : All (IsAt d branch) here
  pub elsewhere : All (IsElsewhere d branch) there
  pub few : length rows ≤ slots

-- The people of the branch whom scoring may still show.
abbrev pub branch_people : Deps → AgentState → String → List ℕ → List ℕ
branch_people d s branch filled = select (is_at d branch) (open_candidates d s filled)
