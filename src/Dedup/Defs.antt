-- ===== src/Dedup/Defs.antt =====
-- slack/dedup.py, `SeenEventIds`.
use tekijin.Prelude.{
  ℕ, String, Bool, true, false, ◌||◌, List, [], ◌∷◌, ◌++◌, ltb, length, if◌then◌else◌, str_eq, tail,
}

pub record SeenEventIds : Type 0 where
  pub max_size : ℕ
  pub seen : List String

-- `event_id in self._seen`
abbrev pub contains : String → List String → Bool
contains id [] = false
contains id (x ∷ seen) = str_eq x id || contains id seen

abbrev pub remove : String → List String → List String
remove id [] = []
remove id (x ∷ seen) = if str_eq x id then seen else x ∷ remove id seen

-- `popitem(last=False)` under `if len(self._seen) > self._max_size`.
unfoldable pub evict : ℕ → List String → List String
evict max_size seen = if ltb max_size (length seen) then tail seen else seen

unfoldable pub seen_before : SeenEventIds → String → SeenEventIds × Bool
seen_before s id =
    if contains id s.seen
    then (record s { seen = remove id s.seen ++ (id ∷ []) }, true)
    else (record s { seen = evict s.max_size (s.seen ++ (id ∷ [])) }, false)

-- The state after a sequence of deliveries.
unfoldable pub after_all : SeenEventIds → List String → SeenEventIds
after_all s [] = s
after_all s (id ∷ delivered) = after_all (seen_before s id).0 delivered
