-- ===== src/Prelude/Text.antt =====
-- Texts as the program handles them: whether one is empty, joining, comparing.
use Prim.Native.String.{String, ◌++◌}
use text.Mathlib.Text.{◌==◌}
use mathlib.Core.Bool.{Bool, false, not}
use mathlib.Core.Option.{Option, none, some}
use mathlib.Core.List.{List, [], ◌∷◌}

abbrev pub str_eq : String → String → Bool
str_eq s t = s == t

-- `bool(s)`
abbrev pub is_text : String → Bool
is_text s = not (str_eq s "")

-- `s or ""`
abbrev pub or_empty : Option String → String
or_empty none = ""
or_empty (some s) = s

abbrev pub is_str : Option String → String → Bool
is_str none t = false
is_str (some s) t = str_eq s t

-- `sep.join(parts)`
abbrev pub join : String → List String → String
join sep [] = ""
join sep (s ∷ []) = s
join sep (s ∷ t ∷ parts) = s ++ (sep ++ join sep (t ∷ parts))
