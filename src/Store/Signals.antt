-- ===== src/Store/Signals.antt =====
-- data/feedback.py: the corrections that the asking side makes, as an append-only table.
use Prim.Native.Nat.{zero}
use Prim.Native.String.{count}
use tekijin.Prelude.{
  ℕ, suc, String, ◌<>◌, ◌&&◌, Bool, true, Option, none, some, [], ◌∷◌, ◌++◌, if◌then◌else◌, ltb,
  elem, select, str_eq, length,
}
use tekijin.Store.Tables.{
  Database, Feedback, Payload, PayloadValue, free_text, other_value, has_question,
}
use tekijin.Store.Questions.{guard}

abbrev pub max_payload_value_chars : ℕ
max_payload_value_chars = 8000

abbrev pub truncation_mark : String
truncation_mark = "…[truncated]"

-- `value[:n]`, by characters.
abbrev pub take_chars : ℕ → String → String
take_chars zero s = ""
take_chars (suc n) String.[] = ""
take_chars (suc n) (String.◌∷◌ c s) = String.◌∷◌ c (take_chars n s)

abbrev pub bounded_value : ℕ → PayloadValue → PayloadValue
bounded_value limit (free_text t) =
    if ltb limit (count t) then free_text (take_chars limit t <> truncation_mark) else free_text t
bounded_value limit (other_value v) = other_value v

abbrev pub bounded_entries : ℕ → Payload → Payload
bounded_entries limit [] = []
bounded_entries limit ((key, value) ∷ rest) =
    (key, bounded_value limit value) ∷ bounded_entries limit rest

unfoldable pub bounded_payload : Option Payload → Option Payload
bounded_payload none = none
bounded_payload (some entries) = some (bounded_entries max_payload_value_chars entries)

abbrev pub known_row : Database → Option String → Bool
known_row db none = true
known_row db (some id) = has_question db id

abbrev pub known_actor : Database → Option ℕ → Bool
known_actor db none = true
known_actor db (some id) = elem id db.employees

-- The row comes with the payload as it was given.
unfoldable pub record_feedback : Database → Feedback → Option Database
record_feedback db row =
    guard (known_row db row.question_id && known_actor db row.actor_id) (record db {
      feedback = db.feedback ++ (record row { payload = bounded_payload row.payload } ∷ []);
    })

-- How many rows a stage has; a stage without one is left out by the query.
unfoldable pub feedback_count : Database → String → ℕ
feedback_count db stage = length (select (λ (f : Feedback). str_eq f.stage stage) db.feedback)
