-- ===== src/Store/Threads.antt =====
-- data/messages.py: the chat threads of accepted hand-offs; data/handoff.py: the asker's choice.
use tekijin.Prelude.{
  ℕ, suc, String, Bool, not, ◌&&◌, ◌||◌, Option, none, some, List, [], ◌∷◌, ◌++◌, if◌then◌else◌,
  is_str, is_text, or_empty, elem, any, select, ltb, ◌==◌,
}
use tekijin.Store.Tables.{Question, Recommendation, Message, Database, is_recommendation}
use tekijin.Store.Questions.{question_at, guard}
use tekijin.Store.Shown.{row_at}

-- What `thread_parties` returns, without the names and the departments.
pub record Parties : Type 0 where
  pub question_id : String
  pub question_title : String
  pub asker_id : ℕ
  pub responder_id : ℕ
  pub accepted_at : ℕ

abbrev pub or_else {ℓ} : {A : Type ℓ} → Option A → A → A
or_else none a = a
or_else (some b) a = b

-- `func.coalesce(consult_method, "chat") != "direct"`
abbrev pub is_chat : Question → Bool
is_chat q = not (is_str q.consult_method "direct")

parties_of : Recommendation → Question → Parties
parties_of r q = record {
  question_id = q.id;
  question_title = q.body;
  asker_id = q.asker_id;
  responder_id = r.employee_id;
  accepted_at = or_else q.resolved_at r.created_at;
}

-- The joins over the accepted recommendation of an id and its question.
unfoldable pub thread_parties : Database → ℕ → Option Parties
unfolding parties_of
thread_parties db thread_id = elim (row_at thread_id db.recommendations) [
  | none ↦ none
  | some r ↦ elim (question_at r.question_id db.questions) [
    | none ↦ none
    | some q ↦
        if is_str r.outcome "accepted"
          && (is_chat q && (elem q.asker_id db.employees && elem r.employee_id db.employees))
        then some (parties_of r q)
        else none
  ]
]

unfoldable pub is_thread_party : Database → ℕ → ℕ → Bool
is_thread_party db thread_id employee_id = elim (thread_parties db thread_id) [
  | none ↦ Bool.false
  | some parties ↦ parties.asker_id == employee_id || parties.responder_id == employee_id
]

abbrev pub message_on : ℕ → Message → Bool
message_on thread_id m = m.recommendation_id == thread_id

-- `ORDER BY created_at, id`
abbrev pub sent_before : Message → Message → Bool
sent_before a b = ltb a.created_at b.created_at || (a.created_at == b.created_at && ltb a.id b.id)

abbrev pub file_message : Message → List Message → List Message
file_message m [] = m ∷ []
file_message m (x ∷ rows) = if sent_before x m then x ∷ file_message m rows else m ∷ x ∷ rows

abbrev pub by_time : List Message → List Message
by_time [] = []
by_time (m ∷ rows) = file_message m (by_time rows)

unfoldable pub messages_for_thread : Database → ℕ → List Message
messages_for_thread db thread_id = by_time (select (message_on thread_id) db.messages)

-- Refused without its recommendation or its sender.
unfoldable pub create_message : Database → ℕ → ℕ → String → ℕ → Option Database
create_message db thread_id sender_id body now =
    guard (any (is_recommendation thread_id) db.recommendations && elem sender_id db.employees)
      (record db {
        messages =
            db.messages
            ++ (record {
              id = db.next_message;
              recommendation_id = thread_id;
              sender_id = sender_id;
              body = body;
              created_at = now;
            }
                ∷ []);
        next_message = suc db.next_message;
      })

-- An unknown question, and a method that was not chosen, count as "chat".
unfoldable pub question_consult_method : Database → Option String → String
question_consult_method db none = "chat"
question_consult_method db (some id) = elim (question_at id db.questions) [
  | none ↦ "chat"
  | some q ↦ if is_text (or_empty q.consult_method) then or_empty q.consult_method else "chat"
]
