-- ===== src/Store/Tables.antt =====
-- models/tables.py: the tables that data/writes.py writes, with the columns that it writes or
-- reads. The Slack anchors and channel links and the knowledge units are tables that it never
-- touches. An enumeration of ids stands for the employees; a sequence counts the ids it gave out.
use tekijin.Prelude.{ℕ, String, Bool, Option, List, any, str_eq, ◌==◌}
use tekijin.Prelude.Int.{ℤ}
use tekijin.Route.{Score}
use tekijin.Scorer.{ScoredReason}

pub record Question : Type 0 where
  pub id : String
  pub asker_id : ℕ
  pub body : String
  pub topics : List String
  pub status : String
  pub session_id : Option String
  pub route : Option String
  pub consult_method : Option String
  pub resolved_at : Option ℕ
  pub resolution_kind : Option String
  pub created_at : ℕ

pub record Recommendation : Type 0 where
  pub id : ℕ
  pub question_id : String
  pub employee_id : ℕ
  pub rank : Option ℕ
  pub score : ℤ
  pub reasons : List ScoredReason
  pub outcome : Option String
  pub created_at : ℕ
  pub declined_seen_at : Option ℕ
  pub accepted_seen_at : Option ℕ
  pub request_seen_at : Option ℕ
  pub referred_to_employee_id : Option ℕ

pub record Message : Type 0 where
  pub id : ℕ
  pub recommendation_id : ℕ
  pub sender_id : ℕ
  pub body : String
  pub created_at : ℕ

pub record StoredAnswer : Type 0 where
  pub id : String
  pub question_id : String
  pub responder_id : ℕ
  pub body : String
  pub topic : Option String
  pub embedding : Option (List ℕ)
  pub created_at : ℕ
  pub reuse_count : ℕ
  pub was_helpful : Option Bool

-- `meta` is kept as its serialised text.
pub record Event : Type 0 where
  pub question_id : String
  pub stage : String
  pub started_at : ℕ
  pub ended_at : ℕ
  pub meta : Option String

-- A value of a feedback payload: a text, or anything else by its serialised form.
pub data PayloadValue : Type 0 where
  free_text : String → PayloadValue
  other_value : String → PayloadValue

abbrev pub Payload : Type 0
Payload = List (String × PayloadValue)

pub record Feedback : Type 0 where
  pub stage : String
  pub kind : String
  pub question_id : Option String
  pub session_id : Option String
  pub target : Option String
  pub payload : Option Payload
  pub actor_id : Option ℕ

pub record OfflineConsult : Type 0 where
  pub id : ℕ
  pub question_id : String
  pub responder_id : ℕ
  pub asker_id : Option ℕ
  pub topics : List String
  pub asked : Option String
  pub answer_body : String
  pub resolution : String

pub record EvalRun : Type 0 where
  pub id : ℕ
  pub top1_accuracy : Option Score
  pub recall_at_3 : Option Score
  pub mrr : Option Score
  pub route_accuracy : Option Score
  pub n_ranked : Option ℕ
  pub n_routed : Option ℕ

pub record Database : Type 0 where
  pub employees : List ℕ
  pub questions : List Question
  pub recommendations : List Recommendation
  pub messages : List Message
  pub answers : List StoredAnswer
  pub events : List Event
  pub feedback : List Feedback
  pub offline_consults : List OfflineConsult
  pub eval_runs : List EvalRun
  pub next_recommendation : ℕ
  pub next_message : ℕ
  pub next_consult : ℕ
  pub next_eval_run : ℕ

-- The keys and foreign keys, as tests on a row.
abbrev pub is_question : String → Question → Bool
is_question id q = str_eq q.id id

abbrev pub has_question : Database → String → Bool
has_question db id = any (is_question id) db.questions

abbrev pub is_recommendation : ℕ → Recommendation → Bool
is_recommendation id r = r.id == id

abbrev pub shown_for : String → Recommendation → Bool
shown_for id r = str_eq r.question_id id

abbrev pub answers_of : String → StoredAnswer → Bool
answers_of id a = str_eq a.question_id id

abbrev pub event_of : String → Event → Bool
event_of id e = str_eq e.question_id id

abbrev pub consult_of : String → OfflineConsult → Bool
consult_of id c = str_eq c.question_id id
