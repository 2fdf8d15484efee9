-- ===== src/Store/Log.antt =====
-- The writes of data/writes.py as values, and a history of them.
use tekijin.Prelude.{ℕ, String, Option, none, some, List, ◌≡◌}
use tekijin.Scorer.{ScoredCandidate}
use tekijin.Store.Tables.{Database, EvalRun, OfflineConsult}
use tekijin.Store.Questions
use tekijin.Store.Questions.{EventRow}
use tekijin.Store.Shown
use tekijin.Store.Notices

pub data Write : Type 0 where
  persist_question : String → ℕ → String → ℕ → Option String → Write
  delete_question : String → Write
  update_question_topics : String → List String → Write
  update_question_route : String → String → Write
  reopen_question_for_handoff : String → Write
  update_question_body : String → String → Write
  update_question_consult_method : String → String → Write
  record_events : String → List EventRow → Write
  mark_question_resolved : String → ℕ → Write
  mark_self_resolved : String → ℕ → Write
  insert_eval_run : EvalRun → Write
  insert_shown_recommendations : String → List ScoredCandidate → ℕ → Write
  reorder_recommendation_ranks : List ℕ → Write
  create_answer : String → String → ℕ → String → Option String → Option (List ℕ) → ℕ → Write
  set_recommendation_outcome : ℕ → String → Option ℕ → Write
  ack_decline_notifications : ℕ → List ℕ → ℕ → Write
  ack_accepted_notifications : ℕ → List ℕ → ℕ → Write
  ack_request_notifications : ℕ → List ℕ → ℕ → Write
  record_offline_consult : OfflineConsult → Write

-- The database of a result that also returns a value.
abbrev pub database_of : {A : Type 0} → Option (Database × A) → Option Database
database_of none = none
database_of (some (db, a)) = some db

-- What a write does to the database; `none` where it is refused.
unfoldable pub apply : Write → Database → Option Database
apply (persist_question id asker body now session) db =
    Questions.persist_question db id asker body now session
apply (delete_question id) db = Questions.delete_question db id
apply (update_question_topics id topics) db = some (Questions.update_question_topics db id topics)
apply (update_question_route id route) db = some (Questions.update_question_route db id route)
apply (reopen_question_for_handoff id) db = some (Questions.reopen_question_for_handoff db id)
apply (update_question_body id body) db = some (Questions.update_question_body db id body)
apply (update_question_consult_method id method) db =
    some (Questions.update_question_consult_method db id method)
apply (record_events id rows) db = Questions.record_events db id rows
apply (mark_question_resolved id t) db = some (Questions.mark_question_resolved db id t)
apply (mark_self_resolved id t) db = some (Questions.mark_self_resolved db id t)
apply (insert_eval_run metrics) db = some (Questions.insert_eval_run db metrics).0
apply (insert_shown_recommendations id recs now) db =
    database_of (Shown.insert_shown_recommendations db id recs now)
apply (reorder_recommendation_ranks ids) db = some (Shown.reorder_recommendation_ranks db ids)
apply (create_answer uid id responder body topic embedding now) db =
    database_of (Questions.create_answer db uid id responder body topic embedding now)
apply (set_recommendation_outcome id outcome person) db =
    Shown.set_recommendation_outcome db id outcome person
apply (ack_decline_notifications asker ids t) db =
    some (Notices.ack_decline_notifications db asker ids t).0
apply (ack_accepted_notifications asker ids t) db =
    some (Notices.ack_accepted_notifications db asker ids t).0
apply (ack_request_notifications responder ids t) db =
    some (Notices.ack_request_notifications db responder ids t).0
apply (record_offline_consult row) db = database_of (Questions.record_offline_consult db row)

-- A history of writes that the database accepts.
pub data History (db : Database) : Database → Type 0 where
  begin : History db db
  write :
      {before after : Database} (w : Write)
      → History db before
      → apply w before ≡ some after
      → History db after
