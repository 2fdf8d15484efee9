-- ===== src/Store/Kept.antt =====
-- Every write of data/writes.py keeps the keys and the foreign keys in order.
mod Changed
mod Added
mod Listed
use mathlib.Core.Path.{subst}
use tekijin.Prelude.{
  ℕ, ◌≡◌, refl, String, Bool, true, false, not, ◌||◌, Option, none, some, List, if◌then◌else◌, any,
  some-inj, Bool-cases, inl, inr, ◌⊎◌, is_nonempty, arith,
}
use tekijin.Store.Rows.{update, delete}
use tekijin.Store.Tables.{Question, Recommendation, EvalRun, Database}
use tekijin.Store.Questions
use tekijin.Store.Questions.{reopened}
use tekijin.Store.Shown
use tekijin.Store.Shown.{update_recommendations, is_pending, outcome_values, known_target}
use tekijin.Store.Notices
use tekijin.Store.Notices.{
  acknowledge, is_unseen_decline, see_decline, is_unseen_accept, see_accept, is_unseen_request,
  see_request,
}
use tekijin.Store.Log.{
  Write, persist_question, delete_question, update_question_topics, update_question_route,
  reopen_question_for_handoff, update_question_body, update_question_consult_method, record_events,
  mark_question_resolved, mark_self_resolved, insert_eval_run, insert_shown_recommendations,
  reorder_recommendation_ranks, create_answer, set_recommendation_outcome,
  ack_decline_notifications, ack_accepted_notifications, ack_request_notifications,
  record_offline_consult, apply, database_of, History, begin, write,
}
use tekijin.Store.Integrity.{IsConsistent}
use Changed.{
  update_questions-IsConsistent, update_recommendations-IsConsistent, delete_question-IsConsistent,
  reorder_from-IsConsistent,
}
use Added.{
  persist_question-IsConsistent, record_events-IsConsistent, create_answer-IsConsistent,
  record_offline_consult-IsConsistent,
}
use Listed.{insert_from-IsConsistent}

if_accepted :
    (b : Bool) (x after : Database)
    → (if b then some x else none) ≡ some after
    → (b ≡ true) × (x ≡ after)
if_accepted true x after e = (refl, some-inj e)
if_accepted false x after e = cc

-- The outcome's columns are no key of the row.
set_outcome-IsConsistent :
    (db after : Database) (id : ℕ) (outcome : String) (person : Option ℕ)
    → Shown.set_recommendation_outcome db id outcome person ≡ some after
    → IsConsistent db
    → IsConsistent after
unfolding Shown.set_recommendation_outcome
set_outcome-IsConsistent db after id outcome person e h =
    let (fine, same) =
      if_accepted (known_target db person || not (any (is_pending id) db.recommendations)) _ after
        e in
    subst IsConsistent same (
      update_recommendations-IsConsistent db (is_pending id) (outcome_values outcome person)
        (λ r. key person r) (λ r. question person r) (λ r. who person r) h)
  where
    key : (p : Option ℕ) (r : Recommendation) → (outcome_values outcome p r).id ≡ r.id
    key none r = refl
    key (some n) r = refl

    question :
        (p : Option ℕ) (r : Recommendation)
        → (outcome_values outcome p r).question_id ≡ r.question_id
    question none r = refl
    question (some n) r = refl

    who :
        (p : Option ℕ) (r : Recommendation)
        → (outcome_values outcome p r).employee_id ≡ r.employee_id
    who none r = refl
    who (some n) r = refl

-- An acknowledgement that runs, or is skipped for an empty list.
acknowledge-IsConsistent :
    (db : Database) (run : Bool) (hit : Recommendation → Bool)
    (change : Recommendation → Recommendation)
    → ((r : Recommendation) → (change r).id ≡ r.id)
    → ((r : Recommendation) → (change r).question_id ≡ r.question_id)
    → ((r : Recommendation) → (change r).employee_id ≡ r.employee_id)
    → IsConsistent db
    → IsConsistent (if run then acknowledge hit change db else (db, 0)).0
acknowledge-IsConsistent db true hit change key question person h =
    update_recommendations-IsConsistent db hit change key question person h
acknowledge-IsConsistent db false hit change key question person h = h

-- An UPDATE of the questions, at a write that is never refused.
updated :
    (db after : Database) (hit : Question → Bool) (change : Question → Question)
    → ((q : Question) → (change q).id ≡ q.id)
    → ((q : Question) → (change q).asker_id ≡ q.asker_id)
    → some (record db { questions = update hit change db.questions }) ≡ some after
    → IsConsistent db
    → IsConsistent after
updated db after hit change key asker e h =
    subst IsConsistent (some-inj e) (update_questions-IsConsistent db hit change key asker h)

-- No key is among the evaluation runs.
eval_run-IsConsistent :
    (db : Database) (runs : List EvalRun) (next : ℕ)
    → IsConsistent db
    → IsConsistent (record db { eval_runs = runs; next_eval_run = next })
eval_run-IsConsistent db runs next h = record {
  askers = h.askers;
  shown = h.shown;
  people = h.people;
  messages = h.messages;
  answers = h.answers;
  events = h.events;
  feedback = h.feedback;
  consults = h.consults;
  question_keys = h.question_keys;
  recommendation_keys = h.recommendation_keys;
  consult_keys = h.consult_keys;
  given_out = h.given_out;
}

-- Every write that the database accepts keeps the tables consistent.
pub apply-IsConsistent :
    (w : Write) (db after : Database)
    → IsConsistent db
    → apply w db ≡ some after
    → IsConsistent after
unfolding apply Questions.update_question_topics Questions.update_question_route reopened
    Questions.reopen_question_for_handoff Questions.update_question_body
    Questions.update_question_consult_method Questions.mark_question_resolved
    Questions.mark_self_resolved Questions.insert_eval_run Shown.insert_shown_recommendations
    Shown.reorder_recommendation_ranks Notices.ack_decline_notifications
    Notices.ack_accepted_notifications Notices.ack_request_notifications
apply-IsConsistent (persist_question id asker body now session) db after h e =
    persist_question-IsConsistent db after id asker body now session e h
apply-IsConsistent (delete_question id) db after h e = delete_question-IsConsistent db after id e h
apply-IsConsistent (update_question_topics id topics) db after h e =
    updated db after _ _ (λ q. refl) (λ q. refl) e h
apply-IsConsistent (update_question_route id route) db after h e =
    updated db after _ _ (λ q. refl) (λ q. refl) e h
apply-IsConsistent (reopen_question_for_handoff id) db after h e =
    updated db after _ _ (λ q. refl) (λ q. refl) e h
apply-IsConsistent (update_question_body id body) db after h e =
    updated db after _ _ (λ q. refl) (λ q. refl) e h
apply-IsConsistent (update_question_consult_method id method) db after h e =
    updated db after _ _ (λ q. refl) (λ q. refl) e h
apply-IsConsistent (record_events id rows) db after h e =
    record_events-IsConsistent db after id rows e h
apply-IsConsistent (mark_question_resolved id t) db after h e =
    updated db after _ _ (λ q. refl) (λ q. refl) e h
apply-IsConsistent (mark_self_resolved id t) db after h e =
    updated db after _ _ (λ q. refl) (λ q. refl) e h
apply-IsConsistent (insert_eval_run metrics) db after h e = subst IsConsistent (some-inj e) (
    eval_run-IsConsistent db (Questions.insert_eval_run db metrics).0.eval_runs
      (Questions.insert_eval_run db metrics).0.next_eval_run h)
apply-IsConsistent (insert_shown_recommendations id recs now) db after h e =
    insert_from-IsConsistent id now 1 recs db after e h
apply-IsConsistent (reorder_recommendation_ranks ids) db after h e =
    subst IsConsistent (some-inj e) (reorder_from-IsConsistent 1 ids db h)
apply-IsConsistent (create_answer uid id responder body topic embedding now) db after h e =
    create_answer-IsConsistent db after uid id responder body topic embedding now e h
apply-IsConsistent (set_recommendation_outcome id outcome person) db after h e =
    set_outcome-IsConsistent db after id outcome person e h
apply-IsConsistent (ack_decline_notifications asker ids t) db after h e =
    subst IsConsistent (some-inj e) (
      acknowledge-IsConsistent db (is_nonempty ids) (is_unseen_decline db asker ids) (see_decline t)
        (λ r. refl) (λ r. refl) (λ r. refl) h)
apply-IsConsistent (ack_accepted_notifications asker ids t) db after h e =
    subst IsConsistent (some-inj e) (
      acknowledge-IsConsistent db (is_nonempty ids) (is_unseen_accept db asker ids) (see_accept t)
        (λ r. refl) (λ r. refl) (λ r. refl) h)
apply-IsConsistent (ack_request_notifications responder ids t) db after h e =
    subst IsConsistent (some-inj e) (
      acknowledge-IsConsistent db (is_nonempty ids) (is_unseen_request db responder ids)
        (see_request t) (λ r. refl) (λ r. refl) (λ r. refl) h)
apply-IsConsistent (record_offline_consult row) db after h e =
    record_offline_consult-IsConsistent db after row e h

-- The tables stay consistent through every history of accepted writes: the question or the
-- recommendation of each row is there, askers and shown people are employees, questions and
-- recommendations have keys of their own, and a question has one write-up at most.
pub History-IsConsistent :
    {db after : Database} → History db after → IsConsistent db → IsConsistent after
History-IsConsistent begin h = h
History-IsConsistent (write {before} {after} w past e) h =
    apply-IsConsistent w before after (History-IsConsistent past h) e
