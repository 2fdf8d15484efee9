-- ===== src/Store/Examples.antt =====
-- The writes at a concrete database.
use tekijin.Prelude.{
  ℕ, ◌≡◌, ◌≢◌, refl, String, Option, none, some, List, [], ◌∷◌, arith, map, select,
}
use text.Mathlib.TextEquality.{eq_iff}
use tekijin.Prelude.Int.{pos}
use tekijin.Scorer.{ScoredCandidate}
use tekijin.Store.Tables.{Question, Recommendation, Database}
use tekijin.Store.Questions.{recommendation_ids_of, delete_question}
use tekijin.Store.Shown.{
  insert_shown_recommendations, insert_from, shown_row, shown_recommendation_ids,
  latest_primary_recommendation, row_at, set_recommendation_outcome, recommendation_outcome,
}
use tekijin.Store.Notices.{
  ack_decline_notifications, ack_accepted_notifications, ack_request_notifications,
}
use tekijin.Store.Integrity.{IsConsistent}
use tekijin.Store.Delete.{IsErased, IsKept, delete_question-IsErased, delete_question-IsKept}
use tekijin.Store.Settled.{
  mark_question_resolved_first, set_recommendation_outcome_first,
  set_recommendation_outcome-recorded,
}
use tekijin.Store.Questions.{mark_question_resolved, mark_self_resolved}
use tekijin.Store.Ranks.{shown_recommendation_ids-insert, latest_primary-insert}
use tekijin.Store.Shown.{reorder_recommendation_ranks}
use tekijin.Store.Reorder.{rank_of, reorder_recommendation_ranks-ranks}
use tekijin.Prelude.{elem, false}
use tekijin.Store.Seen.{not_asked_by, not_sent_to, ack_notifications_scoped, ack_notifications_once}

abbrev question : String → ℕ → Question
question id asker = record {
  id = id;
  asker_id = asker;
  body = "見積の承認は?";
  topics = [];
  status = "open";
  session_id = some "s1";
  route = none;
  consult_method = none;
  resolved_at = none;
  resolution_kind = none;
  created_at = 1;
}

abbrev shown : ℕ → String → ℕ → Recommendation
shown id question_id person = record {
  id = id;
  question_id = question_id;
  employee_id = person;
  rank = some 1;
  score = pos 5000;
  reasons = [];
  outcome = none;
  created_at = 2;
  declined_seen_at = none;
  accepted_seen_at = none;
  request_seen_at = none;
  referred_to_employee_id = none;
}

abbrev db : Database
db = record {
  employees = 11 ∷ 12 ∷ 13 ∷ [];
  questions = question "q_1" 11 ∷ question "q_2" 12 ∷ [];
  recommendations = shown 1 "q_1" 13 ∷ [];
  messages =
      record { id = 1; recommendation_id = 1; sender_id = 13; body = "はい"; created_at = 3 } ∷ [];
  answers = [];
  events = [];
  feedback =
      record {
        stage = "c7";
        kind = "draft_edited";
        question_id = some "q_1";
        session_id = none;
        target = none;
        payload = none;
        actor_id = none;
      }
      ∷ [];
  offline_consults = [];
  eval_runs = [];
  next_recommendation = 2;
  next_message = 2;
  next_consult = 1;
  next_eval_run = 1;
}

db-IsConsistent : IsConsistent db
db-IsConsistent = record {
  askers = (refl, (refl, tt));
  shown = (refl, tt);
  people = (refl, tt);
  messages = (refl, tt);
  answers = tt;
  events = tt;
  feedback = (refl, tt);
  consults = tt;
  question_keys = (refl, (refl, tt));
  recommendation_keys = (refl, tt);
  consult_keys = tt;
  given_out = (omega arith, tt);
}

abbrev row : ℕ → ScoredCandidate
row n = record {
  person_id = n;
  name = "氏名";
  dept = none;
  score = pos 5000;
  confidence = "中";
  reasons = [];
}

abbrev shortlist : List ScoredCandidate
shortlist = row 13 ∷ row 11 ∷ []

abbrev stored : Option (Database × List ℕ) → Database
stored none = db
stored (some (after, ids)) = after

abbrev after_insert : Database
after_insert = stored (insert_shown_recommendations db "q_2" shortlist 7)

inserted : insert_shown_recommendations db "q_2" shortlist 7 ≡ some (after_insert, 2 ∷ 3 ∷ [])
unfolding insert_shown_recommendations insert_from shown_row
inserted = refl

delete_question-IsErased_example :
    (after : Database) × (delete_question db "q_1" ≡ some after) × IsErased "q_1" db after
delete_question-IsErased_example = delete_question-IsErased db "q_1"

delete_question-IsKept_example :
    (after : Database) × (delete_question db "q_1" ≡ some after)
    × IsKept "q_2" (recommendation_ids_of "q_1" db) db after
delete_question-IsKept_example =
    delete_question-IsKept db "q_1" "q_2" (ground (arith, eq_iff "q_2" "q_1"))

mark_question_resolved_first_example :
    (mark_question_resolved (mark_question_resolved db "q_1" 5) "q_1" 9
      ≡ mark_question_resolved db "q_1" 5)
    × (mark_self_resolved (mark_question_resolved db "q_1" 5) "q_1" 9
        ≡ mark_question_resolved db "q_1" 5)
mark_question_resolved_first_example = mark_question_resolved_first db "q_1" 5 9

abbrev outcome_after : Option Database → Database
outcome_after none = db
outcome_after (some after) = after

abbrev declined : Database
declined = outcome_after (set_recommendation_outcome db 1 "declined" none)

declined-write : set_recommendation_outcome db 1 "declined" none ≡ some declined
unfolding set_recommendation_outcome
declined-write = refl

set_recommendation_outcome_first_example :
    declined ≡ outcome_after (set_recommendation_outcome declined 1 "accepted" none)
set_recommendation_outcome_first_example =
    set_recommendation_outcome_first db declined
      (outcome_after (set_recommendation_outcome declined 1 "accepted" none)) 1 "declined"
      "accepted" none none declined-write (unfold set_recommendation_outcome in refl)

set_recommendation_outcome-recorded_example :
    (recommendation_outcome declined 1 ≡ some "declined")
    × ((other : ℕ)
        → other ≢ 1
        → row_at other declined.recommendations ≡ row_at other db.recommendations)
set_recommendation_outcome-recorded_example =
    set_recommendation_outcome-recorded db declined 1 "declined" none (shown 1 "q_1" 13)
      declined-write refl refl

shown_recommendation_ids-insert_example : shown_recommendation_ids after_insert "q_2" ≡ 2 ∷ 3 ∷ []
shown_recommendation_ids-insert_example =
    shown_recommendation_ids-insert db after_insert "q_2" shortlist 7 (2 ∷ 3 ∷ []) refl inserted

latest_primary-insert_example :
    (latest_primary_recommendation after_insert "q_2" ≡ some 2) × (◌≢◌ {A = Option ℕ} (some 2) none)
latest_primary-insert_example =
    latest_primary-insert db after_insert "q_2" shortlist 7 (2 ∷ 3 ∷ []) db-IsConsistent refl
      inserted

ack_notifications_scoped_example :
    (select (not_asked_by db 12) (ack_decline_notifications db 12 (1 ∷ []) 8).0.recommendations
      ≡ select (not_asked_by db 12) db.recommendations)
    × (select (not_asked_by db 12) (ack_accepted_notifications db 12 (1 ∷ []) 8).0.recommendations
        ≡ select (not_asked_by db 12) db.recommendations)
    × (select (not_sent_to 12) (ack_request_notifications db 12 (1 ∷ []) 8).0.recommendations
        ≡ select (not_sent_to 12) db.recommendations)
ack_notifications_scoped_example = ack_notifications_scoped db 12 (1 ∷ []) 8

ack_notifications_once_example :
    (let first : Database × ℕ = ack_decline_notifications declined 11 (1 ∷ []) 8 in
      ack_decline_notifications first.0 11 (1 ∷ []) 9 ≡ (first.0, 0))
    × (let first : Database × ℕ = ack_accepted_notifications declined 11 (1 ∷ []) 8 in
        ack_accepted_notifications first.0 11 (1 ∷ []) 9 ≡ (first.0, 0))
    × (let first : Database × ℕ = ack_request_notifications declined 11 (1 ∷ []) 8 in
        ack_request_notifications first.0 11 (1 ∷ []) 9 ≡ (first.0, 0))
ack_notifications_once_example = ack_notifications_once declined 11 (1 ∷ []) 8 9

reorder_recommendation_ranks-ranks_example :
    (map
        (λ n.
          rank_of
            (row_at n (reorder_recommendation_ranks after_insert (3 ∷ 2 ∷ [])).recommendations))
        (3 ∷ 2 ∷ [])
      ≡ some 1 ∷ some 2 ∷ [])
    × ((n : ℕ)
        → elem n (3 ∷ 2 ∷ []) ≡ false
        → row_at n (reorder_recommendation_ranks after_insert (3 ∷ 2 ∷ [])).recommendations
          ≡ row_at n after_insert.recommendations)
reorder_recommendation_ranks-ranks_example =
    reorder_recommendation_ranks-ranks after_insert (3 ∷ 2 ∷ []) (refl, (refl, tt))
      (
        unfold insert_shown_recommendations insert_from shown_row in refl,
        (unfold insert_shown_recommendations insert_from shown_row in refl, tt),
      )
