-- ===== src/Store/Seen.antt =====
-- Who may acknowledge what, and once: data/writes.py, the three `ack_*_notifications`.

use mathlib.Core.Path.{subst, fun_ext, sym}
use tekijin.Prelude.{
  ℕ, ◌≡◌, refl, Bool, true, false, not, ◌&&◌, List, arith, if◌then◌else◌, select, is_nonempty, ◌==◌,
}
use tekijin.Store.Rows.{any-update, select-update, count-update_again, update-update_again}
use tekijin.Store.Tables.{shown_for, Recommendation, Database}
use tekijin.Store.Notices.{
  asked_by, acknowledge, is_unseen_decline, see_decline, ack_decline_notifications,
  is_unseen_accept, see_accept, ack_accepted_notifications, is_unseen_request, is_selected,
  see_request, ack_request_notifications,
}

once :
    (run : Bool) (hit : Recommendation → Bool) (change again : Recommendation → Recommendation)
    (db : Database)
    → ((r : Recommendation) → hit (change r) ≡ false)
    → (let first : Database × ℕ = if run then acknowledge hit change db else (db, 0) in
        (if run then acknowledge hit again first.0 else (first.0, 0)) ≡ (first.0, 0))
once true hit change again db done =
    rw (count-update_again hit change db.recommendations done)
      (rw (update-update_again hit change again db.recommendations done) refl)
once false hit change again db done = refl

kept :
    (run : Bool) (hit keep : Recommendation → Bool) (change : Recommendation → Recommendation)
    (db : Database)
    → ((r : Recommendation) → keep (change r) ≡ keep r)
    → ((r : Recommendation) → keep r ≡ true → hit r ≡ false)
    → select keep (if run then acknowledge hit change db else (db, 0)).0.recommendations
      ≡ select keep db.recommendations
kept true hit keep change db same apart =
    select-update keep hit change db.recommendations same apart
kept false hit keep change db same apart = refl

abbrev pub not_asked_by : Database → ℕ → Recommendation → Bool
not_asked_by db asker_id r = not (asked_by db.questions asker_id r)

abbrev pub not_sent_to : ℕ → Recommendation → Bool
not_sent_to responder_id r = not (r.employee_id == responder_id)

-- Nobody can acknowledge the notifications of another: an asker's acknowledgements leave the rows
-- of questions that the asker did not ask, and a responder's leave the rows sent to other people,
-- whatever ids are given.
pub ack_notifications_scoped :
    (db : Database) (person : ℕ) (ids : List ℕ) (t : ℕ)
    → (select (not_asked_by db person) (ack_decline_notifications db person ids t).0.recommendations
        ≡ select (not_asked_by db person) db.recommendations)
      × (select
            (not_asked_by db person)
            (ack_accepted_notifications db person ids t).0.recommendations
          ≡ select (not_asked_by db person) db.recommendations)
      × (select (not_sent_to person) (ack_request_notifications db person ids t).0.recommendations
          ≡ select (not_sent_to person) db.recommendations)
unfolding ack_decline_notifications ack_accepted_notifications ack_request_notifications
ack_notifications_scoped db person ids t = (
  kept (is_nonempty ids) (is_unseen_decline db person ids) (not_asked_by db person) (see_decline t)
      db (λ r. refl) (λ r h. ground arith),
  kept (is_nonempty ids) (is_unseen_accept db person ids) (not_asked_by db person) (see_accept t) db
      (λ r. refl) (λ r h. ground arith),
  kept (is_nonempty ids) (is_unseen_request db person ids) (not_sent_to person) (see_request t) db
      (λ r. refl) (λ r h. ground arith),
)

-- The requests that are selected do not depend on what was seen.
is_unseen_request-seen :
    (db : Database) (person : ℕ) (ids : List ℕ) (t : ℕ) (r : Recommendation)
    → is_unseen_request
        (acknowledge (is_unseen_request db person ids) (see_request t) db).0
        person
        ids
        r
      ≡ is_unseen_request db person ids r
is_unseen_request-seen db person ids t r =
    rw
      (any-update (λ (s : Recommendation). is_selected db person ids s && shown_for r.question_id s)
        (is_unseen_request db person ids) (see_request t) db.recommendations (λ s. refl))
      refl

-- Acknowledging the same declines, or the same acceptances, again, at any time, changes no row
-- and counts none.
pub ack_notifications_once :
    (db : Database) (person : ℕ) (ids : List ℕ) (t later : ℕ)
    → (let first : Database × ℕ = ack_decline_notifications db person ids t in
        ack_decline_notifications first.0 person ids later ≡ (first.0, 0))
      × (let first : Database × ℕ = ack_accepted_notifications db person ids t in
          ack_accepted_notifications first.0 person ids later ≡ (first.0, 0))
      × (let first : Database × ℕ = ack_request_notifications db person ids t in
          ack_request_notifications first.0 person ids later ≡ (first.0, 0))
unfolding ack_decline_notifications ack_accepted_notifications ack_request_notifications
ack_notifications_once db person ids t later =
    (decline (is_nonempty ids), accept (is_nonempty ids), request (is_nonempty ids))
  where
    decline :
        (run : Bool)
        → (let first : Database × ℕ =
              if run
              then acknowledge (is_unseen_decline db person ids) (see_decline t) db
              else (db, 0) in
            (if run
              then acknowledge (is_unseen_decline first.0 person ids) (see_decline later) first.0
              else (first.0, 0))
            ≡ (first.0, 0))
    decline true =
        once true (is_unseen_decline db person ids) (see_decline t) (see_decline later) db
          (λ r. ground arith)
    decline false = refl

    accept :
        (run : Bool)
        → (let first : Database × ℕ =
              if run
              then acknowledge (is_unseen_accept db person ids) (see_accept t) db
              else (db, 0) in
            (if run
              then acknowledge (is_unseen_accept first.0 person ids) (see_accept later) first.0
              else (first.0, 0))
            ≡ (first.0, 0))
    accept true =
        once true (is_unseen_accept db person ids) (see_accept t) (see_accept later) db
          (λ r. ground arith)
    accept false = refl

    request :
        (run : Bool)
        → (let first : Database × ℕ =
              if run
              then acknowledge (is_unseen_request db person ids) (see_request t) db
              else (db, 0) in
            (if run
              then acknowledge (is_unseen_request first.0 person ids) (see_request later) first.0
              else (first.0, 0))
            ≡ (first.0, 0))
    request true =
        let first = (acknowledge (is_unseen_request db person ids) (see_request t) db).0 in
        subst (λ hit. acknowledge hit (see_request later) first ≡ (first, 0))
          (sym (fun_ext (λ r. is_unseen_request-seen db person ids t r)))
          (once true (is_unseen_request db person ids) (see_request t) (see_request later) db
            (λ r. ground arith))
    request false = refl
