-- ===== src/Service/Examples.antt =====
-- The service at a concrete session.
use tekijin.Agent as Nodes
use tekijin.Agent.Graph.{exec, next}
use tekijin.Route.{decide_route}
use tekijin.Scorer.{rank, rank_scored, candidates, unique, score_all, sort, insert}
use tekijin.Events.{
  node_event, counted, external, format_employee_id, is_terminal, terminal_status,
  is_terminal_event, interrupt_event,
}
use tekijin.Agent.{similar_update}
use tekijin.Store.{
  employee_exists, persist_question, record_events, update_question_topics, update_question_route,
  insert_shown_recommendations, shown_row,
}
use tekijin.Service.Request.{serve}
use tekijin.Service.Sessions.{start_question, sweep, swept, is_saturated, run_slot}
use tekijin.Service.Persist.{
  persist_update, persist_route, persist_recommendations, persist_fallback, persist_question_body,
}
use tekijin.Service.Send.{take_update, send_event, decide_critic, time_stage}
use tekijin.Service.Run.{
  run_from, begin_segment, drive, persist_run_state, persist_events, fresh_checkpoint, merged,
}
use tekijin.Service.Stream.{stream_events}
use tekijin.Prelude.{◌≡◌, refl, none, some, List, [], ◌∷◌}
use tekijin.Agent.Graph.{send}
use tekijin.Service.State.{checkpoint_of}
use tekijin.Prelude.{true, arith, false}
use tekijin.Scorer.{ScoredCandidate}
use tekijin.Agent.Graph.Flow.{flow}
use tekijin.Agent.Graph.Safety.{IsPassed}
use tekijin.Agent.Graph.Handing.{IsHandable}
use tekijin.Store.{
  recommendation_employee_id, recommendation_outcome, latest_recommendation_for_person,
}
use tekijin.Service.State.{accept, is_queued}
use tekijin.Service.Request.{Served, opened, requested}
use tekijin.Service.Request
use tekijin.Service.Serving.{IsServing}
use tekijin.Service.State.{SessionCtx, fresh, context_of}
use tekijin.Service.Settled.{IsSettled, stream_events_settles}
use tekijin.Service.Apart.{recent}
use tekijin.Service.Phase.{Moves, phase}
use tekijin.Service.Lifecycle.{serve-phase}
use tekijin.Service.Isolated.{serve_keeps_saved, serve_keeps_queued}
use tekijin.Service.Handoffs.{serve-IsServing, Served-send}
use tekijin.Store.{
  set_recommendation_outcome, question_consult_method, mark_question_resolved, create_message,
}
use tekijin.Service.Outcome.{settle, resolve_primary, record_outcome}
use tekijin.Service.Requests.{submit_resume}
use tekijin.Service.Binding.{IsBound, resolve_primary-IsBound}
use tekijin.Service.Recorded.{IsRecorded, record_outcome-IsRecorded}
use tekijin.Service.Progress.{is_accepted, submit_resume_goes_on}
use tekijin.Service.Flow.{
  service, env, queued, waiting, waiting_checkpoint, rerouted, rerouted-IsConsistent, stale,
  stale_service, accepting, acceptance, shown,
}

waiting_saved : checkpoint_of waiting "s1" ≡ some waiting_checkpoint
unfolding serve start_question sweep swept is_saturated employee_exists persist_question
    stream_events run_from run_slot begin_segment drive take_update persist_update persist_route
    persist_recommendations persist_question_body send_event decide_critic time_stage
    persist_run_state persist_events fresh_checkpoint merged record_events update_question_topics
    update_question_route insert_shown_recommendations shown_row node_event counted similar_update
    external format_employee_id is_terminal terminal_status is_terminal_event interrupt_event exec
    next Nodes.reset Nodes.c1_intent Nodes.c2_sufficiency Nodes.can_route Nodes.c3_embed
    Nodes.c4_retrieve Nodes.c5_route Nodes.answerability Nodes.answerability_evidence Nodes.c6_score
    Nodes.scored Nodes.fresh_rows Nodes.seated Nodes.backfill Nodes.referral_pin Nodes.prior_pin
    Nodes.open_candidates Nodes.candidate_pool Nodes.split_by_branch Nodes.requested_branch
    Nodes.note_unmet_branch Nodes.note_one Nodes.is_at Nodes.rank_query Nodes.c7_draft decide_route
    persist_fallback rank rank_scored candidates unique score_all sort insert
waiting_saved = refl

waiting_next : waiting_checkpoint.next ≡ some send
unfolding serve start_question sweep swept is_saturated employee_exists persist_question
    stream_events run_from run_slot begin_segment drive take_update persist_update persist_route
    persist_recommendations persist_question_body send_event decide_critic time_stage
    persist_run_state persist_events fresh_checkpoint merged record_events update_question_topics
    update_question_route insert_shown_recommendations shown_row node_event counted similar_update
    external format_employee_id is_terminal terminal_status is_terminal_event interrupt_event exec
    next Nodes.reset Nodes.c1_intent Nodes.c2_sufficiency Nodes.can_route Nodes.c3_embed
    Nodes.c4_retrieve Nodes.c5_route Nodes.answerability Nodes.answerability_evidence Nodes.c6_score
    Nodes.scored Nodes.fresh_rows Nodes.seated Nodes.backfill Nodes.referral_pin Nodes.prior_pin
    Nodes.open_candidates Nodes.candidate_pool Nodes.split_by_branch Nodes.requested_branch
    Nodes.note_unmet_branch Nodes.note_one Nodes.is_at Nodes.rank_query Nodes.c7_draft decide_route
    persist_fallback rank rank_scored candidates unique score_all sort insert
waiting_next = refl

waiting_ids : waiting_checkpoint.values.persistence.recommendation_ids ≡ 1 ∷ 2 ∷ 3 ∷ []
unfolding serve start_question sweep swept is_saturated employee_exists persist_question
    stream_events run_from run_slot begin_segment drive take_update persist_update persist_route
    persist_recommendations persist_question_body send_event decide_critic time_stage
    persist_run_state persist_events fresh_checkpoint merged record_events update_question_topics
    update_question_route insert_shown_recommendations shown_row node_event counted similar_update
    external format_employee_id is_terminal terminal_status is_terminal_event interrupt_event exec
    next Nodes.reset Nodes.c1_intent Nodes.c2_sufficiency Nodes.can_route Nodes.c3_embed
    Nodes.c4_retrieve Nodes.c5_route Nodes.answerability Nodes.answerability_evidence Nodes.c6_score
    Nodes.scored Nodes.fresh_rows Nodes.seated Nodes.backfill Nodes.referral_pin Nodes.prior_pin
    Nodes.open_candidates Nodes.candidate_pool Nodes.split_by_branch Nodes.requested_branch
    Nodes.note_unmet_branch Nodes.note_one Nodes.is_at Nodes.rank_query Nodes.c7_draft decide_route
    persist_fallback rank rank_scored candidates unique score_all sort insert
waiting_ids = refl

waiting-Served : Served flow waiting
waiting-Served =
    requested env (Request.stream_events 20 "s1") refl
      (requested env (Request.start_question "s1" 11 "見積の承認は?") refl (opened service refl))

serve-IsServing_example : IsServing flow waiting
serve-IsServing_example =
    serve-IsServing env (Request.stream_events 20 "s1") queued
      (serve-IsServing env (Request.start_question "s1" 11 "見積の承認は?") service tt)

Served-send_example :
    (top : ScoredCandidate) × (rest : List ScoredCandidate)
    × (waiting_checkpoint.values.recommendations ≡ top ∷ rest)
    × IsHandable waiting_checkpoint.values top
    × IsPassed flow waiting_checkpoint.values
Served-send_example = Served-send "s1" waiting-Served waiting_saved waiting_next

resolve_primary-IsBound_example :
    IsBound rerouted "api_u1" (some 1) 12 (resolve_primary rerouted stale)
resolve_primary-IsBound_example =
    resolve_primary-IsBound rerouted stale rerouted-IsConsistent refl refl

-- The outcome goes to the second candidate's row.
stale_row : resolve_primary rerouted stale ≡ some 2
unfolding resolve_primary recommendation_employee_id latest_recommendation_for_person
stale_row = refl

submit_resume_goes_on_example :
    (is_accepted (submit_resume env "s1" accepting stale_service).1 ≡ true)
    × (is_queued (submit_resume env "s1" accepting stale_service).0 "s1" ≡ true)
submit_resume_goes_on_example =
    submit_resume_goes_on env "s1" stale_service _ accepting "accepted" rerouted-IsConsistent
      (λ a e. ground arith) refl refl refl refl refl refl

acceptance_recorded : record_outcome env rerouted stale "accepted" none none ≡ accept acceptance
unfolding record_outcome resolve_primary recommendation_employee_id latest_recommendation_for_person
    recommendation_outcome set_recommendation_outcome settle question_consult_method
    mark_question_resolved create_message
acceptance_recorded = refl

record_outcome-IsRecorded_example : IsRecorded rerouted 2 acceptance
record_outcome-IsRecorded_example =
    record_outcome-IsRecorded env rerouted stale 2 "accepted" none none (shown 2 12 none) acceptance
      refl stale_row acceptance_recorded

stream_events_settles_example : IsSettled "s1" (stream_events env 20 "s1" queued)
stream_events_settles_example = stream_events_settles env 20 "s1" queued (omega arith)

serve_keeps_saved_example :
    (checkpoint_of (serve env (Request.start_question "s2" 12 "休暇の申請は?") waiting) "s1"
      ≡ checkpoint_of waiting "s1")
    × ((serve env (Request.start_question "s2" 12 "休暇の申請は?") waiting).active_runs
        ≡ waiting.active_runs)
serve_keeps_saved_example =
    serve_keeps_saved env (Request.start_question "s2" 12 "休暇の申請は?") waiting "s1" refl

-- The first session's question is queued when the second one comes.
abbrev first_queued : SessionCtx
first_queued = record {
  pending = some (
      fresh (record {
        question = "見積の承認は?";
        asker = some (record { id = some 11 });
        now = record { micros = 1000; aware = false };
        question_id = some "api_u1";
      }));
  touched_at = 5000;
}

first_saved : context_of queued "s1" ≡ some first_queued
unfolding serve start_question sweep swept is_saturated employee_exists persist_question
first_saved = refl

serve_keeps_queued_example :
    context_of (serve env (Request.start_question "s2" 12 "休暇の申請は?") queued) "s1"
    ≡ some first_queued
serve_keeps_queued_example =
    serve_keeps_queued env (Request.start_question "s2" 12 "休暇の申請は?") queued "s1" first_queued refl
      first_saved (recent (omega arith))

serve-phase_example :
    Moves
      (phase waiting "s1")
      (phase (serve env (Request.exclude_handoff_target "s1" 14 none) waiting) "s1")
serve-phase_example = serve-phase env (Request.exclude_handoff_target "s1" 14 none) waiting
