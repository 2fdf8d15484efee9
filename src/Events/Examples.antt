-- ===== src/Events/Examples.antt =====
-- The events at concrete values.
use tekijin.Prelude.{◌≡◌, refl, some, [], ◌∷◌, ◌++◌}
use tekijin.Agent.Graph
use tekijin.Agent.Graph.Flow.{flow}
use tekijin.Agent.Graph.Examples.{at_send, run-at_send, at_ask, run-at_ask}
use tekijin.Events.Wire.{format_employee_id, progress_events, understanding, reference_of, the}
use tekijin.Events.Replay.{sends, progress_events-send, progress_events-ask}

padded : format_employee_id 17 ≡ "E017"
unfolding format_employee_id
padded = refl

long : format_employee_id 1204 ≡ "E1204"
unfolding format_employee_id
long = refl

progress_events-ask_example :
    progress_events at_ask ≡ understanding at_ask at_ask.similar_asker_count ∷ []
progress_events-ask_example = progress_events-ask run-at_ask

progress_events-send_example :
    progress_events at_send
    ≡ understanding at_send at_send.similar_asker_count
      ∷ (sends flow Graph.c5_route at_send
          ++ (the (reference_of (some at_send.additive))
              ++ (sends flow Graph.c6_score at_send ++ sends flow Graph.c7_draft at_send)))
progress_events-send_example = progress_events-send run-at_send
