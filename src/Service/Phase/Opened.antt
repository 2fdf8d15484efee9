-- ===== src/Service/Phase/Opened.antt =====
-- A new question and a fallback follow the life of their session: api/service.py.
use tekijin.Prelude.{
  ℕ, ◌≡◌, refl, ap, String, ◌<>◌, Bool, true, false, Option, none, some, [], ◌∷◌, arith,
  if◌then◌else◌, str_eq, is_some, is_nonempty, find, find-put_same, inl, inr, Bool-cases, Map,
  str_eq_refl, str_eq_sound,
}
use mathlib.Core.Path.{subst}
use tekijin.Agent.{AgentState}
use tekijin.Agent.Deps.{Deps}
use tekijin.Agent.Graph.{Node, c6_score, next, critique_wired, after_c6, handoff_target}
use tekijin.Store.{Database, employee_exists, persist_question}
use tekijin.Service.State.{
  Service, SessionCtx, Checkpoint, Env, Done, refuse, session_conflict, service_busy, is_queued,
  has_pending, next_node, checkpoint_of, context_of,
}
use tekijin.Service.Sessions.{
  start_question, admitted, queue_question, sweep, swept, is_saturated, is_idle,
}
use tekijin.Service.Fallback.{
  fallback_values, reopened_values, reopen, reopen_saved, request_document_fallback, touch,
  pending_of,
}
use tekijin.Service.Rules.{proceed-keeps}
use tekijin.Service.Apart.{if-keeps}
use tekijin.Service.Serving.Moving.{fallback_values-accept}
use tekijin.Service.Phase.{
  closed, between, phase_of, Moves, stays, asks, reopens, phase, Follows, phase-queue,
}

next-reopened :
    (d : Deps) (s : AgentState)
    → is_nonempty s.recommendations ≡ true
    → phase_of false (next d c6_score (reopened_values s)) ≡ between
unfolding next after_c6 handoff_target reopened_values
next-reopened d s shown = elim (Bool-cases (critique_wired d)) [
  | inl e ↦ rw (shown, e) refl
  | inr e ↦ rw (shown, e) refl
]

reopened-Moves :
    (b : Bool) (m : Option Node)
    → phase_of false m ≡ between
    → Moves (phase_of b none) (phase_of b m)
reopened-Moves true m e = stays
reopened-Moves false m e = rw e reopens

pending_of-is_some : (o : Option SessionCtx) → is_some (pending_of o) ≡ has_pending o
pending_of-is_some none = refl
pending_of-is_some (some ctx) = refl

reopen_saved-Follows :
    (env : Env) (svc : Service) (session_id : String) (saved : Option Checkpoint)
    → checkpoint_of svc session_id ≡ saved
    → Follows svc session_id (reopen_saved env session_id svc saved).0
unfolding reopen_saved reopen touch
reopen_saved-Follows env svc session_id none e = stays
reopen_saved-Follows env svc session_id (some c) e =
    proceed-keeps (Follows svc session_id) svc (fallback_values c) (reopen env session_id svc) stays
      (λ s accepted.
        let found = fallback_values-accept c accepted in
        rw
          (
            find-put_same session_id
                (record {
                  pending = pending_of (context_of svc session_id);
                  touched_at = env.clock;
                })
                svc.registry,
            find-put_same session_id
                (record {
                  next = next env.deps c6_score s;
                  values = s;
                  document_fallback_requested = true;
                })
                svc.checkpoints,
            pending_of-is_some (context_of svc session_id),
            e,
            found.ended,
            found.reopened,
          )
          (reopened-Moves (is_queued svc session_id) _
            (next-reopened env.deps c.values found.someone)))

pub request_document_fallback-Follows :
    (env : Env) (svc : Service) (session_id : String)
    → Follows svc session_id (request_document_fallback env session_id svc).0
unfolding request_document_fallback
request_document_fallback-Follows env svc session_id =
    reopen_saved-Follows env svc session_id (checkpoint_of svc session_id) refl

find-swept_live :
    (idle : String → SessionCtx → Bool) (own : String) (entries : Map SessionCtx)
    → ((ctx : SessionCtx) → idle own ctx ≡ false)
    → find own (swept idle entries) ≡ find own entries
unfolding swept
find-swept_live idle own [] live = refl
find-swept_live idle own ((k, b) ∷ entries) live =
    let rest = find-swept_live idle own entries live in
    elim (Bool-cases (str_eq k own)) [
      | inl e ↦ rw (str_eq_sound k own e, live b, str_eq_refl own) refl
      | inr e ↦ elim (Bool-cases (idle k b)) [
        | inl dead ↦ rw (dead, e) rest
        | inr kept ↦ rw (kept, e) rest
      ]
    ]

is_idle-own :
    (env : Env) (own : String) (svc : Service) (ctx : SessionCtx)
    → is_idle env own svc own ctx ≡ false
unfolding is_idle
is_idle-own env own svc ctx = rw (str_eq_refl own) (ground arith)

sweep-phase :
    (env : Env) (svc : Service) (session_id : String)
    → phase (sweep env session_id svc) session_id ≡ phase svc session_id
unfolding sweep
sweep-phase env svc session_id =
    ap (λ o. phase_of (has_pending o) (next_node svc session_id))
      (find-swept_live (is_idle env session_id svc) session_id svc.registry
        (is_idle-own env session_id svc))

closed_at :
    (svc : Service) (session_id : String)
    → is_queued svc session_id ≡ false
    → is_some (next_node svc session_id) ≡ false
    → phase svc session_id ≡ closed
closed_at svc session_id free over = rw free (over_at (next_node svc session_id) over)
  where
    over_at : (m : Option Node) → is_some m ≡ false → phase_of false m ≡ closed
    over_at none e = refl
    over_at (some n) e = ground arith

module _ (env : Env) (session_id : String) where
  admitted-Follows :
      (asker : ℕ) (question : String) (svc : Service)
      → phase svc session_id ≡ closed
      → Follows svc session_id (admitted env session_id asker question svc).0
  unfolding admitted queue_question
  admitted-Follows asker question svc over =
      if-keeps {A = Service × Done} (λ r. Follows svc session_id r.0)
        (employee_exists svc.database asker)
        (stored (
          persist_question svc.database ("api_" <> env.uid) asker question env.now.micros
            (some session_id)))
        stays
    where
      stored :
          (o : Option Database)
          → Follows svc session_id
              (queue_question env session_id asker question ("api_" <> env.uid) svc o).0
      stored none = stays
      stored (some db) = rw (over, phase-queue env session_id _ (record svc { database = db })) asks

  guarded-Follows :
      (asker : ℕ) (question : String) (svc : Service) (full taken parked : Bool)
      → is_queued svc session_id ≡ taken
      → is_some (next_node svc session_id) ≡ parked
      → Follows svc session_id
          (if full
            then (svc, refuse service_busy)
            else if taken
            then (svc, refuse session_conflict)
            else if parked
            then (svc, refuse session_conflict)
            else admitted env session_id asker question svc).0
  guarded-Follows asker question svc true taken parked free over = stays
  guarded-Follows asker question svc false true parked free over = stays
  guarded-Follows asker question svc false false true free over = stays
  guarded-Follows asker question svc false false false free over =
      admitted-Follows asker question svc (closed_at svc session_id free over)

  pub start_question-Follows :
      (asker : ℕ) (question : String) (svc : Service)
      → Follows svc session_id (start_question env session_id asker question svc).0
  unfolding start_question
  start_question-Follows asker question svc =
      let clean = sweep env session_id svc in
      subst (λ p. Moves p (phase (start_question env session_id asker question svc).0 session_id))
        (sweep-phase env svc session_id)
        (guarded-Follows asker question clean (is_saturated env clean) _ _ refl refl)
