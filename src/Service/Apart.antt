-- ===== src/Service/Apart.antt =====
-- What a request of api/service.py leaves alone: the other sessions.
pub mod Requests
pub mod Drafts
pub mod Streamed
use tekijin.Prelude.{
  ℕ, ◌+◌, ◌≤◌, ◌≡◌, refl, ◌∙◌, String, Bool, true, false, Option, none, some, List, [], ◌∷◌, Map,
  find, put, find-put_other, arith, if◌then◌else◌, is_some, any, str_eq, ltb, not, ◌&&◌, ◌||◌, inl,
  inr, Bool-cases, str_eq_sound, some-inj,
}
use mathlib.Core.Path.{subst}
use tekijin.Service.State.{
  Service, SessionCtx, Checkpoint, Env, checkpoint_of, context_of, next_node,
}
use tekijin.Service.State
use tekijin.Service.Sessions.{session_ttl, is_idle, swept, sweep}

-- An entry that is needed: its session waits, its lock is held, or it was touched within the hour.
pub data IsInUse (env : Env) (svc : Service) (session_id : String) (ctx : SessionCtx) : Type 0 where
  waits : is_some (next_node svc session_id) ≡ true → IsInUse env svc session_id ctx
  locked : any (str_eq session_id) svc.held ≡ true → IsInUse env svc session_id ctx
  recent : env.clock ≤ ctx.touched_at + session_ttl → IsInUse env svc session_id ctx

-- A session's saved state and its entry, if that is in use, are as before, and no slot is lost.
abbrev pub IsApart : Env → Service → String → Service → Type 0
IsApart env before other after =
    (checkpoint_of after other ≡ checkpoint_of before other)
    × ((ctx : SessionCtx)
        → context_of before other ≡ some ctx
        → IsInUse env before other ctx
        → context_of after other ≡ some ctx)
    × (after.active_runs ≡ before.active_runs)

pub if-keeps :
    {A : Type 0} (P : A → Type 0) (b : Bool) {x y : A} → P x → P y → P (if b then x else y)
if-keeps P true h k = h
if-keeps P false h k = k

pub IsApart-refl : (env : Env) (svc : Service) (other : String) → IsApart env svc other svc
IsApart-refl env svc other = (refl, λ ctx e used. e, refl)

is_idle-false :
    (env : Env) (own : String) (svc : Service) (other : String) (ctx : SessionCtx)
    → IsInUse env svc other ctx
    → is_idle env own svc other ctx ≡ false
unfolding is_idle
is_idle-false env own svc other ctx (waits h) = ground (arith, h)
is_idle-false env own svc other ctx (locked h) = ground (arith, h)
is_idle-false env own svc other ctx (recent h) = ground (arith, h)

swept_head :
    (other k : String) (b : SessionCtx) (idle same : Bool) (entries after : Map SessionCtx)
    {ctx : SessionCtx}
    → str_eq k other ≡ same
    → (if same then some b else find other entries) ≡ some ctx
    → (same ≡ true → b ≡ ctx → idle ≡ false)
    → (find other entries ≡ some ctx → find other after ≡ some ctx)
    → find other (if idle then after else (k, b) ∷ after) ≡ some ctx
swept_head other k b true true entries after e h live rest = let dead = live refl (some-inj h) in cc
swept_head other k b false true entries after e h live rest = rw e h
swept_head other k b true false entries after e h live rest = rest h
swept_head other k b false false entries after e h live rest = rw e (rest h)

pub find-swept :
    (idle : String → SessionCtx → Bool) (other : String) (entries : Map SessionCtx)
    {ctx : SessionCtx}
    → find other entries ≡ some ctx
    → idle other ctx ≡ false
    → find other (swept idle entries) ≡ some ctx
unfolding swept
find-swept idle other [] h live = h
find-swept idle other ((k, b) ∷ entries) {ctx} h live =
    swept_head other k b (idle k b) (str_eq k other) entries (swept idle entries) refl h
      (λ e same. rw (str_eq_sound k other e, same) live)
      (λ h'. find-swept idle other entries h' live)

pub sweep-IsApart :
    (env : Env) (own other : String) (svc : Service) → IsApart env svc other (sweep env own svc)
unfolding sweep
sweep-IsApart env own other svc = (
  refl,
  λ ctx e used.
      find-swept (is_idle env own svc) other svc.registry e
        (is_idle-false env own svc other ctx used),
  refl,
)

module _ (env : Env) (before : Service) (session_id other : String)
    (apart : str_eq session_id other ≡ false) where
  pub IsApart-save :
      (c : Checkpoint) (svc : Service)
      → IsApart env before other svc
      → IsApart env before other (State.save session_id c svc)
  IsApart-save c svc (saved, queued, running) =
      (find-put_other session_id other c svc.checkpoints apart ∙ saved, queued, running)

  pub IsApart-register :
      (ctx : SessionCtx) (svc : Service)
      → IsApart env before other svc
      → IsApart env before other (record svc { registry = put session_id ctx svc.registry })
  IsApart-register ctx svc (saved, queued, running) = (
    saved,
    λ ctx' e used. find-put_other session_id other ctx svc.registry apart ∙ queued ctx' e used,
    running,
  )
