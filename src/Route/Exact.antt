-- ===== src/Route/Exact.antt =====
-- Which route a retrieval gets: agent/route.py, `decide_route`.
use tekijin.Prelude.{ℕ, ◌≤◌, ◌<◌, ◌≡◌, ◌≢◌, ◌↔◌, ◌⊎◌, [], some, arith}
use tekijin.Route.Defs.{RetrievalResult, Gates, prior_answer, document, top_reuse, decide_route}

-- The top past answer is reused often enough, and the answers are not pure noise.
abbrev pub IsReused : Gates → RetrievalResult → Type 0
IsReused g r =
    (least reuse : ℕ) × (g.prior_answer_reuse_min ≡ some least)
    × (top_reuse r.past_answers ≡ some reuse)
    × (least ≤ reuse)
    × (g.prior_answer_relevance_floor ≤ r.answer_confidence)

-- One of the two gates of the `prior_answer` route is open.
abbrev pub IsAnswered : Gates → RetrievalResult → Type 0
IsAnswered g r = IsReused g r ⊎ ((g.prior_answer_sim ≤ r.answer_confidence) × (r.past_answers ≢ []))

-- The person signal is weak and a document is on topic.
abbrev pub IsDocumented : Gates → RetrievalResult → Type 0
IsDocumented g r =
    (g.document_sim ≤ r.document_confidence)
    × (r.people_confidence < g.person_weak_sim)
    × (r.answer_confidence < g.prior_answer_sim)

-- The route is `prior_answer` exactly when the reuse gate fires, or the answer similarity reaches
-- its threshold and there is a past answer.
pub decide_route-prior_answer :
    (g : Gates) (r : RetrievalResult) → ((decide_route g r).route ≡ prior_answer) ↔ IsAnswered g r
unfolding decide_route
decide_route-prior_answer g r = (ground arith, ground arith)

-- The route is `document` exactly when the reuse gate does not fire, the document similarity
-- reaches its threshold, and the people and answer similarities are both below theirs.
pub decide_route-document :
    (g : Gates) (r : RetrievalResult)
    → ((decide_route g r).route ≡ document) ↔ ((¬ IsReused g r) × IsDocumented g r)
unfolding decide_route
decide_route-document g r = (
  λ e. (λ (least, reuse, set, top, enough, relevant). ground arith, ground arith),
  λ (never, (strong, weak, far)). grind (
    arith,
    λ (least reuse : ℕ) (set : g.prior_answer_reuse_min ≡ some least)
          (top : top_reuse r.past_answers ≡ some reuse) (enough : least ≤ reuse)
          (relevant : g.prior_answer_relevance_floor ≤ r.answer_confidence).
        never (least, reuse, set, top, enough, relevant),
  ),
)
