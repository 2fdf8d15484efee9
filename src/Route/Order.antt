-- ===== src/Route/Order.antt =====
-- Where the order of the past answers shows in the decision: agent/route.py, `decide_route`.
use tekijin.Prelude.{ℕ, ◌≤◌, ◌<◌, ◌≡◌, ◌≢◌, List, [], ◌∷◌, some, none, arith}
use tekijin.Route.Defs.{PastAnswer, RetrievalResult, Gates, decide_route}

-- With the reuse gate off, the decision reads of the past answers only whether there is one.
pub decide_route-past_answers :
    (g : Gates) (r : RetrievalResult) (a b : PastAnswer) (l m : List PastAnswer)
    → g.prior_answer_reuse_min ≡ none
    → decide_route g (record r { past_answers = a ∷ l })
      ≡ decide_route g (record r { past_answers = b ∷ m })
unfolding decide_route
decide_route-past_answers g r a b l m off = rw off

-- With the reuse gate on, two past answers of one score, the first reused often enough and the
-- second not, and an answer similarity between the relevance floor and the answer threshold, give
-- another route when they are swapped.
pub decide_route_tie_order :
    (g : Gates) (r : RetrievalResult) (a b : PastAnswer) {least : ℕ}
    → g.prior_answer_reuse_min ≡ some least
    → a.score ≡ b.score
    → least ≤ a.reuse_count
    → b.reuse_count < least
    → g.prior_answer_relevance_floor ≤ r.answer_confidence
    → r.answer_confidence < g.prior_answer_sim
    → (decide_route g (record r { past_answers = a ∷ b ∷ [] })).route
      ≢ (decide_route g (record r { past_answers = b ∷ a ∷ [] })).route
unfolding decide_route
decide_route_tie_order g r a b on tie often seldom relevant far = ground arith
