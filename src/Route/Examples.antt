-- ===== src/Route/Examples.antt =====
-- The route decision at concrete retrievals.
use tekijin.Prelude.{◌≡◌, ◌≢◌, ◌↔◌, [], ◌∷◌, some, none, refl, arith}
use tekijin.Route.Defs.{
  PastAnswer, RetrievalResult, Gates, person, prior_answer, document, default_gates,
  empty_retrieval, decide_route,
}
use tekijin.Route.Exact.{
  IsReused, IsAnswered, IsDocumented, decide_route-prior_answer, decide_route-document,
}
use tekijin.Route.Order.{decide_route_tie_order}

abbrev canonical : PastAnswer
canonical = record { qa_id = "q1"; score = 320; responder_id = some 7; reuse_count = 5 }

abbrev rare : PastAnswer
rare = record { qa_id = "q2"; score = 320; responder_id = none; reuse_count = 1 }

abbrev retrieval : RetrievalResult
retrieval = record empty_retrieval {
  past_answers = canonical ∷ rare ∷ [];
  candidate_people = 3 ∷ 7 ∷ [];
  answer_confidence = 4100;
  document_confidence = 3000;
  people_confidence = 3000;
}

abbrev reuse_gates : Gates
reuse_gates = record default_gates { prior_answer_reuse_min = some 3 }

by_default : (decide_route default_gates retrieval).route ≡ document
unfolding decide_route
by_default = refl

by_reuse : (decide_route reuse_gates retrieval).route ≡ prior_answer
unfolding decide_route
by_reuse = refl

on_empty : (decide_route reuse_gates empty_retrieval).route ≡ person
unfolding decide_route
on_empty = refl

decide_route-prior_answer_example :
    ((decide_route reuse_gates retrieval).route ≡ prior_answer) ↔ IsAnswered reuse_gates retrieval
decide_route-prior_answer_example = decide_route-prior_answer reuse_gates retrieval

decide_route-document_example :
    ((decide_route default_gates retrieval).route ≡ document)
    ↔ ((¬ IsReused default_gates retrieval) × IsDocumented default_gates retrieval)
decide_route-document_example = decide_route-document default_gates retrieval

decide_route_tie_order_example :
    (decide_route reuse_gates (record retrieval { past_answers = canonical ∷ rare ∷ [] })).route
    ≢ (decide_route reuse_gates (record retrieval { past_answers = rare ∷ canonical ∷ [] })).route
decide_route_tie_order_example =
    decide_route_tie_order reuse_gates retrieval canonical rare refl refl (omega arith)
      (omega arith) (omega arith) (omega arith)
