-- ===== src/Retrieval/Recall/Tests.antt =====
-- Recalls over the rows of the agent loop's tests.
use kortex_memory.Prelude.{ℕ, ◌≡◌, refl, true, Option, none, some, List, [], ◌∷◌, codes, map, All}
use kortex_memory.Service.Samples.{user_of}
use kortex_memory.Retrieval.Budget.{no_usage}
use kortex_memory.Retrieval.Plan.{PlanStep, semantic_search, keyword_search}
use kortex_memory.Retrieval.Loop.Tests.{around, linked, linked-IsOrdered}
use kortex_memory.Retrieval.Reranking.{RerankedHit, RerankCandidate, Reranker}
use kortex_memory.Retrieval.Recall.Bundle.{
  RecallRequest, ContextBundle, Answer, failed, answered, Models, loop_traced, no_steps, fallback,
  reranked_id,
}
use kortex_memory.Retrieval.Recall.{recall}
use kortex_memory.Retrieval.Recall.Packing.{IsGrounded}
use kortex_memory.Retrieval.Recall.Laws.{recall-IsGrounded}

abbrev request : RecallRequest
request = record {
  query = codes "one";
  scopes = [];
  synthesize = true;
  max_tokens = 0;
  per_item_max = 800;
  latency_budget_ms = 0;
  token_budget = 0;
}

abbrev by_id : Reranker
by_id = record {
  score = λ query cs. map (λ (c : RerankCandidate). c.id) cs;
  blended = λ n r prior q. n;
  listed = λ is. is;
}

abbrev models : Answer → Models
models answer = record {
  agentic_retrieval = true;
  planner_min_budget_ms = 1500;
  planner_min_budget_tokens = 600;
  default_max_tokens = 4000;
  prices = [];
  planner = some (λ r. answer);
  summarizer = λ query rs. failed;
  embedder = true;
  reranker = by_id;
  at_plan = 0;
  clock_again = λ n. 0;
  at_synthesis = 0;
  at_end = 0;
}

abbrev planning : List PlanStep → Answer
planning steps =
    answered (record { model = []; tokens_in = 10; tokens_out = 5 })
      (some (record { rationale = []; steps = steps })) []

abbrev shown_ids : Option ContextBundle → Option (List ℕ)
shown_ids none = none
shown_ids (some b) = some (map reranked_id b.candidates)

recalled :
    shown_ids
      (recall around
        (models (planning (keyword_search (codes "one") 20 ∷ [])))
        (user_of 1)
        linked
        request).0
    ≡ some (1 ∷ [])
unfolding recall
recalled = refl

-- A planner that fails leaves a plain hybrid search.
fell_back : shown_ids (recall around (models failed) (user_of 1) linked request).0 ≡ some (1 ∷ [])
unfolding recall
fell_back = refl

-- A plan outside its bounds ends the recall with an exception.
unbounded_plan :
    shown_ids
      (recall around
        (models (planning (semantic_search (codes "one") 500 ∷ [])))
        (user_of 1)
        linked
        request).0
    ≡ none
unfolding recall
unbounded_plan = refl

abbrev keyword_plan : Models
keyword_plan = models (planning (keyword_search (codes "one") 20 ∷ []))

abbrev nothing : ContextBundle
nothing = record {
  query = [];
  answer = none;
  citations = [];
  candidates = [];
  used_tokens = 0;
  plan_trace = loop_traced [];
  plan_rationale = no_steps;
  hops = 0;
  stopped_reason = fallback;
  usage = no_usage;
}

abbrev or_nothing : Option ContextBundle → ContextBundle
or_nothing none = nothing
or_nothing (some b) = b

abbrev bundle : ContextBundle
bundle = or_nothing (recall around keyword_plan (user_of 1) linked request).0

returns : (recall around keyword_plan (user_of 1) linked request).0 ≡ some bundle
unfolding recall
returns = refl

recall-IsGrounded_example :
    All (λ (c : RerankedHit). IsGrounded (user_of 1) linked.memories c.hit) bundle.candidates
recall-IsGrounded_example =
    recall-IsGrounded around keyword_plan (user_of 1) linked linked-IsOrdered request bundle returns
