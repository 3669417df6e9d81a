-- ===== src/Retrieval/Recall/Bundle.antt =====
-- The request, the answers of the models and the bundle of
-- packages/kortex-core/src/kortex_core/services/agentic_retriever.py.
use kortex_memory.Prelude.{ℕ, zero, suc, ◌+◌, min, Bool, Option, List, [], ◌∷◌, Text, map}
use kortex_memory.Memories.Queries.{ScopeFilter}
use kortex_memory.Retrieval.Packing.{estimate_tokens}
use kortex_memory.Retrieval.Budget.{RecallBudget, RecallUsage, LlmResponse, Prices, Skip}
use kortex_memory.Retrieval.Plan.{QueryPlan}
use kortex_memory.Retrieval.Loop.{Stop, Trace, Hits}
use kortex_memory.Retrieval.Reranking.{RerankedHit, Reranker, text_of_hit}

pub record RecallRequest : Type 0 where
  pub query : Text
  pub scopes : List ScopeFilter
  pub synthesize : Bool
  pub max_tokens : ℕ
  pub per_item_max : ℕ
  pub latency_budget_ms : ℕ
  pub token_budget : ℕ

pub record Citation : Type 0 where
  pub public_id : ℕ
  pub title : Text
  pub score : ℕ

-- `plan_rationale`
pub data Rationale : Type 0 where
  skipped : Skip → Rationale
  planner_failed no_steps : Rationale
  planned : Text → Rationale

-- `stopped_reason`
pub data Ending : Type 0 where
  fallback : Ending
  looped : Stop → Ending

-- `plan_trace`
pub data PlanTrace : Type 0 where
  fallback_traced : Bool → PlanTrace
  loop_traced : List Trace → PlanTrace

pub record ContextBundle : Type 0 where
  pub query : Text
  pub answer : Option Text
  pub citations : List Citation
  pub candidates : List RerankedHit
  pub used_tokens : ℕ
  pub plan_trace : PlanTrace
  pub plan_rationale : Rationale
  pub hops : ℕ
  pub stopped_reason : Ending
  pub usage : RecallUsage

-- what a model answers: an `LlmError`, or a response with its structured part and its text
pub data Answer : Type 0 where
  failed : Answer
  answered : LlmResponse → Option QueryPlan → Text → Answer

-- the settings of a recall, what the models answer, whether there is an embedder, and what has passed on
-- the clock at the plan, before a hop of the second loop, at the synthesis and at the end
pub record Models : Type 0 where
  pub agentic_retrieval : Bool
  pub planner_min_budget_ms : ℕ
  pub planner_min_budget_tokens : ℕ
  pub default_max_tokens : ℕ
  pub prices : Prices
  pub planner : Option (RecallRequest → Answer)
  pub summarizer : Text → List RerankedHit → Answer
  pub embedder : Bool
  pub reranker : Reranker
  pub at_plan : ℕ
  pub clock_again : ℕ → ℕ
  pub at_synthesis : ℕ
  pub at_end : ℕ

abbrev pub budget_of : RecallRequest → RecallBudget
budget_of r = record { latency_ms = r.latency_budget_ms; tokens = r.token_budget }

abbrev pub max_tokens_of : Models → ℕ → ℕ
max_tokens_of m zero = m.default_max_tokens
max_tokens_of m (suc n) = suc n

-- the reranked hits with the notes that `annotate_conflicts` put on them
abbrev pub with_hits : List RerankedHit → Hits → List RerankedHit
with_hits [] hs = []
with_hits (r ∷ rs) [] = r ∷ rs
with_hits (r ∷ rs) (h ∷ hs) = record r { hit = h } ∷ with_hits rs hs

abbrev pub hits_in : List RerankedHit → Hits
hits_in = map (λ (r : RerankedHit). r.hit)

abbrev pub reranked_id : RerankedHit → ℕ
reranked_id r = r.hit.memory_id

abbrev pub cited : List RerankedHit → List Citation
cited = map (λ (r : RerankedHit). record {
  public_id = r.hit.public_id;
  title = r.hit.title;
  score = r.final_score;
})

-- `_used_tokens`
unfoldable pub used_tokens : List RerankedHit → ℕ → ℕ
unfolding estimate_tokens
used_tokens [] per_item_max = 0
used_tokens (r ∷ rs) per_item_max =
    min (estimate_tokens (text_of_hit r.hit)) per_item_max + used_tokens rs per_item_max
