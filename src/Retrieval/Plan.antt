-- ===== src/Retrieval/Plan.antt =====
-- packages/kortex-core/src/kortex_core/retrieval/query_plan.py: the plans that a model emits, and the
-- bounds that their fields declare, which pydantic enforces.
use kortex_memory.Prelude.{
  ℕ, Bool, true, ◌&&◌, Option, none, some, List, [], ◌∷◌, Text, length, leb, if◌then◌else◌,
}
use kortex_memory.Types.{MemoryLinkType}

pub data PlanStep : Type 0 where
  semantic_search keyword_search : Text → ℕ → PlanStep
  link_expand : List MemoryLinkType → ℕ → PlanStep
  time_filter : Option ℕ → Option ℕ → PlanStep
  stop_and_answer : Text → PlanStep

pub record QueryPlan : Type 0 where
  pub rationale : Text
  pub steps : List PlanStep

abbrev between : ℕ → ℕ → ℕ → Bool
between lo hi n = leb lo n && leb n hi

abbrev pub is_valid_step : PlanStep → Bool
is_valid_step (semantic_search query top_k) = between 1 500 (length query) && between 1 100 top_k
is_valid_step (keyword_search query top_k) = between 1 500 (length query) && between 1 100 top_k
is_valid_step (link_expand types max_depth) = between 1 2 max_depth
is_valid_step (time_filter after before) = true
is_valid_step (stop_and_answer reason) = true

abbrev pub all_valid : List PlanStep → Bool
all_valid [] = true
all_valid (s ∷ ss) = is_valid_step s && all_valid ss

unfoldable pub is_valid_plan : QueryPlan → Bool
is_valid_plan q = leb (length q.rationale) 500 && leb (length q.steps) 8 && all_valid q.steps

-- `parse_plan` on what the model returned; `none` is the ValidationError
abbrev pub empty_plan : QueryPlan
empty_plan = record { rationale = []; steps = [] }

unfoldable pub parse_plan : Option QueryPlan → Option QueryPlan
unfolding is_valid_plan
parse_plan none = some empty_plan
parse_plan (some q) = if is_valid_plan q then some q else none
