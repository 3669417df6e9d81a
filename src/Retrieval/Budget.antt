-- ===== src/Retrieval/Budget.antt =====
-- packages/kortex-core/src/kortex_core/retrieval/budget.py. A budget is in milliseconds, and what the
-- clock says has passed is in microseconds. Zero is `UNLIMITED`. Prices are whole numbers of a unit for a
-- million tokens, and a cost is in millionths of that unit.
use kortex_memory.Prelude.{
  ℕ, ◌+◌, ◌-◌, ◌*◌, Bool, true, false, not, ◌&&◌, Option, none, some, List, [], ◌∷◌, Text, text_eq,
  ltb, leb, if◌then◌else◌,
}

pub record RecallBudget : Type 0 where
  pub latency_ms : ℕ
  pub tokens : ℕ

abbrev pub has_latency_cap : RecallBudget → Bool
has_latency_cap b = ltb 0 b.latency_ms

abbrev pub has_token_cap : RecallBudget → Bool
has_token_cap b = ltb 0 b.tokens

-- `has_headroom`: `remaining_ms() >= need_ms`, the difference on the other side
unfoldable pub has_headroom : RecallBudget → ℕ → ℕ → Bool
has_headroom b elapsed need_ms =
    if has_latency_cap b then leb (elapsed + need_ms * 1000) (b.latency_ms * 1000) else true

unfoldable pub tokens_remaining : RecallBudget → ℕ → Option ℕ
tokens_remaining b spent = if has_token_cap b then some (b.tokens - spent) else none

abbrev within_remaining : Option ℕ → ℕ → Bool
within_remaining none need = true
within_remaining (some left) need = leb need left

unfoldable pub affords_tokens : RecallBudget → ℕ → ℕ → Bool
unfolding tokens_remaining
affords_tokens b spent need = within_remaining (tokens_remaining b spent) need

-- the reason that `should_plan` gives
pub data Skip : Type 0 where
  agentic_disabled planner_unavailable : Skip
  latency_short tokens_short : ℕ → ℕ → Skip
  not_skipped : Skip

unfoldable pub should_plan : RecallBudget → ℕ → Bool → Bool → ℕ → ℕ → Bool × Skip
unfolding has_headroom affords_tokens
should_plan b elapsed planner_available agentic_enabled min_ms min_tokens =
    if not agentic_enabled
    then (false, agentic_disabled)
    else if not planner_available
    then (false, planner_unavailable)
    else if has_latency_cap b && not (has_headroom b elapsed min_ms)
    then (false, latency_short b.latency_ms min_ms)
    else if has_token_cap b && not (affords_tokens b 0 min_tokens)
    then (false, tokens_short b.tokens min_tokens)
    else (true, not_skipped)

pub data Mode : Type 0 where
  hybrid agentic : Mode

pub record RecallUsage : Type 0 where
  pub mode : Mode
  pub tokens_in : ℕ
  pub tokens_out : ℕ
  pub llm_calls : ℕ
  pub plan_steps : ℕ
  pub hops : ℕ
  pub latency : ℕ
  pub cost : Option ℕ
  pub budget_exhausted : Bool

abbrev pub no_usage : RecallUsage
no_usage = record {
  mode = hybrid;
  tokens_in = 0;
  tokens_out = 0;
  llm_calls = 0;
  plan_steps = 0;
  hops = 0;
  latency = 0;
  cost = none;
  budget_exhausted = false;
}

abbrev pub total_tokens : RecallUsage → ℕ
total_tokens u = u.tokens_in + u.tokens_out

pub record LlmResponse : Type 0 where
  pub model : Text
  pub tokens_in : ℕ
  pub tokens_out : ℕ

abbrev pub Prices : Type 0
Prices = List (Text × List ℕ)

abbrev entry_of : Text → Prices → List ℕ
entry_of model [] = []
entry_of model ((name, entry) ∷ rest) = if text_eq name model then entry else entry_of model rest

abbrev priced : ℕ → ℕ → List ℕ → Option ℕ
priced tokens_in tokens_out [] = none
priced tokens_in tokens_out (a ∷ []) = none
priced tokens_in tokens_out (a ∷ b ∷ rest) = some (tokens_in * a + tokens_out * b)

unfoldable pub price_usd : Text → ℕ → ℕ → Prices → Option ℕ
unfolding text_eq
price_usd model tokens_in tokens_out prices = priced tokens_in tokens_out (entry_of model prices)

abbrev pub add_cost : Option ℕ → Option ℕ → Option ℕ
add_cost total none = total
add_cost none (some x) = some x
add_cost (some total) (some x) = some (total + x)

-- `RecallUsage.record`
unfoldable pub record_response : Prices → LlmResponse → RecallUsage → RecallUsage
unfolding price_usd
record_response prices r u = record u {
  llm_calls = u.llm_calls + 1;
  tokens_in = u.tokens_in + r.tokens_in;
  tokens_out = u.tokens_out + r.tokens_out;
  cost = add_cost u.cost (price_usd r.model r.tokens_in r.tokens_out prices);
}
