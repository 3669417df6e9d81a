-- ===== src/Retrieval/Packing.antt =====
-- packages/kortex-core/src/kortex_core/retrieval/token_budget.py. The code only compares scores, so
-- a score is a natural number: the place of the float in the order of floats.
pub mod Laws
mod Tests
use kortex_memory.Prelude.{
  ℕ, ◌+◌, ◌*◌, ◌/◌, max, List, [], ◌∷◌, Text, length, take, ltb, sort_desc, if◌then◌else◌,
}

unfoldable pub estimate_tokens : Text → ℕ
estimate_tokens [] = 0
estimate_tokens (c ∷ cs) = max 1 ((length (c ∷ cs) + 3) / 4)

pub record BudgetItem : Type 0 where
  pub id : ℕ
  pub text : Text
  pub score : ℕ

pub record TokenBudget : Type 0 where
  pub max_tokens : ℕ
  pub per_item_max : ℕ

-- an item as it is packed: its text, cut to `per_item_max` tokens, and its tokens
unfoldable pub cut : TokenBudget → BudgetItem → BudgetItem × ℕ
unfolding estimate_tokens
cut b item =
    let tokens = estimate_tokens item.text in
    if ltb b.per_item_max tokens
    then (record item { text = take (b.per_item_max * 4) item.text }, b.per_item_max)
    else (item, tokens)

abbrev cons_kept : BudgetItem → List BudgetItem × ℕ → List BudgetItem × ℕ
cons_kept x (kept, used) = (x ∷ kept, used)

-- the loop of `fit`, from `used` tokens on
unfoldable pub fit_from : TokenBudget → List BudgetItem → ℕ → List BudgetItem × ℕ
unfolding cut
fit_from b [] used = ([], used)
fit_from b (item ∷ items) used =
    let (packed, tokens) = cut b item in
    let skip = fit_from b items used in
    let take_it = cons_kept packed (fit_from b items (used + tokens)) in
    if ltb b.max_tokens (used + tokens) then skip else take_it

unfoldable pub fit : TokenBudget → List BudgetItem → List BudgetItem × ℕ
unfolding sort_desc fit_from
fit b items = fit_from b (sort_desc (λ (i : BudgetItem). i.score) items) 0
