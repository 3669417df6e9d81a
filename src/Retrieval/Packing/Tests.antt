-- ===== src/Retrieval/Packing/Tests.antt =====
-- Runs of the token budget.
use kortex_memory.Prelude.{ℕ, ◌≡◌, ◌≤◌, refl, List, [], ◌∷◌, All, map, codes}
use kortex_memory.Retrieval.Packing.{BudgetItem, TokenBudget, estimate_tokens, fit}
use kortex_memory.Retrieval.Packing.Laws.{total_tokens, fit_bounds, IsSettled, fit-IsSettled}

abbrev budget : TokenBudget
budget = record { max_tokens = 5; per_item_max = 3 }

-- the second is cut to 12 characters, the third has no room
abbrev items : List BudgetItem
items =
    record { id = 1; text = codes "short"; score = 2 }
    ∷ record { id = 2; text = codes "a text of some length"; score = 5 }
    ∷ record { id = 3; text = codes "another"; score = 1 }
    ∷ []

abbrev ids : List BudgetItem → List ℕ
ids = map (λ i. i.id)

packed : (ids (fit budget items).0 ≡ 2 ∷ 1 ∷ []) × ((fit budget items).1 ≡ 5)
unfolding fit
packed = (refl, refl)

fit_bounds_example :
    ((fit budget items).1 ≡ total_tokens (fit budget items).0)
    × ((fit budget items).1 ≤ budget.max_tokens)
    × All (λ (x : BudgetItem). estimate_tokens x.text ≤ budget.per_item_max) (fit budget items).0
fit_bounds_example = fit_bounds budget items

fit-IsSettled_example : All (IsSettled budget (fit budget items)) items
fit-IsSettled_example = fit-IsSettled budget items
