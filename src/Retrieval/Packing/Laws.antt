-- ===== src/Retrieval/Packing/Laws.antt =====
-- What `TokenBudget.fit` of retrieval/token_budget.py returns.
use kortex_memory.Prelude.{
  ℕ, ◌+◌, ◌*◌, ◌≤◌, ◌<◌, List, [], ◌∷◌, ◌≡◌, ◌⊎◌, inl, inr, Text, length, take, length-take, In,
  All, All-map, arith, refl, Bool-cases, sort_desc, All-sort_desc, subst, sym, ltb, true, false,
  ◌/◌,
}
use kortex_memory.Retrieval.Packing.{BudgetItem, TokenBudget, estimate_tokens, cut, fit_from, fit}

-- the tokens of the kept texts, counted anew
abbrev pub total_tokens : List BudgetItem → ℕ
total_tokens [] = 0
total_tokens (x ∷ xs) = estimate_tokens x.text + total_tokens xs

estimate_tokens-eq-div : (t : Text) → estimate_tokens t ≡ (length t + 3) / 4
unfolding estimate_tokens
estimate_tokens-eq-div [] = refl
estimate_tokens-eq-div (c ∷ cs) = omega arith

-- A cut text has the tokens that `fit` counts for it, and no more than an item may have.
estimate_tokens-cut :
    (b : TokenBudget) (x : BudgetItem)
    → (estimate_tokens (cut b x).0.text ≡ (cut b x).1) × ((cut b x).1 ≤ b.per_item_max)
unfolding cut
estimate_tokens-cut b x = ground (
  arith,
  estimate_tokens-eq-div x.text,
  estimate_tokens-eq-div (take (b.per_item_max * 4) x.text),
  length-take (b.per_item_max * 4) x.text,
)

fit_from_bound :
    (b : TokenBudget) (xs : List BudgetItem) (used : ℕ)
    → used ≤ b.max_tokens
    → ((fit_from b xs used).1 ≤ b.max_tokens)
      × ((fit_from b xs used).1 ≡ used + total_tokens (fit_from b xs used).0)
unfolding fit_from
fit_from_bound b [] used h = omega arith
fit_from_bound b (x ∷ xs) used h = ground (
  arith,
  estimate_tokens-cut b x,
  fit_from_bound b xs used,
  fit_from_bound b xs (used + (cut b x).1),
)

-- every packed item is within the cap of one item
fit_from-per_item :
    (b : TokenBudget) (xs : List BudgetItem) (used : ℕ)
    → All (λ (x : BudgetItem). estimate_tokens x.text ≤ b.per_item_max) (fit_from b xs used).0
unfolding fit_from
fit_from-per_item b [] used = tt
fit_from-per_item b (x ∷ xs) used = ground (
  arith,
  estimate_tokens-cut b x,
  fit_from-per_item b xs used,
  fit_from-per_item b xs (used + (cut b x).1),
)

le-fit_from : (b : TokenBudget) (xs : List BudgetItem) (used : ℕ) → used ≤ (fit_from b xs used).1
unfolding fit_from
le-fit_from b [] used = omega arith
le-fit_from b (x ∷ xs) used =
    ground (arith, le-fit_from b xs used, le-fit_from b xs (used + (cut b x).1))

-- kept as cut, or too large for what is left at the end
abbrev pub IsSettled : TokenBudget → List BudgetItem × ℕ → BudgetItem → Type 0
IsSettled b r x = In (cut b x).0 r.0 ⊎ (b.max_tokens < r.1 + (cut b x).1)

-- `if used + tokens > self.max_tokens: continue`
fit_from-skip :
    (b : TokenBudget) (x : BudgetItem) (xs : List BudgetItem) (used : ℕ)
    → ltb b.max_tokens (used + (cut b x).1) ≡ true
    → fit_from b (x ∷ xs) used ≡ fit_from b xs used
unfolding fit_from
fit_from-skip b x xs used h = rw h

fit_from-take :
    (b : TokenBudget) (x : BudgetItem) (xs : List BudgetItem) (used : ℕ)
    → ltb b.max_tokens (used + (cut b x).1) ≡ false
    → fit_from b (x ∷ xs) used ≡ (
      (cut b x).0 ∷ (fit_from b xs (used + (cut b x).1)).0,
      (fit_from b xs (used + (cut b x).1)).1,
    )
unfolding fit_from
fit_from-take b x xs used h = rw h

IsSettled-cons :
    (b : TokenBudget) (k : BudgetItem) (r : List BudgetItem × ℕ) (y : BudgetItem)
    → IsSettled b r y
    → IsSettled b (k ∷ r.0, r.1) y
IsSettled-cons b k r y (inl kept) = inl (inr kept)
IsSettled-cons b k r y (inr big) = inr big

fit_from-IsSettled :
    (b : TokenBudget) (xs : List BudgetItem) (used : ℕ) → All (IsSettled b (fit_from b xs used)) xs
fit_from-IsSettled b [] used = tt
fit_from-IsSettled b (x ∷ xs) used = elim (Bool-cases (ltb b.max_tokens (used + (cut b x).1))) [
  | inl over ↦
      subst (λ r. All (IsSettled b r) (x ∷ xs)) (sym (fit_from-skip b x xs used over))
        (inr (ground (arith, le-fit_from b xs used)), fit_from-IsSettled b xs used)
  | inr fits ↦
      subst (λ r. All (IsSettled b r) (x ∷ xs)) (sym (fit_from-take b x xs used fits))
        (
          inl (inl refl),
          All-map xs (IsSettled-cons b (cut b x).0 (fit_from b xs (used + (cut b x).1)))
              (fit_from-IsSettled b xs (used + (cut b x).1)),
        )
]

abbrev score : BudgetItem → ℕ
score i = i.score

-- The tokens that `fit` reports are those of the kept texts counted anew; they do not pass
-- `max_tokens`, and no kept text has more than `per_item_max` of them.
pub fit_bounds :
    (b : TokenBudget) (items : List BudgetItem)
    → ((fit b items).1 ≡ total_tokens (fit b items).0)
      × ((fit b items).1 ≤ b.max_tokens)
      × All (λ (x : BudgetItem). estimate_tokens x.text ≤ b.per_item_max) (fit b items).0
unfolding fit
fit_bounds b items =
    let bound = fit_from_bound b (sort_desc score items) 0 (omega arith) in
    (omega (arith, bound.1), bound.0, fit_from-per_item b (sort_desc score items) 0)

-- The packing is greedy to the end: every item is kept, cut to its cap, or would pass `max_tokens`
-- on top of what was packed in all.
pub fit-IsSettled :
    (b : TokenBudget) (items : List BudgetItem) → All (IsSettled b (fit b items)) items
unfolding fit
fit-IsSettled b items =
    All-sort_desc score (IsSettled b (fit b items)) items
      (fit_from-IsSettled b (sort_desc score items) 0)
