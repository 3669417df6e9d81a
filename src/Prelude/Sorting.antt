-- ===== src/Prelude/Sorting.antt =====
-- Python's `sorted` with a key, ascending and with `reverse=True`. Both are stable: of two equal keys
-- the earlier element stays first.
use Prim.Native.Nat.{ℕ}
use mathlib.Core.Logic.{inl, inr}
use mathlib.Core.List.{List, [], ◌∷◌}
use kortex_memory.Prelude.Tests.{leb, if◌then◌else◌, Bool-cases}
use kortex_memory.Prelude.Lists.{All}

module _ {ℓ} {A : Type ℓ} (key : A → ℕ) where
  unfoldable pub insert_asc : A → List A → List A
  insert_asc x [] = x ∷ []
  insert_asc x (y ∷ ys) = if leb (key x) (key y) then x ∷ y ∷ ys else y ∷ insert_asc x ys

  unfoldable pub sort_asc : List A → List A
  unfolding insert_asc
  sort_asc [] = []
  sort_asc (x ∷ xs) = insert_asc x (sort_asc xs)

  unfoldable pub insert_desc : A → List A → List A
  insert_desc x [] = x ∷ []
  insert_desc x (y ∷ ys) = if leb (key y) (key x) then x ∷ y ∷ ys else y ∷ insert_desc x ys

  unfoldable pub sort_desc : List A → List A
  unfolding insert_desc
  sort_desc [] = []
  sort_desc (x ∷ xs) = insert_desc x (sort_desc xs)

  module _ {κ} (P : A → Type κ) where
    All-insert_desc : (x : A) (xs : List A) → All P (insert_desc x xs) → P x × All P xs
    unfolding insert_desc
    All-insert_desc x [] h = h
    All-insert_desc x (y ∷ ys) h = elim (Bool-cases (leb (key y) (key x))) [
      | inl le ↦ rw (le, insert_desc) at h
      | inr gt ↦
          let h' : P y × All P (insert_desc x ys) = rw (gt, insert_desc) at h in
          let r : P x × All P ys = All-insert_desc x ys h'.1 in (r.0, (h'.0, r.1))
    ]

    -- a property of a sorted list is one of the list that was sorted
    pub All-sort_desc : (xs : List A) → All P (sort_desc xs) → All P xs
    unfolding sort_desc
    All-sort_desc [] h = tt
    All-sort_desc (x ∷ xs) h =
        let r : P x × All P (sort_desc xs) = All-insert_desc x (sort_desc xs) h in
        (r.0, All-sort_desc xs r.1)

    insert_desc-All : (x : A) (xs : List A) → P x → All P xs → All P (insert_desc x xs)
    unfolding insert_desc
    insert_desc-All x [] p h = (p, tt)
    insert_desc-All x (y ∷ ys) p h = elim (Bool-cases (leb (key y) (key x))) [
      | inl le ↦ rw (le, insert_desc) (p, h)
      | inr gt ↦ rw (gt, insert_desc) (h.0, insert_desc-All x ys p h.1)
    ]

    pub sort_desc-All : (xs : List A) → All P xs → All P (sort_desc xs)
    unfolding sort_desc
    sort_desc-All [] h = tt
    sort_desc-All (x ∷ xs) h = insert_desc-All x (sort_desc xs) h.0 (sort_desc-All xs h.1)

    insert_asc-All : (x : A) (xs : List A) → P x → All P xs → All P (insert_asc x xs)
    unfolding insert_asc
    insert_asc-All x [] p h = (p, tt)
    insert_asc-All x (y ∷ ys) p h = elim (Bool-cases (leb (key x) (key y))) [
      | inl le ↦ rw (le, insert_asc) (p, h)
      | inr gt ↦ rw (gt, insert_asc) (h.0, insert_asc-All x ys p h.1)
    ]

    pub sort_asc-All : (xs : List A) → All P xs → All P (sort_asc xs)
    unfolding sort_asc
    sort_asc-All [] h = tt
    sort_asc-All (x ∷ xs) h = insert_asc-All x (sort_asc xs) h.0 (sort_asc-All xs h.1)
