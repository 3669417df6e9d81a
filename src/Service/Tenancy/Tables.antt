-- ===== src/Service/Tenancy/Tables.antt =====
-- The rows of the other orgs under the writes of a tenant.
use kortex_memory.Prelude.{
  ℕ, ◌+◌, ◌<◌, ◌≡◌, refl, sym, ◌∙◌, ap, Bool, not, List, [], ◌∷◌, ◌++◌, All, keep, Bool-cases, inl,
  inr, ◌==◌, arith,
}
use kortex_memory.Memories.{Memory, Table, replace_row}
use kortex_memory.Memories.Rows.{IsOrdered, Found}

-- the rows of the orgs that are not the tenant's
abbrev pub foreign : ℕ → Table → Table
foreign org = keep (λ m. not (m.org_id == org))

keep-append {ℓ} :
    {A : Type ℓ} (test : A → Bool) (xs ys : List A)
    → keep test (xs ++ ys) ≡ keep test xs ++ keep test ys
keep-append test [] ys = refl
keep-append test (x ∷ xs) ys = ground (arith, keep-append test xs ys)

foreign-own :
    (org : ℕ) (m : Memory) (ms : Table) → m.org_id ≡ org → foreign org (m ∷ ms) ≡ foreign org ms
foreign-own org m ms h = ground arith

foreign-middle :
    (org : ℕ) (xs ys : Table) (m m' : Memory)
    → m.org_id ≡ org
    → m'.org_id ≡ org
    → foreign org (xs ++ m' ∷ ys) ≡ foreign org (xs ++ m ∷ ys)
foreign-middle org xs ys m m' h h' =
    keep-append (λ (r : Memory). not (r.org_id == org)) xs (m' ∷ ys)
    ∙ ap (λ l. foreign org xs ++ l) (foreign-own org m' ys h' ∙ sym (foreign-own org m ys h))
    ∙ sym (keep-append (λ (r : Memory). not (r.org_id == org)) xs (m ∷ ys))

-- A flush of a row that a tenant found.
pub foreign-replace_row :
    (org : ℕ) (test : Memory → Bool) (t : Table) {m : Memory} (m' : Memory)
    → Found test t m
    → m'.id ≡ m.id
    → m.org_id ≡ org
    → m'.org_id ≡ org
    → foreign org (replace_row m' t) ≡ foreign org t
foreign-replace_row org test t {m} m' f i h h' =
    ap (foreign org) (f.replaced m' i)
    ∙ foreign-middle org f.before f.after m m' h h'
    ∙ ap (foreign org) (sym f.parts)

pub foreign-insert :
    (org : ℕ) (t : Table) (m : Memory) → m.org_id ≡ org → foreign org (t ++ m ∷ []) ≡ foreign org t
foreign-insert org [] m h = foreign-own org m [] h
foreign-insert org (r ∷ t) m h = ground (arith, foreign-insert org t m h)

-- the ids below the next one of the sequence
abbrev pub IsBelow : ℕ → Table → Type 0
IsBelow n = All (λ (m : Memory). m.id < n)

pub IsOrdered-replace_row :
    (lo : ℕ) (t : Table) (m : Memory) → IsOrdered lo t → IsOrdered lo (replace_row m t)
unfolding replace_row
IsOrdered-replace_row lo [] m o = tt
IsOrdered-replace_row lo (r ∷ t) m o = elim (Bool-cases (r.id == m.id)) [
  | inl hit ↦ ground (arith, hit, IsOrdered-replace_row r.id t m o.1)
  | inr miss ↦ ground (arith, IsOrdered-replace_row r.id t m o.1)
]

pub IsBelow-replace_row :
    (n : ℕ) (t : Table) (m : Memory) → IsBelow n t → IsBelow n (replace_row m t)
unfolding replace_row
IsBelow-replace_row n [] m b = tt
IsBelow-replace_row n (r ∷ t) m b = ground (arith, IsBelow-replace_row n t m b.1)

pub IsOrdered-insert :
    (lo : ℕ) (t : Table) (m : Memory)
    → IsOrdered lo t
    → lo < m.id
    → IsBelow m.id t
    → IsOrdered lo (t ++ m ∷ [])
IsOrdered-insert lo [] m o h b = (h, tt)
IsOrdered-insert lo (r ∷ t) m o h b = (o.0, IsOrdered-insert r.id t m o.1 b.0 b.1)

pub IsBelow-insert :
    (n : ℕ) (t : Table) (m : Memory) → IsBelow n t → m.id ≡ n → IsBelow (n + 1) (t ++ m ∷ [])
IsBelow-insert n [] m b h = (omega arith, tt)
IsBelow-insert n (r ∷ t) m b h = (omega (arith, b.0), IsBelow-insert n t m b.1 h)
