-- ===== src/Service/Tenancy/Folding.antt =====
-- The row that `find_by_content_hash` returns is one row of the tenant.
use kortex_memory.Prelude.{
  ℕ, ◌<◌, ◌≡◌, ap, subst, Bool, true, some, [], ◌∷◌, Text, All, In, inl, inr, keep, keep-All,
  sort_asc, sort_asc-All, ◌==◌, arith,
}
use kortex_memory.Types.{ScopeType}
use kortex_memory.Access.{Principal}
use kortex_memory.Memories.{Memory, Table, find}
use kortex_memory.Memories.Rows.{IsOrdered, Found, found}
use kortex_memory.Memories.Queries.{find_by_content_hash, by_content_hash, created, head?}

abbrev pub same_id : Memory → Memory → Bool
same_id m r = r.id == m.id

In-above : (lo : ℕ) (t : Table) (m : Memory) → IsOrdered lo t → In m t → lo < m.id
In-above lo [] m o i = elim i [ ]
In-above lo (r ∷ t) m o (inl e) = omega (arith, o.0, ap (λ (x : Memory). x.id) e)
In-above lo (r ∷ t) m o (inr i) = omega (arith, o.0, In-above r.id t m o.1 i)

find-In : (lo : ℕ) (t : Table) (m : Memory) → IsOrdered lo t → In m t → find (same_id m) t ≡ some m
unfolding find
find-In lo [] m o i = elim i [ ]
find-In lo (r ∷ t) m o (inl e) = ground (arith, ap (λ (x : Memory). x.id) e, e)
find-In lo (r ∷ t) m o (inr i) = ground (arith, In-above r.id t m o.1 i, find-In r.id t m o.1 i)

head?-All : (P : Memory → Type 0) (t : Table) (m : Memory) → All P t → head? t ≡ some m → P m
head?-All P [] m h e = absurd cc e
head?-All P (r ∷ t) m h e = subst P (cc e) h.0

pub content_hash-In :
    (p : Principal) (st : ScopeType) (i : ℕ) (digest : Text) (t : Table) (m : Memory)
    → find_by_content_hash p st i digest t ≡ some m
    → In m t × (by_content_hash p st i digest m ≡ true)
unfolding find_by_content_hash
content_hash-In p st i digest t m e =
    let test : Memory → Bool = by_content_hash p st i digest in
    head?-All (λ x. In x t × (test x ≡ true)) (sort_asc created (keep test t)) m
      (sort_asc-All created (λ x. In x t × (test x ≡ true)) (keep test t) (keep-All test t)) e

pub content_hash-Found :
    (p : Principal) (st : ScopeType) (i : ℕ) (digest : Text) (t : Table) (m : Memory)
    → IsOrdered 0 t
    → find_by_content_hash p st i digest t ≡ some m
    → Found (same_id m) t m
content_hash-Found p st i digest t m o e =
    found (same_id m) 0 t o (find-In 0 t m o (content_hash-In p st i digest t m e).0)
