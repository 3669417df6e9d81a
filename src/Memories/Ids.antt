-- ===== src/Memories/Ids.antt =====
-- In a table whose ids grow a row is known by its id.
use kortex_memory.Prelude.{ℕ, ◌<◌, ◌≡◌, sym, ◌∙◌, ap, [], ◌∷◌, In, inl, inr, arith}
use kortex_memory.Memories.{Memory, Table}
use kortex_memory.Memories.Rows.{IsOrdered}

pub In-above : (lo : ℕ) (t : Table) (m : Memory) → IsOrdered lo t → In m t → lo < m.id
In-above lo [] m o i = elim i [ ]
In-above lo (r ∷ t) m o (inl e) = omega (arith, o.0, ap (λ (x : Memory). x.id) e)
In-above lo (r ∷ t) m o (inr i) = omega (arith, o.0, In-above r.id t m o.1 i)

-- the id of a row is its own
pub same_row :
    (lo : ℕ) (t : Table) (m r : Memory) → IsOrdered lo t → In m t → In r t → m.id ≡ r.id → m ≡ r
same_row lo [] m r o i j h = elim i [ ]
same_row lo (x ∷ t) m r o (inl e) (inl f) h = e ∙ sym f
same_row lo (x ∷ t) m r o (inl e) (inr j) h =
    absurd omega (arith, In-above x.id t r o.1 j, h, ap (λ (x : Memory). x.id) e)
same_row lo (x ∷ t) m r o (inr i) (inl f) h =
    absurd omega (arith, In-above x.id t m o.1 i, h, ap (λ (x : Memory). x.id) f)
same_row lo (x ∷ t) m r o (inr i) (inr j) h = same_row x.id t m r o.1 i j h
