-- ===== src/Dedup/Lengths.antt =====
-- The `strip` of the texts of dedup.py makes no text longer.
use kortex_memory.Prelude.{Bool-cases, inl, inr, arith, ◌≤◌, ◌+◌, ℕ, [], ◌∷◌, Text, length}
use kortex_memory.Dedup.{strip, lstrip, rstrip, is_space, cons_or_drop}

length-lstrip : (t : Text) → length (lstrip t) ≤ length t
unfolding lstrip
length-lstrip [] = omega arith
length-lstrip (c ∷ t) = elim (Bool-cases (is_space c)) [
  | inl space ↦ rw (space, lstrip) (omega (arith, length-lstrip t))
  | inr other ↦ rw (other, lstrip) (omega arith)
]

rstrip_cons : (c : ℕ) (r : Text) → length (cons_or_drop c r) ≤ length r + 1
rstrip_cons c [] = elim (Bool-cases (is_space c)) [
  | inl space ↦ rw space (omega arith)
  | inr other ↦ rw other (omega arith)
]
rstrip_cons c (d ∷ ds) = omega arith

length-rstrip : (t : Text) → length (rstrip t) ≤ length t
unfolding rstrip
length-rstrip [] = omega arith
length-rstrip (c ∷ t) = omega (arith, rstrip_cons c (rstrip t), length-rstrip t)

pub length-strip : (t : Text) → length (strip t) ≤ length t
unfolding strip
length-strip t = omega (arith, length-rstrip (lstrip t), length-lstrip t)
