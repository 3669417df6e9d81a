-- ===== src/Policies/Retrying.antt =====
-- How often and when `decide_retry` of embeddings/retry.py lets a memory be embedded again.
use kortex_memory.Prelude.{
  ℕ, zero, suc, ◌+◌, ◌*◌, ◌^◌, ◌≤◌, min, ◌≡◌, ◌↔◌, true, some, none, arith, refl,
}
use kortex_memory.Policies.{decide_retry, max_backoff_seconds}

module _ (max_attempts base : ℕ) where
  -- the attempts that a memory has behind it after `n` failures in a row
  abbrev pub attempts_after : (ℕ → ℕ) → ℕ → ℕ
  attempts_after clock zero = 0
  attempts_after clock (suc n) =
      (decide_retry (attempts_after clock n) max_attempts base (clock n)).attempts

  attempts_after-eq : (clock : ℕ → ℕ) (n : ℕ) → attempts_after clock n ≡ n
  unfolding decide_retry
  attempts_after-eq clock zero = refl
  attempts_after-eq clock (suc n) = ground (arith, attempts_after-eq clock n)

  -- Failing again and again, a memory is parked by its failure number `max_attempts` and by none
  -- before; a parked memory has no next attempt. At any time.
  pub parked_iff :
      (clock : ℕ → ℕ) (n : ℕ)
      → let d = decide_retry (attempts_after clock n) max_attempts base (clock n) in
        ((d.parked ≡ true) ↔ (max_attempts ≤ n + 1))
        × ((d.parked ≡ true) ↔ (d.next_attempt_at ≡ none))
  unfolding decide_retry
  parked_iff clock n = (
    (
      λ h. ground (arith, attempts_after-eq clock n),
      λ h. ground (arith, attempts_after-eq clock n),
    ),
    (λ h. ground arith, λ h. ground arith),
  )

pow-pos : (k : ℕ) → 1 ≤ 2 ^ k
pow-pos zero = omega arith
pow-pos (suc k) = omega (arith, pow-pos k)

pow_mono : (a b : ℕ) → a ≤ b → 2 ^ a ≤ 2 ^ b
pow_mono zero b h = pow-pos b
pow_mono (suc a) zero h = absurd (omega arith)
pow_mono (suc a) (suc b) h = omega (arith, pow_mono a b (omega arith))

delay_mono : (base a b : ℕ) → a ≤ b → base * 2 ^ a ≤ base * 2 ^ b
delay_mono base a b h = grind (arith, pow_mono a b h)

-- A retry comes no earlier than the base delay, or an hour if that is less, and no later than an hour
-- from now; and the more attempts a memory has behind it, the later it comes.
pub retry_delay :
    (max_attempts base now a b s t : ℕ)
    → (decide_retry a max_attempts base now).next_attempt_at ≡ some s
    → (decide_retry b max_attempts base now).next_attempt_at ≡ some t
    → a ≤ b
    → (now + min base max_backoff_seconds ≤ s) × (s ≤ t) × (t ≤ now + max_backoff_seconds)
unfolding decide_retry
retry_delay max_attempts base now a b s t p q h =
    ground (arith, delay_mono base 0 a (omega arith), delay_mono base a b h)
