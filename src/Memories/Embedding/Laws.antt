-- ===== src/Memories/Embedding/Laws.antt =====
-- How a memory leaves the queue of embeddings and returns to it, in repositories/memory_repo.py.
use kortex_memory.Prelude.{
  ℕ, ◌≡◌, ◌≢◌, refl, Bool, true, false, not, ◌&&◌, ◌||◌, Option, some, [], ◌∷◌, Text, All, keep,
  take-All, text_eq, text_eq_iff, sort_asc-All, ◌==◌, if◌then◌else◌, Bool-cases, inl, inr, arith,
}
use kortex_memory.Access.{Principal}
use kortex_memory.Policies.{RetryDecision}
use kortex_memory.Memories.{Memory, Table, Vector, is_none, is_live, in_tenant}
use kortex_memory.Memories.Queries.{created}
use kortex_memory.Memories.Writes.{update_ids}
use kortex_memory.Memories.Embedding.{
  due, other_model, awaits_embedding, list_pending_embedding, embedded, set_embedding, failed_with,
  decision_for,
}

and-both : (a b : Bool) → (a && b) ≡ true → (a ≡ true) × (b ≡ true)
and-both true b h = (refl, h)
and-both false b h = absurd cc h

-- the parts of the test that a failure leaves alone
abbrev wants : Principal → Text → Memory → Bool
wants p model m =
    in_tenant p m && is_live m && (is_none m.embedding || other_model model m.embedding_model)

failing :
    (parked : Bool) (failed : Option ℕ) (wanted over : Bool) (now : ℕ)
    → wanted ≡ true
    → is_none failed ≡ true
    → (wanted && is_none (if parked then some now else failed) && over) ≡ (not parked && over)
failing parked failed wanted over now h k = ground (arith, h, k)

module _ (p : Principal) (model : Text) where
  -- Suppose a memory is eligible for an embedding. After a failed attempt it is eligible at a time `t`
  -- exactly if the failure did not park it and the delay that the retry policy set is over.
  pub awaits_embedding-failed_with :
      (max_attempts base now t : ℕ) (error : Text) (m : Memory)
      → awaits_embedding p model now m ≡ true
      → let d = decision_for max_attempts base now m in
        awaits_embedding p model t (failed_with d error now m)
        ≡ (not d.parked && due t d.next_attempt_at)
  awaits_embedding-failed_with max_attempts base now t error m h =
      let d : RetryDecision = decision_for max_attempts base now m in
      let last = and-both (wants p model m && is_none m.embed_failed_at) _ h in
      let failed = and-both (wants p model m) (is_none m.embed_failed_at) last.0 in
      failing d.parked m.embed_failed_at (wants p model m) (due t d.next_attempt_at) now failed.0
        failed.1

  embedded-gone :
      (v : Vector) (now : ℕ) (m : Memory)
      → awaits_embedding p model now (embedded v model m) ≡ false
  embedded-gone v now m =
      let same : text_eq model model ≡ true = (text_eq_iff model model).1 refl in
      ground (arith, same)

  others :
      (i : ℕ) (v : Vector) (now : ℕ) (t : Table)
      → All
          (λ (m : Memory). m.id ≢ i)
          (keep (awaits_embedding p model now) (update_ids (i ∷ []) (embedded v model) t))
  others i v now [] = tt
  others i v now (m ∷ t) = elim (Bool-cases (m.id == i)) [
    | inl hit ↦ rw (hit, embedded-gone v now m) (others i v now t)
    | inr miss ↦ elim (Bool-cases (awaits_embedding p model now m)) [
      | inl waits ↦ rw (miss, waits) ((λ e. ground (arith, miss, e)), others i v now t)
      | inr done ↦ rw (miss, done) (others i v now t)
    ]
  ]

  -- Once a vector of the current model is stored for a memory, the queue does not hold it.
  pub list_pending_embedding-set_embedding :
      (i : ℕ) (v : Vector) (now limit : ℕ) (t : Table)
      → All
          (λ (m : Memory). m.id ≢ i)
          (list_pending_embedding p model now limit (set_embedding i v model t))
  unfolding list_pending_embedding set_embedding
  list_pending_embedding-set_embedding i v now limit t =
      take-All (λ (m : Memory). m.id ≢ i) limit _
        (sort_asc-All created (λ (m : Memory). m.id ≢ i) _ (others i v now t))
