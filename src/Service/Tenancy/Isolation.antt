-- ===== src/Service/Tenancy/Isolation.antt =====
-- Each writing method of services/memory_service.py leaves the other orgs alone.
use kortex_memory.Prelude.{
  ℕ, ◌+◌, ◌≡◌, refl, Bool, true, false, Option, none, some, List, [], ◌∷◌, if◌then◌else◌,
}
use kortex_memory.Types.{Sensitivity, ReviewStatus, status_eq}
use kortex_memory.Access.{Principal, can_write, has_key_scope}
use kortex_memory.Memories.{Memory}
use kortex_memory.Memories.Rows.{Found}
use kortex_memory.Memories.Queries.{get_by_public_id, by_public_id}
use kortex_memory.Memories.Writes.{
  Changes, soft_delete, set_pinned, update_fields, set_review_status,
}
use kortex_memory.Service.Exec.{Exec, access_denied, pure, ◌>>=◌, ◌>>◌}
use kortex_memory.Service.State.{State, Environment}
use kortex_memory.Service.Write.{require_scope}
use kortex_memory.Service.Methods.{
  BulkAction, pin, unpin, delete, unknown, flush, audit, decide, review_found, review, update_found,
  reclassify, update, delete_found, delete_memory, pin_found, pin_memory, bulk_one, bulk_from,
  bulk_apply, resource_of, lookup, require_write, carry_out_deletion, deletion, is_some,
}
use kortex_memory.Service.Tenancy.Steps.{
  IsSafe, gets-IsSafe, Keeps-refl, if-IsSafe, pure-IsSafe, raise_unless-IsSafe, bind-IsSafe,
  flush-IsSafe, audit-IsSafe, on_Found,
}

module _ (env : Environment) (p : Principal) (tenant : p.is_superuser ≡ false) where
  decide-IsSafe :
      (i : ℕ) (approve : Bool) (m : Memory) (s : State)
      → Found (by_public_id p i) s.memories m
      → m.org_id ≡ p.org_id
      → IsSafe p.org_id (decide env p approve m) s
  unfolding set_review_status
  decide-IsSafe i approve m s f own = gets-IsSafe p.org_id _ _ s (
      bind-IsSafe p.org_id _ _ s (flush-IsSafe env p (by_public_id p i) m _ s f refl own own) (λ _.
        bind-IsSafe p.org_id _ _ _ (audit-IsSafe env p _ _ refl) (λ _. pure-IsSafe p.org_id _ _)))

  -- the scope of the key, and the lookup
  access-IsSafe :
      {A : Type 0} (i : ℕ) (k : Option Memory → Exec State A) (s : State)
      → IsSafe p.org_id (k none) s
      → ((m : Memory)
          → Found (by_public_id p i) s.memories m
          → m.org_id ≡ p.org_id
          → IsSafe p.org_id (k (some m)) s)
      → IsSafe p.org_id (require_scope env p "write:memory" >> (lookup env p i >>= k)) s
  unfolding require_scope
  access-IsSafe i k s missed h =
      raise_unless-IsSafe p.org_id (has_key_scope p "write:memory") access_denied
        (lookup env p i >>= k) s
        (gets-IsSafe p.org_id (λ s. get_by_public_id p i s.memories) k s
          (on_Found env p i s k tenant missed h))

  permitted-IsSafe :
      {A : Type 0} (m : Memory) (t : Sensitivity) (k : Exec State A) (s : State)
      → IsSafe p.org_id k s
      → IsSafe p.org_id (require_write env p m t >> k) s
  permitted-IsSafe m t k s h =
      raise_unless-IsSafe p.org_id (can_write p (resource_of m t)) access_denied k s h

  flushed-IsSafe :
      {A : Type 0} (i : ℕ) (m m' : Memory) (a : A) (s : State)
      → Found (by_public_id p i) s.memories m
      → m.org_id ≡ p.org_id
      → m'.id ≡ m.id
      → m'.org_id ≡ p.org_id
      → IsSafe p.org_id (flush m' >> pure a) s
  flushed-IsSafe i m m' a s f own same own' =
      bind-IsSafe p.org_id _ _ s (flush-IsSafe env p (by_public_id p i) m m' s f same own own')
        (λ _. pure-IsSafe p.org_id a _)

  pub review-IsSafe :
      (i : ℕ) (approve : Bool) (s : State) → IsSafe p.org_id (review env p i approve) s
  unfolding review
  review-IsSafe i approve s =
      access-IsSafe i (review_found env p approve) s (pure-IsSafe p.org_id none s) (λ m f own.
        permitted-IsSafe m m.sensitivity
          (if status_eq m.review_status ReviewStatus.pending
            then decide env p approve m
            else pure (some m))
          s
          (if-IsSafe p.org_id (status_eq m.review_status ReviewStatus.pending)
            (decide env p approve m) (pure (some m)) s (decide-IsSafe i approve m s f own)
            (pure-IsSafe p.org_id (some m) s)))

  reclassify-IsSafe :
      {A : Type 0} (o : Option Sensitivity) (m : Memory) (k : Exec State A) (s : State)
      → IsSafe p.org_id k s
      → IsSafe p.org_id (reclassify env p o m >> k) s
  reclassify-IsSafe none m k s h =
      bind-IsSafe p.org_id (pure tt) (λ _. k) s (pure-IsSafe p.org_id tt s) (λ _. h)
  reclassify-IsSafe (some t) m k s h = permitted-IsSafe m t k s h

  pub update-IsSafe : (i : ℕ) (c : Changes) (s : State) → IsSafe p.org_id (update env p i c) s
  unfolding update update_fields
  update-IsSafe i c s =
      access-IsSafe i (update_found env p c) s (pure-IsSafe p.org_id none s) (λ m f own.
        let changed = flush (update_fields c m) >> pure (some (update_fields c m)) in
        permitted-IsSafe m m.sensitivity (reclassify env p c.sensitivity m >> changed) s (
          reclassify-IsSafe c.sensitivity m changed s
            (flushed-IsSafe i m (update_fields c m) (some (update_fields c m)) s f own refl own)))

  deleted-IsSafe :
      (i : ℕ) (m : Memory) (s : State)
      → Found (by_public_id p i) s.memories m
      → m.org_id ≡ p.org_id
      → IsSafe p.org_id (carry_out_deletion env p m) s
  unfolding soft_delete
  deleted-IsSafe i m s f own =
      gets-IsSafe p.org_id (λ s. s.now)
        (λ now. flush (soft_delete now m) >> (audit env p (deletion env p m) >> pure true)) s
        (bind-IsSafe p.org_id (flush (soft_delete s.now m))
          (λ _. audit env p (deletion env p m) >> pure true) s
          (flush-IsSafe env p (by_public_id p i) m (soft_delete s.now m) s f refl own own)
          (λ _.
            bind-IsSafe p.org_id (audit env p (deletion env p m)) (λ _. pure true) _
              (audit-IsSafe env p (deletion env p m) _ refl) (λ _. pure-IsSafe p.org_id true _)))

  pub delete_memory-IsSafe : (i : ℕ) (s : State) → IsSafe p.org_id (delete_memory env p i) s
  unfolding delete_memory
  delete_memory-IsSafe i s =
      access-IsSafe i (delete_found env p) s (pure-IsSafe p.org_id false s) (λ m f own.
        permitted-IsSafe m m.sensitivity (carry_out_deletion env p m) s
          (deleted-IsSafe i m s f own))

  pub pin_memory-IsSafe : (i : ℕ) (b : Bool) (s : State) → IsSafe p.org_id (pin_memory env p i b) s
  unfolding pin_memory set_pinned
  pin_memory-IsSafe i b s =
      access-IsSafe i (pin_found env p b) s (pure-IsSafe p.org_id none s) (λ m f own.
        permitted-IsSafe m m.sensitivity (flush (set_pinned b m) >> pure (some (set_pinned b m))) s
          (flushed-IsSafe i m (set_pinned b m) (some (set_pinned b m)) s f own refl own))

  bulk_one-IsSafe : (a : BulkAction) (i : ℕ) (s : State) → IsSafe p.org_id (bulk_one env p a i) s
  unfolding bulk_one
  bulk_one-IsSafe pin i s =
      bind-IsSafe p.org_id (pin_memory env p i true) (λ a. pure (is_some env p a)) s
        (pin_memory-IsSafe i true s) (λ a. pure-IsSafe p.org_id (is_some env p a) _)
  bulk_one-IsSafe unpin i s =
      bind-IsSafe p.org_id (pin_memory env p i false) (λ a. pure (is_some env p a)) s
        (pin_memory-IsSafe i false s) (λ a. pure-IsSafe p.org_id (is_some env p a) _)
  bulk_one-IsSafe delete i s = delete_memory-IsSafe i s
  bulk_one-IsSafe unknown i s = record { kept = Keeps-refl p.org_id s }

  bulk_from-IsSafe :
      (a : BulkAction) (ids : List ℕ) (n : ℕ) (s : State)
      → IsSafe p.org_id (bulk_from env p a ids n) s
  unfolding bulk_from
  bulk_from-IsSafe a [] n s = pure-IsSafe p.org_id n s
  bulk_from-IsSafe a (i ∷ ids) n s =
      bind-IsSafe p.org_id (bulk_one env p a i)
        (λ done. bulk_from env p a ids (n + (if done then 1 else 0))) s (bulk_one-IsSafe a i s)
        (λ done. bulk_from-IsSafe a ids (n + (if done then 1 else 0)) _)

  pub bulk_apply-IsSafe :
      (a : BulkAction) (ids : List ℕ) (s : State) → IsSafe p.org_id (bulk_apply env p a ids) s
  unfolding bulk_apply
  bulk_apply-IsSafe a ids s = bulk_from-IsSafe a ids 0 s
