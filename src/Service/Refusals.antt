-- ===== src/Service/Refusals.antt =====
-- Calls that services/memory_service.py refuses, and calls that it lets through.
use kortex_memory.Prelude.{
  ℕ, ◌+◌, ◌≡◌, refl, ap, Bool, true, false, Option, List, [], ◌∷◌, if◌then◌else◌,
}
use kortex_memory.Access.{Principal, can_write, has_key_scope}
use kortex_memory.Memories.{Memory}
use kortex_memory.Memories.Queries.{get_by_public_id}
use kortex_memory.Service.Exec.{
  Error, unknown_action, ok, err, Exec, access_denied, raise_unless, pure, ◌>>=◌, ◌>>◌,
}
use kortex_memory.Service.Exec.Laws.{raise_unless-ok, raise_unless-raised}
use kortex_memory.Service.State.{State, Environment}
use kortex_memory.Service.Requests.{Request, serve, write, review, update, delete, pin, bulk_apply}
use kortex_memory.Service.Write.{require_scope, project_config, governed_write, target_of}
use kortex_memory.Service.Write
use kortex_memory.Service.Methods
use kortex_memory.Service.Methods.{
  BulkAction, bulk_one, bulk_from, flush, lookup, require_write, reclassify, resource_of,
  update_found, pin_found, delete_found, review_found, is_some,
}

module _ (env : Environment) (p : Principal)
    (no_scope : has_key_scope p "write:memory" ≡ false) where
  refused :
      {A : Type 0} (k : Exec State A) (s : State)
      → (require_scope env p "write:memory" >> k) s ≡ (err access_denied, s)
  unfolding require_scope
  refused k s = raise_unless-raised (has_key_scope p "write:memory") access_denied k s no_scope

  stopped :
      {A B : Type 0} (e : Error) (m : Exec State A) (f : A → Exec State B) (s : State)
      → m s ≡ (err e, s)
      → (m >>= f) s ≡ (err e, s)
  unfolding ◌>>=◌
  stopped e m f s h = rw h

  pin-refused :
      (i : ℕ) (b : Bool) (s : State) → Methods.pin_memory env p i b s ≡ (err access_denied, s)
  unfolding Methods.pin_memory
  pin-refused i b s = refused (lookup env p i >>= pin_found env p b) s

  delete-refused : (i : ℕ) (s : State) → Methods.delete_memory env p i s ≡ (err access_denied, s)
  unfolding Methods.delete_memory
  delete-refused i s = refused (lookup env p i >>= delete_found env p) s

  bulk_one-refused :
      (a : BulkAction) (i : ℕ) (s : State) → (e : Error) × (bulk_one env p a i s ≡ (err e, s))
  unfolding bulk_one
  bulk_one-refused BulkAction.pin i s = (
    access_denied,
    stopped access_denied (Methods.pin_memory env p i true) (λ m. pure (is_some env p m)) s
        (pin-refused i true s),
  )
  bulk_one-refused BulkAction.unpin i s = (
    access_denied,
    stopped access_denied (Methods.pin_memory env p i false) (λ m. pure (is_some env p m)) s
        (pin-refused i false s),
  )
  bulk_one-refused BulkAction.delete i s = (access_denied, delete-refused i s)
  bulk_one-refused BulkAction.unknown i s = (unknown_action, refl)

  bulk_from-refused :
      (a : BulkAction) (ids : List ℕ) (n : ℕ) (s : State) → (bulk_from env p a ids n s).1 ≡ s
  unfolding bulk_from
  bulk_from-refused a [] n s = refl
  bulk_from-refused a (i ∷ ids) n s =
      let r = bulk_one-refused a i s in
      ap (λ x. x.1)
        (stopped r.0 (bulk_one env p a i)
          (λ done. bulk_from env p a ids (n + (if done then 1 else 0))) s r.1)

  -- If the key of a caller has scopes and "write:memory" is not one of them, then no write, review,
  -- update, deletion, pin or bulk action of this caller changes anything.
  pub serve-refused : (r : Request) (s : State) → serve env p r s ≡ s
  unfolding serve Methods.bulk_apply Write.write Methods.review Methods.update
  serve-refused (write x b force) s =
      ap (λ r. r.1)
        (refused
          (raise_unless (can_write p (target_of env p x)) access_denied
            >> (project_config env p x >>= governed_write env p x b force))
          s)
  serve-refused (review i approve) s =
      ap (λ r. r.1) (refused (lookup env p i >>= review_found env p approve) s)
  serve-refused (update i c) s = ap (λ r. r.1) (refused (lookup env p i >>= update_found env p c) s)
  serve-refused (delete i) s = ap (λ r. r.1) (delete-refused i s)
  serve-refused (pin i b) s = ap (λ r. r.1) (pin-refused i b s)
  serve-refused (bulk_apply a ids) s = bulk_from-refused a ids 0 s

module _ (env : Environment) (p : Principal) where
  -- what a method that looks a memory up does once its key has the scope
  pub looked_up :
      {A : Type 0} (i : ℕ) (k : Option Memory → Exec State A) (s : State) (a : A)
      → ((require_scope env p "write:memory" >> (lookup env p i >>= k)) s).0 ≡ ok a
      → (require_scope env p "write:memory" >> (lookup env p i >>= k)) s
        ≡ k (get_by_public_id p i s.memories) s
  unfolding require_scope ◌>>=◌
  looked_up i k s a h =
      (raise_unless-ok (has_key_scope p "write:memory") access_denied (lookup env p i >>= k) s a
        h).1
