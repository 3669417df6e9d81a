-- ===== src/Service/Repeats/Folds.antt =====
-- A second write of the same input folds, in services/memory_service.py.
use Prim.Native.String.{String}
use kortex_memory.Prelude.{
  ℕ, ◌≡◌, refl, sym, ◌∙◌, ap, subst, Bool, true, false, Option, none, some, Text, length, In,
}
use kortex_memory.Types.{ScopeType, scope_type_eq}
use kortex_memory.Access.{Principal, can_write, has_key_scope}
use kortex_memory.Policies.{ReviewDecision}
use kortex_memory.Memories.{Memory}
use kortex_memory.Memories.Rows.{length-replace_row, IsOrdered}
use kortex_memory.Memories.Queries.{find_by_content_hash}
use kortex_memory.Memories.Writes.{record_duplicate}
use kortex_memory.Service.Exec.{
  Result, ok, continue, Exec, access_denied, raise_unless, ◌>>=◌, ◌>>◌,
}
use kortex_memory.Service.Exec.Laws.{raise_unless-ok, raise_unless-passed, bind-ok}
use kortex_memory.Service.Governance.{CreateMemoryInput, MemoryWrite, govern, review_of, digest_of}
use kortex_memory.Service.State.{State, Environment}
use kortex_memory.Service.Write.{
  Config, default_config, config_for, remembered, cached_config, require_scope, project_config,
  existing, fold_into, folded, fold_or_store, write, governed_write, target_of,
}
use kortex_memory.Service.Tenancy.Folding.{content_hash-In, content_hash-Found, same_id}
use kortex_memory.Service.Repeats.{IsHeld, store-IsHeld, fold_into-IsHeld, find_by_content_hash-In}

module _ (env : Environment) (p : Principal) where
  -- the settings of the project are always found, and the tables stay
  record IsConfigured (i : ℕ) (b : Bool) (s : State) : Type 0 where
    pub config : Config
    pub returned : (config_for env p b i s).0 ≡ ok config
    pub same : (config_for env p b i s).1.memories ≡ s.memories

  remembered-same :
      (i : ℕ) (c : Option Config) (s : State) → (remembered env p i c s).1.memories ≡ s.memories
  remembered-same i none s = refl
  remembered-same i (some c) s = refl

  remembered-ok :
      (i : ℕ) (c : Option Config) (s : State) → (k : Config) × ((remembered env p i c s).0 ≡ ok k)
  remembered-ok i none s = (_, refl)
  remembered-ok i (some c) s = (c, refl)

  configured : (i : ℕ) (b : Bool) (s : State) → IsConfigured i b s
  configured i true s =
      let c = cached_config env p i s.project_settings in
      record {
        config = (remembered-ok i c s).0;
        returned = (remembered-ok i c s).1;
        same = remembered-same i c s;
      }
  configured i false s = record { config = default_config; returned = refl; same = refl }

  module _ (x : CreateMemoryInput) (digest : Text)
      (e : digest_of env (govern env x) ≡ some digest) where
    abbrev IsHeldAt : State → Type 0
    IsHeldAt = IsHeld env p x digest

    existing-IsHeld :
        (o : Option Memory) (b : Bool) (d : ReviewDecision) (ts : String) (s : State)
        (r : MemoryWrite)
        → IsOrdered 0 s.memories
        → find_by_content_hash p x.scope_type x.scope_id digest s.memories ≡ o
        → (fold_or_store env p o b x (govern env x) d ts s).0 ≡ ok r
        → IsHeldAt (fold_or_store env p o b x (govern env x) d ts s).1
    existing-IsHeld none b d ts s r o q h =
        store-IsHeld env p x digest b (govern env x) d ts s r e h
    existing-IsHeld (some m) b d ts s r o q h =
        fold_into-IsHeld env p x digest (same_id m) m s
          (content_hash-Found p x.scope_type x.scope_id digest s.memories m o q)
          (content_hash-In p x.scope_type x.scope_id digest s.memories m q).1

    hashed-IsHeld :
        (force b : Bool) (d : ReviewDecision) (ts : String) (s : State) (r : MemoryWrite)
        → IsOrdered 0 s.memories
        → (fold_or_store env p (existing env p force x (some digest) s) b x (govern env x) d ts s).0
          ≡ ok r
        → IsHeldAt
            (fold_or_store env p
              (existing env p force x (some digest) s)
              b
              x
              (govern env x)
              d
              ts
              s).1
    hashed-IsHeld true b d ts s r o h = store-IsHeld env p x digest b (govern env x) d ts s r e h
    hashed-IsHeld false b d ts s r o h = existing-IsHeld _ b d ts s r o refl h

    governed-IsHeld :
        (force b : Bool) (c : Config) (s : State) (r : MemoryWrite)
        → IsOrdered 0 s.memories
        → (governed_write env p x b force c s).0 ≡ ok r
        → IsHeldAt (governed_write env p x b force c s).1
    unfolding ◌>>=◌
    governed-IsHeld force b c s r o h =
        let d : ReviewDecision = review_of env c.0 x (govern env x) in
        subst
          (λ q.
            (fold_or_store env p (existing env p force x q s) b x (govern env x) d c.1 s).0 ≡ ok r
            → IsHeldAt
                (fold_or_store env p (existing env p force x q s) b x (govern env x) d c.1 s).1)
          (sym e) (hashed-IsHeld force b d c.1 s r o) h

    -- what a write that folds does
    pub record IsFolded (s : State) (o : Result MemoryWrite × State) : Type 0 where
      pub reply : MemoryWrite
      pub returned : o.0 ≡ ok reply
      pub deduped : reply.deduped ≡ true
      pub size : length o.1.memories ≡ length s.memories

    found-IsFolded :
        (o : Option Memory) (b : Bool) (d : ReviewDecision) (ts : String) (s : State)
        → ((m : Memory) × (o ≡ some m))
        → IsFolded s (fold_or_store env p o b x (govern env x) d ts s)
    unfolding fold_into record_duplicate
    found-IsFolded none b d ts s h = absurd cc h.1
    found-IsFolded (some m) b d ts s h = record {
      reply = folded env p (record_duplicate s.now x.metadata m);
      returned = refl;
      deduped = refl;
      size = length-replace_row (record_duplicate s.now x.metadata m) s.memories;
    }

    governed-IsFolded :
        (b : Bool) (c : Config) (s : State)
        → IsHeldAt s
        → IsFolded s (governed_write env p x b false c s)
    unfolding ◌>>=◌
    governed-IsFolded b c s held =
        let d : ReviewDecision = review_of env c.0 x (govern env x) in
        subst
          (λ q.
            IsFolded s
              (fold_or_store env p (existing env p false x q s) b x (govern env x) d c.1 s))
          (sym e)
          (found-IsFolded (find_by_content_hash p x.scope_type x.scope_id digest s.memories) b d c.1
            s
            (find_by_content_hash-In p x.scope_type x.scope_id digest s.memories held.row
              held.stands held.matches))

    body-IsFolded :
        (b : Bool) (s : State)
        → IsHeldAt s
        → IsFolded s ((project_config env p x >>= governed_write env p x b false) s)
    unfolding ◌>>=◌ project_config
    body-IsFolded b s held =
        let named : Bool = scope_type_eq x.scope_type ScopeType.project in
        let c = configured x.scope_id named s in
        let s1 : State = (config_for env p named x.scope_id s).1 in
        let held' : IsHeldAt s1 = record {
          row = held.row;
          stands = subst (In held.row) (sym c.same) held.stands;
          matches = held.matches;
        } in
        let f = governed-IsFolded b c.config s1 held' in
        subst (λ r. IsFolded s (continue r (governed_write env p x b false) s1)) (sym c.returned)
          (record {
            reply = f.reply;
            returned = f.returned;
            deduped = f.deduped;
            size = f.size ∙ ap (λ t. length t) c.same;
          })

    body-IsHeld :
        (b force : Bool) (s : State) (r : MemoryWrite)
        → IsOrdered 0 s.memories
        → ((project_config env p x >>= governed_write env p x b force) s).0 ≡ ok r
        → IsHeldAt ((project_config env p x >>= governed_write env p x b force) s).1
    unfolding project_config
    body-IsHeld b force s r o h =
        let c = configured x.scope_id (scope_type_eq x.scope_type ScopeType.project) s in
        let first = bind-ok (project_config env p x) (governed_write env p x b force) s r h in
        subst (λ q. IsHeldAt q.1) (sym first.goes_on)
          (governed-IsHeld force b first.value (project_config env p x s).1 r
            (subst (IsOrdered 0) (sym c.same) o) (sym (ap (λ q. q.0) first.goes_on) ∙ h))

    -- If a write returned, forced or not, where the fingerprint of what it stores is taken and the rows
    -- stand in the order of their ids, then a second, unforced write of the same input returns too: it
    -- reports that it folded into a memory that was there, and adds no row.
    pub write-IsFolded :
        (b force b' : Bool) (s : State) (r : MemoryWrite)
        → IsOrdered 0 s.memories
        → (write env p x b force s).0 ≡ ok r
        → IsFolded (write env p x b force s).1 (write env p x b' false (write env p x b force s).1)
    unfolding write require_scope
    write-IsFolded b force b' s r o h =
        let body : Bool → Bool → Exec State MemoryWrite =
          λ b force. project_config env p x >>= governed_write env p x b force in
        let guarded : Bool → Bool → Exec State MemoryWrite =
          λ b force. raise_unless (can_write p (target_of env p x)) access_denied >> body b force in
        let scoped =
          raise_unless-ok (has_key_scope p "write:memory") access_denied (guarded b force) s r h in
        let h1 : (guarded b force s).0 ≡ ok r = sym (ap (λ q. q.0) scoped.1) ∙ h in
        let allowed =
          raise_unless-ok (can_write p (target_of env p x)) access_denied (body b force) s r h1 in
        let h2 : (body b force s).0 ≡ ok r = sym (ap (λ q. q.0) allowed.1) ∙ h1 in
        let s1 : State = (write env p x b force s).1 in
        let held : IsHeldAt s1 =
          subst (λ q. IsHeldAt q.1) (sym (scoped.1 ∙ allowed.1)) (body-IsHeld b force s r o h2) in
        subst (IsFolded s1)
          (sym (
            raise_unless-passed (has_key_scope p "write:memory") access_denied (guarded b' false) s1
              scoped.0
            ∙ raise_unless-passed (can_write p (target_of env p x)) access_denied (body b' false) s1
                allowed.0))
          (body-IsFolded b' s1 held)
