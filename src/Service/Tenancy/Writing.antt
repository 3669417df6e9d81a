-- ===== src/Service/Tenancy/Writing.antt =====
-- `MemoryService.write` of services/memory_service.py leaves the other orgs alone.
use Prim.Native.String.{String}
use kortex_memory.Prelude.{ℕ, ◌≡◌, refl, Bool, true, false, Option, none, some, Text, leb, arith}
use kortex_memory.Types.{ScopeType, scope_type_eq}
use kortex_memory.Access.{Principal, can_write, has_key_scope}
use kortex_memory.Policies.{ReviewDecision, max_memories}
use kortex_memory.Memories.{Memory, Vector}
use kortex_memory.Memories.Rows.{Found}
use kortex_memory.Memories.Queries.{find_by_content_hash, by_content_hash}
use kortex_memory.Memories.Writes.{NewMemory, new_row, record_duplicate}
use kortex_memory.Service.Exec.{Exec, access_denied, raise_unless, pure, ◌>>=◌, ◌>>◌}
use kortex_memory.Service.Governance.{
  CreateMemoryInput, MemoryWrite, Governed, govern, review_of, digest_of,
}
use kortex_memory.Service.State.{State, Environment}
use kortex_memory.Service.Write.{
  Config, counted_in, config_for, count_of, plan_of, embedded_text, embedded_with, remembered,
  cached_config, require_scope, within_cap, enforce_memory_quota, project_config, inline_embedding,
  create_row, existing, fold_into, store, fold_or_store, write, governed_write, target_of,
  new_memory, stored,
}
use kortex_memory.Service.Methods.{flush}
use kortex_memory.Service.Tenancy.Tables.{foreign-insert, IsOrdered-insert, IsBelow-insert}
use kortex_memory.Service.Tenancy.Folding.{content_hash-In, content_hash-Found, same_id}
use kortex_memory.Service.Tenancy.Steps.{
  Keeps, Keeps-refl, IsSafe, gets-IsSafe, pure-IsSafe, raise_unless-IsSafe, bind-IsSafe,
  flush-IsSafe,
}

module _ (env : Environment) (p : Principal) where
  same_db : (s s' : State) → s'.db ≡ s.db → Keeps p.org_id s s'
  same_db s s' e t = (
    record { ordered = rw e t.ordered; below = rw e t.below; positive = rw e t.positive },
    record {
      memories_kept = rw e;
      entries_kept = rw e;
      links_kept = rw e;
      projects_kept = rw e;
      orgs_kept = rw e;
    },
  )

  counted_in-IsSafe :
      (b : Bool) (plan : String) (n : ℕ) (s : State) → IsSafe p.org_id (counted_in env p b plan n) s
  counted_in-IsSafe true plan n s = record { kept = same_db s _ refl }
  counted_in-IsSafe false plan n s = record { kept = same_db s _ refl }

  within_cap-IsSafe :
      (cap : Option ℕ) (plan : String) (s : State) → IsSafe p.org_id (within_cap env p cap plan) s
  within_cap-IsSafe none plan s = record { kept = same_db s _ refl }
  within_cap-IsSafe (some cap) plan s = record {
    kept = (counted_in-IsSafe (leb cap (count_of env p s)) plan (count_of env p s) s).kept;
  }

  enforce_memory_quota-IsSafe : (s : State) → IsSafe p.org_id (enforce_memory_quota env p) s
  unfolding enforce_memory_quota
  enforce_memory_quota-IsSafe s = record {
    kept = (within_cap-IsSafe (max_memories (plan_of env p s)) (plan_of env p s) s).kept;
  }

  embedded_with-IsSafe : (v : Option Vector) (s : State) → IsSafe p.org_id (embedded_with env p v) s
  embedded_with-IsSafe none s = record { kept = Keeps-refl p.org_id s }
  embedded_with-IsSafe (some v) s = record { kept = Keeps-refl p.org_id s }

  inline_embedding-IsSafe :
      (b : Bool) (x : CreateMemoryInput) (s : State)
      → IsSafe p.org_id (inline_embedding env p b x) s
  unfolding inline_embedding
  inline_embedding-IsSafe false x s = record { kept = Keeps-refl p.org_id s }
  inline_embedding-IsSafe true x s = embedded_with-IsSafe (env.embed (embedded_text env p x)) s

  create_row-IsSafe :
      (n : NewMemory) (s : State) → n.org_id ≡ p.org_id → IsSafe p.org_id (create_row env p n) s
  unfolding create_row new_row
  create_row-IsSafe n s own = record {
    kept = λ t. (
      record {
        ordered =
            IsOrdered-insert 0 s.memories (new_row s.next_id s.now n) t.ordered t.positive t.below;
        below = IsBelow-insert s.next_id s.memories (new_row s.next_id s.now n) t.below refl;
        positive = omega (arith, t.positive);
      },
      record {
        memories_kept = foreign-insert p.org_id s.memories (new_row s.next_id s.now n) own;
        entries_kept = refl;
        links_kept = refl;
        projects_kept = refl;
        orgs_kept = refl;
      },
    );
  }

  remembered-IsSafe :
      (i : ℕ) (c : Option Config) (s : State) → IsSafe p.org_id (remembered env p i c) s
  remembered-IsSafe i (some c) s = record { kept = Keeps-refl p.org_id s }
  remembered-IsSafe i none s = record { kept = same_db s _ refl }

  config_for-IsSafe : (b : Bool) (i : ℕ) (s : State) → IsSafe p.org_id (config_for env p b i) s
  config_for-IsSafe true i s = record {
    kept = (remembered-IsSafe i (cached_config env p i s.project_settings) s).kept;
  }
  config_for-IsSafe false i s = record { kept = Keeps-refl p.org_id s }

  pub project_config-IsSafe :
      (x : CreateMemoryInput) (s : State) → IsSafe p.org_id (project_config env p x) s
  unfolding project_config
  project_config-IsSafe x s =
      config_for-IsSafe (scope_type_eq x.scope_type ScopeType.project) x.scope_id s

  store-IsSafe :
      (b : Bool) (x : CreateMemoryInput) (g : Governed) (d : ReviewDecision) (ts : String)
      (s : State)
      → IsSafe p.org_id (store env p b x g d ts) s
  unfolding store
  store-IsSafe b x g d ts s =
      let insert : Option Vector → Exec State MemoryWrite = λ vector.
        create_row env p (new_memory env p x g d ts vector)
        >>= (λ created. pure (stored env p created g d)) in
      bind-IsSafe p.org_id (enforce_memory_quota env p) (λ _. inline_embedding env p b x >>= insert)
        s (enforce_memory_quota-IsSafe s)
        (λ _.
          bind-IsSafe p.org_id (inline_embedding env p b x) insert _ (inline_embedding-IsSafe b x _)
            (λ vector.
              bind-IsSafe p.org_id (create_row env p (new_memory env p x g d ts vector))
                (λ created. pure (stored env p created g d)) _
                (create_row-IsSafe (new_memory env p x g d ts vector) _ refl)
                (λ created. pure-IsSafe p.org_id (stored env p created g d) _)))

  fold_into-IsSafe :
      (test : Memory → Bool) (m : Memory) (x : CreateMemoryInput) (s : State)
      → Found test s.memories m
      → m.org_id ≡ p.org_id
      → IsSafe p.org_id (fold_into env p m x) s
  unfolding fold_into flush record_duplicate
  fold_into-IsSafe test m x s f own = record {
    kept = (flush-IsSafe env p test m (record_duplicate s.now x.metadata m) s f refl own own).kept;
  }

  pub own_row :
      (m : Memory) (st : ScopeType) (i : ℕ) (h : Text)
      → p.is_superuser ≡ false
      → by_content_hash p st i h m ≡ true
      → m.org_id ≡ p.org_id
  own_row m st i h tenant passes = ground (arith, passes, tenant)

  existing-IsSafe :
      (o : Option Memory) (x : CreateMemoryInput) (digest : Text) (b : Bool) (g : Governed)
      (d : ReviewDecision) (ts : String) (s : State)
      → p.is_superuser ≡ false
      → find_by_content_hash p x.scope_type x.scope_id digest s.memories ≡ o
      → IsSafe p.org_id (fold_or_store env p o b x g d ts) s
  existing-IsSafe none x digest b g d ts s tenant e = store-IsSafe b x g d ts s
  existing-IsSafe (some m) x digest b g d ts s tenant e = record {
    kept = λ t.
        (fold_into-IsSafe (same_id m) m x s
            (content_hash-Found p x.scope_type x.scope_id digest s.memories m t.ordered e)
            (own_row m x.scope_type x.scope_id digest tenant
              (content_hash-In p x.scope_type x.scope_id digest s.memories m e).1)).kept
          t;
  }

  pub fold_or_store-IsSafe :
      (force : Bool) (x : CreateMemoryInput) (digest : Option Text) (b : Bool) (g : Governed)
      (d : ReviewDecision) (ts : String) (s : State)
      → p.is_superuser ≡ false
      → IsSafe p.org_id (fold_or_store env p (existing env p force x digest s) b x g d ts) s
  fold_or_store-IsSafe true x digest b g d ts s tenant = store-IsSafe b x g d ts s
  fold_or_store-IsSafe false x none b g d ts s tenant = store-IsSafe b x g d ts s
  fold_or_store-IsSafe false x (some h) b g d ts s tenant =
      existing-IsSafe _ x h b g d ts s tenant refl

  governed_write-IsSafe :
      (x : CreateMemoryInput) (b force : Bool) (c : Config) (s : State)
      → p.is_superuser ≡ false
      → IsSafe p.org_id (governed_write env p x b force c) s
  governed_write-IsSafe x b force c s tenant =
      gets-IsSafe p.org_id (existing env p force x (digest_of env (govern env x)))
        (λ old. fold_or_store env p old b x (govern env x) (review_of env c.0 x (govern env x)) c.1)
        s
        (fold_or_store-IsSafe force x (digest_of env (govern env x)) b (govern env x)
          (review_of env c.0 x (govern env x)) c.1 s tenant)

  pub write-IsSafe :
      (x : CreateMemoryInput) (b force : Bool) (s : State)
      → p.is_superuser ≡ false
      → IsSafe p.org_id (write env p x b force) s
  unfolding write require_scope
  write-IsSafe x b force s tenant =
      let body : Exec State MemoryWrite =
        project_config env p x >>= governed_write env p x b force in
      raise_unless-IsSafe p.org_id (has_key_scope p "write:memory") access_denied
        (raise_unless (can_write p (target_of env p x)) access_denied >> body) s
        (raise_unless-IsSafe p.org_id (can_write p (target_of env p x)) access_denied body s (
          bind-IsSafe p.org_id (project_config env p x) (governed_write env p x b force) s
            (project_config-IsSafe x s) (λ c. governed_write-IsSafe x b force c _ tenant)))
