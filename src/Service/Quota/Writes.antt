-- ===== src/Service/Quota/Writes.antt =====
-- The cap of the plan over any number of writes of one `MemoryService`, of services/memory_service.py.
use Prim.Native.String.{String}
use kortex_memory.Prelude.{
  ℕ, ◌≤◌, ◌≡◌, refl, sym, ◌∙◌, ap, Bool, true, false, Option, none, some, List, [], ◌∷◌, Text,
  length, keep, arith,
}
use kortex_memory.Types.{ScopeType, scope_type_eq}
use kortex_memory.Access.{Principal, can_write, has_key_scope}
use kortex_memory.Policies.{ReviewDecision}
use kortex_memory.Memories.{Memory, replace_row}
use kortex_memory.Memories.Rows.{Found}
use kortex_memory.Memories.Queries.{count_for_org, live_in_org, find_by_content_hash}
use kortex_memory.Memories.Writes.{record_duplicate}
use kortex_memory.Service.Exec.{Exec, access_denied, raise_unless, ◌>>=◌, ◌>>◌}
use kortex_memory.Service.Exec.Laws.{Preserves, raise_unless-Preserves, bind-Preserves}
use kortex_memory.Service.Governance.{
  CreateMemoryInput, MemoryWrite, Governed, govern, review_of, digest_of,
}
use kortex_memory.Service.State.{State, Environment}
use kortex_memory.Service.Write.{
  Config, config_for, remembered, cached_config, require_scope, project_config, existing, fold_into,
  fold_or_store, write, governed_write, target_of,
}
use kortex_memory.Service.Tenancy.Steps.{IsTidy}
use kortex_memory.Service.Tenancy.Writing.{project_config-IsSafe, fold_or_store-IsSafe}
use kortex_memory.Service.Tenancy.Folding.{content_hash-Found, same_id}
use kortex_memory.Service.Quota.{live_count, IsCapped, store-IsCapped, keep-replaced}

-- the arguments of a write
pub record WriteCall : Type 0 where
  pub input : CreateMemoryInput
  pub embed_inline : Bool
  pub force : Bool

-- a cached count stays, and one that is made anew is that of the table
recounted :
    {a b : ℕ} (o : Option ℕ)
    → a ≡ b
    → b ≤ (elim o [ none ↦ b | some n ↦ n ])
    → a ≤ (elim o [ none ↦ a | some n ↦ n ])
recounted none e h = omega arith
recounted (some n) e h = omega (arith, e, h)

module _ (env : Environment) (p : Principal) where
  abbrev IsReady : ℕ → State → Type 0
  IsReady cap s = IsTidy s × IsCapped env p cap s

  fold_into-IsCapped :
      (cap : ℕ) (test : Memory → Bool) (m : Memory) (x : CreateMemoryInput) (s : State)
      → Found test s.memories m
      → IsCapped env p cap s
      → IsCapped env p cap (fold_into env p m x s).1
  unfolding fold_into record_duplicate count_for_org
  fold_into-IsCapped cap test m x s f c =
      let m' : Memory = record_duplicate s.now x.metadata m in
      let same : length (keep (live_in_org p.org_id) (replace_row m' s.memories))
          ≡ length (keep (live_in_org p.org_id) s.memories) =
        ap (λ t. length (keep (live_in_org p.org_id) t)) (f.replaced m' refl)
        ∙ keep-replaced (live_in_org p.org_id) f.before f.after m m' refl
        ∙ ap (λ t. length (keep (live_in_org p.org_id) t)) (sym f.parts) in
      record {
        planned = c.planned;
        capped = omega (arith, same, c.capped);
        counted = recounted s.mem_count same c.counted;
      }

  existing-IsCapped :
      (cap : ℕ) (o : Option Memory) (x : CreateMemoryInput) (digest : Text) (b : Bool)
      (g : Governed) (d : ReviewDecision) (ts : String) (s : State)
      → find_by_content_hash p x.scope_type x.scope_id digest s.memories ≡ o
      → IsReady cap s
      → IsCapped env p cap (fold_or_store env p o b x g d ts s).1
  existing-IsCapped cap none x digest b g d ts s e r = store-IsCapped env p cap b x g d ts s r.1
  existing-IsCapped cap (some m) x digest b g d ts s e r =
      fold_into-IsCapped cap (same_id m) m x s
        (content_hash-Found p x.scope_type x.scope_id digest s.memories m r.0.ordered e) r.1

  fold_or_store-IsCapped :
      (cap : ℕ) (force : Bool) (x : CreateMemoryInput) (digest : Option Text) (b : Bool)
      (g : Governed) (d : ReviewDecision) (ts : String) (s : State)
      → IsReady cap s
      → IsCapped env p cap (fold_or_store env p (existing env p force x digest s) b x g d ts s).1
  fold_or_store-IsCapped cap true x digest b g d ts s r = store-IsCapped env p cap b x g d ts s r.1
  fold_or_store-IsCapped cap false x none b g d ts s r = store-IsCapped env p cap b x g d ts s r.1
  fold_or_store-IsCapped cap false x (some h) b g d ts s r =
      existing-IsCapped cap _ x h b g d ts s refl r

  remembered-IsCapped :
      (cap i : ℕ) (c : Option Config) (s : State)
      → IsCapped env p cap s
      → IsCapped env p cap (remembered env p i c s).1
  remembered-IsCapped cap i (some c) s h = h
  remembered-IsCapped cap i none s h = record {
    planned = h.planned;
    capped = h.capped;
    counted = h.counted;
  }

  config_for-IsCapped :
      (cap : ℕ) (b : Bool) (i : ℕ) (s : State)
      → IsCapped env p cap s
      → IsCapped env p cap (config_for env p b i s).1
  config_for-IsCapped cap true i s h =
      remembered-IsCapped cap i (cached_config env p i s.project_settings) s h
  config_for-IsCapped cap false i s h = h

  project_config-IsCapped :
      (cap : ℕ) (x : CreateMemoryInput) (s : State)
      → IsCapped env p cap s
      → IsCapped env p cap (project_config env p x s).1
  unfolding project_config
  project_config-IsCapped cap x s h =
      config_for-IsCapped cap (scope_type_eq x.scope_type ScopeType.project) x.scope_id s h

  module _ (tenant : p.is_superuser ≡ false) where
    governed_write-Preserves :
        (cap : ℕ) (x : CreateMemoryInput) (b force : Bool) (c : Config) (s : State)
        → Preserves (IsReady cap) (governed_write env p x b force c) s
    unfolding ◌>>=◌
    governed_write-Preserves cap x b force c s = record {
      kept = λ r. (
        ((fold_or_store-IsSafe env p force x (digest_of env (govern env x)) b (govern env x)
              (review_of env c.0 x (govern env x)) c.1 s tenant).kept
            r.0).0,
        fold_or_store-IsCapped cap force x (digest_of env (govern env x)) b (govern env x)
            (review_of env c.0 x (govern env x)) c.1 s r,
      );
    }

    write-Preserves :
        (cap : ℕ) (x : CreateMemoryInput) (b force : Bool) (s : State)
        → Preserves (IsReady cap) (write env p x b force) s
    unfolding write require_scope
    write-Preserves cap x b force s =
        let body : Exec State MemoryWrite =
          project_config env p x >>= governed_write env p x b force in
        raise_unless-Preserves (IsReady cap) (has_key_scope p "write:memory") access_denied
          (raise_unless (can_write p (target_of env p x)) access_denied >> body) s
          (raise_unless-Preserves (IsReady cap) (can_write p (target_of env p x)) access_denied body
            s
            (bind-Preserves (IsReady cap) (project_config env p x) (governed_write env p x b force)
              s
              (record {
                kept = λ r. (
                  ((project_config-IsSafe env p x s).kept r.0).0,
                  project_config-IsCapped cap x s r.1,
                );
              })
              (λ c. governed_write-Preserves cap x b force c _)))

  unfoldable pub write_all : List WriteCall → State → State
  unfolding write
  write_all [] s = s
  write_all (w ∷ ws) s = write_all ws (write env p w.input w.embed_inline w.force s).1

  write_all-IsReady :
      (cap : ℕ) (ws : List WriteCall) (s : State)
      → p.is_superuser ≡ false
      → IsReady cap s
      → IsReady cap (write_all ws s)
  unfolding write_all
  write_all-IsReady cap [] s tenant r = r
  write_all-IsReady cap (w ∷ ws) s tenant r =
      write_all-IsReady cap ws (write env p w.input w.embed_inline w.force s).1 tenant
        ((write-Preserves tenant cap w.input w.embed_inline w.force s).kept r)

  -- If the caller is a tenant, the state's ids are in order, the plan of the org caps its memories at
  -- `cap`, the org is not above that, and the count that the service has cached is not below the real
  -- one, then after any sequence of writes of this service, whatever they return, the org has at most
  -- `cap` memories that are not deleted.
  pub write_all-cap :
      (cap : ℕ) (ws : List WriteCall) (s : State)
      → p.is_superuser ≡ false
      → IsTidy s
      → IsCapped env p cap s
      → live_count env p (write_all ws s) ≤ cap
  write_all-cap cap ws s tenant t c = (write_all-IsReady cap ws s tenant (t, c)).1.capped
