-- ===== src/Service/Quota.antt =====
-- The plan's cap on the memories of an org, kept by `MemoryService.write` of services/memory_service.py.
pub mod Writes
use Prim.Native.String.{String}
use kortex_memory.Prelude.{
  ℕ, ◌+◌, ◌≤◌, ◌<◌, ◌≡◌, refl, sym, ◌∙◌, ap, subst, Bool, true, false, ◌&&◌, Option, none, some,
  List, [], ◌∷◌, ◌++◌, Text, length, keep, leb, Bool-cases, inl, inr, ◌==◌, if◌then◌else◌, arith,
}
use kortex_memory.Types.{ScopeType, scope_type_eq}
use kortex_memory.Access.{Principal, can_write, has_key_scope}
use kortex_memory.Policies.{ReviewDecision, max_memories}
use kortex_memory.Memories.{Memory, Table, Vector, replace_row, is_live}
use kortex_memory.Memories.Rows.{Found}
use kortex_memory.Memories.Queries.{count_for_org, live_in_org, find_by_content_hash}
use kortex_memory.Memories.Writes.{NewMemory, new_row, record_duplicate}
use kortex_memory.Service.Exec.{
  Result, ok, err, continue, Exec, access_denied, raise_unless, gets, pure, ◌>>=◌, ◌>>◌,
}
use kortex_memory.Service.Exec.Laws.{Preserves, raise_unless-Preserves, bind-Preserves}
use kortex_memory.Service.Governance.{
  CreateMemoryInput, MemoryWrite, Governed, govern, review_of, digest_of,
}
use kortex_memory.Service.State.{State, Environment}
use kortex_memory.Service.Write.{
  Config, counted_in, config_for, count_of, plan_of, remembered, cached_config, require_scope,
  within_cap, embedded_with, embedded_text, enforce_memory_quota, project_config, inline_embedding,
  create_row, existing, fold_into, store, fold_or_store, write, governed_write, target_of,
  new_memory, stored,
}
use kortex_memory.Service.Tenancy.Steps.{IsTidy}
use kortex_memory.Service.Tenancy.Writing.{write-IsSafe}
use kortex_memory.Service.Tenancy.Folding.{content_hash-Found, same_id}

pub keep-replaced :
    (test : Memory → Bool) (xs ys : Table) (m m' : Memory)
    → test m' ≡ test m
    → length (keep test (xs ++ m' ∷ ys)) ≡ length (keep test (xs ++ m ∷ ys))
keep-replaced test [] ys m m' h = ground (arith, h)
keep-replaced test (x ∷ xs) ys m m' h = ground (arith, keep-replaced test xs ys m m' h)

keep-inserted :
    (test : Memory → Bool) (t : Table) (m : Memory)
    → length (keep test (t ++ m ∷ [])) ≤ length (keep test t) + 1
keep-inserted test [] m = ground arith
keep-inserted test (x ∷ t) m = ground (arith, keep-inserted test t m)

module _ (env : Environment) (p : Principal) where
  abbrev pub live_count : State → ℕ
  live_count s = count_for_org p.org_id s.memories

  -- the org has at most `cap` memories, the plan says so, and the cached count is not below the real one
  pub record IsCapped (cap : ℕ) (s : State) : Type 0 where
    pub planned : max_memories (plan_of env p s) ≡ some cap
    pub capped : live_count s ≤ cap
    pub counted : live_count s ≤ count_of env p s

  -- the same, with room for one more that is already counted
  record HasRoom (cap : ℕ) (s : State) : Type 0 where
    pub planned : max_memories (plan_of env p s) ≡ some cap
    pub capped : live_count s + 1 ≤ cap
    pub count : ℕ
    pub cached : s.mem_count ≡ some count
    pub counted : live_count s + 1 ≤ count

  cached_count : (n : ℕ) (s : State) → s.mem_count ≡ some n → count_of env p s ≡ n
  cached_count n s e = rw e

  settled : (cap : ℕ) (s : State) → HasRoom cap s → IsCapped cap s
  settled cap s r = record {
    planned = r.planned;
    capped = omega (arith, r.capped);
    counted = omega (arith, r.counted, cached_count r.count s r.cached);
  }

  create_row-IsCapped :
      (cap : ℕ) (n : NewMemory) (s : State) → HasRoom cap s → IsCapped cap (create_row env p n s).1
  unfolding create_row new_row count_for_org
  create_row-IsCapped cap n s r =
      let more : length (keep (live_in_org p.org_id) (s.memories ++ new_row s.next_id s.now n ∷ []))
          ≤ length (keep (live_in_org p.org_id) s.memories) + 1 =
        keep-inserted (live_in_org p.org_id) s.memories (new_row s.next_id s.now n) in
      record {
        planned = r.planned;
        capped = omega (arith, more, r.capped);
        counted =
            omega (arith, more, r.counted, cached_count r.count (create_row env p n s).1 r.cached);
      }

  -- a step that leaves room when it returns
  abbrev Outcome : {A : Type 0} → ℕ → Result A → State → Type 0
  Outcome cap (ok a) s = HasRoom cap s
  Outcome cap (err e) s = IsCapped cap s

  continue-IsCapped :
      {A B : Type 0} (cap : ℕ) (r : Result A) (f : A → Exec State B) (s : State)
      → Outcome cap r s
      → ((a : A) → HasRoom cap s → IsCapped cap (f a s).1)
      → IsCapped cap (continue r f s).1
  continue-IsCapped cap (ok a) f s h k = k a h
  continue-IsCapped cap (err e) f s h k = h

  bind-IsCapped :
      {A B : Type 0} (cap : ℕ) (m : Exec State A) (f : A → Exec State B) (s : State)
      → Outcome cap (m s).0 (m s).1
      → ((a : A) → HasRoom cap (m s).1 → IsCapped cap (f a (m s).1).1)
      → IsCapped cap ((m >>= f) s).1
  unfolding ◌>>=◌
  bind-IsCapped cap m f s h k = continue-IsCapped cap (m s).0 f (m s).1 h k

  counted_in-Outcome :
      (cap : ℕ) (b : Bool) (s : State)
      → IsCapped cap s
      → leb cap (count_of env p s) ≡ b
      → Outcome cap
          (counted_in env p b (plan_of env p s) (count_of env p s) s).0
          (counted_in env p b (plan_of env p s) (count_of env p s) s).1
  counted_in-Outcome cap true s c e = record {
    planned = c.planned;
    capped = c.capped;
    counted = c.counted;
  }
  counted_in-Outcome cap false s c e = record {
    planned = c.planned;
    capped = ground (arith, c.counted, e);
    count = count_of env p s + 1;
    cached = refl;
    counted = omega (arith, c.counted);
  }

  enforce_memory_quota-Outcome :
      (cap : ℕ) (s : State)
      → IsCapped cap s
      → Outcome cap (enforce_memory_quota env p s).0 (enforce_memory_quota env p s).1
  unfolding enforce_memory_quota
  enforce_memory_quota-Outcome cap s c =
      subst
        (λ o.
          Outcome cap (within_cap env p o (plan_of env p s) s).0
            (within_cap env p o (plan_of env p s) s).1)
        (sym c.planned) (counted_in-Outcome cap (leb cap (count_of env p s)) s c refl)

  embedded_with-Outcome :
      (cap : ℕ) (v : Option Vector) (s : State)
      → HasRoom cap s
      → Outcome cap (embedded_with env p v s).0 (embedded_with env p v s).1
  embedded_with-Outcome cap none s r = settled cap s r
  embedded_with-Outcome cap (some v) s r = r

  inline_embedding-Outcome :
      (cap : ℕ) (b : Bool) (x : CreateMemoryInput) (s : State)
      → HasRoom cap s
      → Outcome cap (inline_embedding env p b x s).0 (inline_embedding env p b x s).1
  unfolding inline_embedding
  inline_embedding-Outcome cap false x s r = r
  inline_embedding-Outcome cap true x s r =
      embedded_with-Outcome cap (env.embed (embedded_text env p x)) s r

  created-IsCapped :
      (cap : ℕ) (n : NewMemory) (g : Governed) (d : ReviewDecision) (s : State)
      → HasRoom cap s
      → IsCapped cap ((create_row env p n >>= (λ created. pure (stored env p created g d))) s).1
  unfolding ◌>>=◌ create_row
  created-IsCapped cap n g d s r = create_row-IsCapped cap n s r

  pub store-IsCapped :
      (cap : ℕ) (b : Bool) (x : CreateMemoryInput) (g : Governed) (d : ReviewDecision) (ts : String)
      (s : State)
      → IsCapped cap s
      → IsCapped cap (store env p b x g d ts s).1
  unfolding store
  store-IsCapped cap b x g d ts s c =
      let insert : Option Vector → Exec State MemoryWrite = λ vector.
        create_row env p (new_memory env p x g d ts vector)
        >>= (λ created. pure (stored env p created g d)) in
      bind-IsCapped cap (enforce_memory_quota env p) (λ _. inline_embedding env p b x >>= insert) s
        (enforce_memory_quota-Outcome cap s c)
        (λ _ room.
          bind-IsCapped cap (inline_embedding env p b x) insert _
            (inline_embedding-Outcome cap b x _ room)
            (λ vector room'. created-IsCapped cap (new_memory env p x g d ts vector) g d _ room'))
