-- ===== src/Service/Repeats.antt =====
-- A repeat of a write, under the fingerprints of services/memory_service.py.
pub mod Folds
use Prim.Native.String.{String}
use kortex_memory.Prelude.{
  ℕ, ◌+◌, ◌≡◌, refl, sym, ◌∙◌, ap, subst, Bool, true, false, ◌&&◌, ◌||◌, Option, none, some, List,
  [], ◌∷◌, ◌++◌, Text, option_text_eq, option_text_eq_iff, length, keep, In, sort_asc, insert_asc,
  leb, Bool-cases, Option-cases, inl, inr, ◌==◌, ==_iff, if◌then◌else◌, arith,
}
use kortex_memory.Types.{ScopeType, scope_type_eq, scope_type_eq_iff}
use kortex_memory.Access.{Principal, can_write, has_key_scope}
use kortex_memory.Policies.{ReviewDecision}
use kortex_memory.Dedup.{content_hash}
use kortex_memory.Memories.{Memory, Table, Vector, replace_row, is_live, in_tenant, in_scope}
use kortex_memory.Memories.Rows.{IsOrdered, Found}
use kortex_memory.Memories.Queries.{find_by_content_hash, by_content_hash, created, head?}
use kortex_memory.Memories.Writes.{NewMemory, new_row, record_duplicate}
use kortex_memory.Service.Exec.{
  Result, ok, err, Exec, access_denied, raise_unless, gets, pure, ◌>>=◌, ◌>>◌,
}
use kortex_memory.Service.Exec.Laws.{
  First, raise_unless-ok, raise_unless-passed, ok-injective, bind-ok,
}
use kortex_memory.Service.Governance.{
  CreateMemoryInput, MemoryWrite, Governed, govern, review_of, digest_of,
}
use kortex_memory.Service.State.{State, Environment}
use kortex_memory.Service.Write.{
  Config, config_for, remembered, cached_config, require_scope, enforce_memory_quota,
  project_config, inline_embedding, create_row, existing, fold_into, folded, store, fold_or_store,
  write, governed_write, target_of, new_memory, stored,
}
use kortex_memory.Service.Tenancy.Folding.{content_hash-In, content_hash-Found, same_id}

In-middle : (xs : Table) (m : Memory) (ys : Table) → In m (xs ++ m ∷ ys)
In-middle [] m ys = inl refl
In-middle (x ∷ xs) m ys = inr (In-middle xs m ys)

keep-cons :
    (test : Memory → Bool) (t : Table) (m : Memory)
    → In m t
    → test m ≡ true
    → (r : Memory) × ((rs : Table) × (keep test t ≡ r ∷ rs))
keep-cons test [] m i h = elim i [ ]
keep-cons test (x ∷ t) m (inl e) h = (x, (keep test t, rw (ap test (sym e) ∙ h) refl))
keep-cons test (x ∷ t) m (inr i) h =
    let later = keep-cons test t m i h in
    elim (Bool-cases (test x)) [
      | inl hit ↦ (x, (keep test t, ground (arith, hit)))
      | inr miss ↦ (later.0, (later.1.0, ground (arith, miss, later.1.1)))
    ]

insert_asc-cons :
    (x : Memory) (xs : Table) → (r : Memory) × ((rs : Table) × (insert_asc created x xs ≡ r ∷ rs))
unfolding insert_asc
insert_asc-cons x [] = (x, ([], refl))
insert_asc-cons x (y ∷ ys) = elim (Bool-cases (leb (created x) (created y))) [
  | inl le ↦ (x, (y ∷ ys, ground (arith, le)))
  | inr gt ↦ (y, (insert_asc created x ys, ground (arith, gt)))
]

-- a row with the fingerprint is enough for the query to find one
pub find_by_content_hash-In :
    (p : Principal) (st : ScopeType) (i : ℕ) (digest : Text) (t : Table) (m : Memory)
    → In m t
    → by_content_hash p st i digest m ≡ true
    → (r : Memory) × (find_by_content_hash p st i digest t ≡ some r)
unfolding find_by_content_hash sort_asc
find_by_content_hash-In p st i digest t m h passes =
    let kept = keep-cons (by_content_hash p st i digest) t m h passes in
    let sorted = insert_asc-cons kept.0 (sort_asc created kept.1.0) in
    (sorted.0, ap (λ l. head? (sort_asc created l)) kept.1.1 ∙ ap head? sorted.1.1)

module _ (env : Environment) (p : Principal) (x : CreateMemoryInput) (digest : Text) where
  -- a live row in the scope of the input carries the fingerprint
  pub record IsHeld (s : State) : Type 0 where
    pub row : Memory
    pub stands : In row s.memories
    pub matches : by_content_hash p x.scope_type x.scope_id digest row ≡ true

  new_row-matches :
      (i now : ℕ) (g : Governed) (d : ReviewDecision) (ts : String) (v : Option Vector)
      → digest_of env g ≡ some digest
      → by_content_hash p x.scope_type x.scope_id digest
          (new_row i now (new_memory env p x g d ts v))
        ≡ true
  unfolding new_row
  new_row-matches i now g d ts v e =
      let hash : option_text_eq (digest_of env g) (some digest) ≡ true =
        (option_text_eq_iff (digest_of env g) (some digest)).1 e in
      let scope : scope_type_eq x.scope_type x.scope_type ≡ true =
        (scope_type_eq_iff x.scope_type x.scope_type).1 refl in
      let org : (p.org_id == p.org_id) ≡ true = (==_iff p.org_id p.org_id).1 refl in
      let id : (x.scope_id == x.scope_id) ≡ true = (==_iff x.scope_id x.scope_id).1 refl in
      ground (arith, hash, scope, org, id)

  inserted :
      (g : Governed) (d : ReviewDecision) (ts : String) (v : Option Vector) (s : State)
      → digest_of env g ≡ some digest
      → IsHeld
          ((create_row env p (new_memory env p x g d ts v)
              >>= (λ created. pure (stored env p created g d)))
            s).1
  unfolding ◌>>=◌ create_row
  inserted g d ts v s e = record {
    row = new_row s.next_id s.now (new_memory env p x g d ts v);
    stands = In-middle s.memories (new_row s.next_id s.now (new_memory env p x g d ts v)) [];
    matches = new_row-matches s.next_id s.now g d ts v e;
  }

  pub store-IsHeld :
      (b : Bool) (g : Governed) (d : ReviewDecision) (ts : String) (s : State) (r : MemoryWrite)
      → digest_of env g ≡ some digest
      → (store env p b x g d ts s).0 ≡ ok r
      → IsHeld (store env p b x g d ts s).1
  unfolding store
  store-IsHeld b g d ts s r e h =
      let insert : Option Vector → Exec State MemoryWrite = λ vector.
        create_row env p (new_memory env p x g d ts vector)
        >>= (λ created. pure (stored env p created g d)) in
      let quota =
        bind-ok (enforce_memory_quota env p) (λ _. inline_embedding env p b x >>= insert) s r h in
      let s1 : State = (enforce_memory_quota env p s).1 in
      let h1 : ((inline_embedding env p b x >>= insert) s1).0 ≡ ok r =
        sym (ap (λ o. o.0) quota.goes_on) ∙ h in
      let vector = bind-ok (inline_embedding env p b x) insert s1 r h1 in
      let s2 : State = (inline_embedding env p b x s1).1 in
      subst (λ o. IsHeld o.1) (sym (quota.goes_on ∙ vector.goes_on))
        (inserted g d ts vector.value s2 e)

  pub fold_into-IsHeld :
      (test : Memory → Bool) (m : Memory) (s : State)
      → Found test s.memories m
      → by_content_hash p x.scope_type x.scope_id digest m ≡ true
      → IsHeld (fold_into env p m x s).1
  unfolding fold_into record_duplicate
  fold_into-IsHeld test m s f matches =
      let m' : Memory = record_duplicate s.now x.metadata m in
      record {
        row = m';
        stands = subst (In m') (sym (f.replaced m' refl)) (In-middle f.before m' f.after);
        matches = matches;
      }
