-- ===== src/Service/Gating.antt =====
-- What `MemoryService.write` of services/memory_service.py stores is what governance made of the input.
use Prim.Native.String.{String}
use kortex_memory.Prelude.{
  ◌≡◌, refl, sym, ◌∙◌, ap, subst, Bool, true, false, Option, none, some, List, [], ◌∷◌, ◌++◌, Text,
  In, inl, inr, if◌then◌else◌,
}
use kortex_memory.Types.{ReviewStatus, ReviewMode}
use kortex_memory.Access.{Principal, can_write, has_key_scope}
use kortex_memory.Policies.{ReviewDecision, trust_for_source, held, is_pending, decide_review}
use kortex_memory.Policies.Laws.{suspicion, IsSuspect, decide_review-held}
use kortex_memory.Memories.{Memory, Vector}
use kortex_memory.Memories.Writes.{new_row}
use kortex_memory.Service.Exec.{ok, Exec, access_denied, raise_unless, pure, ◌>>=◌, ◌>>◌}
use kortex_memory.Service.Exec.Laws.{raise_unless-ok, ok-injective, bind-ok}
use kortex_memory.Service.Governance.{
  CreateMemoryInput, MemoryWrite, joined, govern, review_of, suspicion_of, digest_of,
}
use kortex_memory.Service.State.{State, Environment}
use kortex_memory.Service.Write.{
  Config, require_scope, enforce_memory_quota, project_config, inline_embedding, create_row,
  existing, fold_into, store, fold_or_store, write, governed_write, target_of, new_memory, stored,
}

-- a new row, as governance wanted it
pub record IsStored (env : Environment) (p : Principal) (x : CreateMemoryInput) (r : MemoryWrite)
    (s' : State) : Type 0 where
  pub mode : ReviewMode
  pub stands : In r.memory s'.memories
  pub org : r.memory.org_id ≡ p.org_id
  pub body : r.memory.body ≡ (govern env x).body
  pub title : r.memory.title ≡ (govern env x).title
  pub sensitivity : r.memory.sensitivity ≡ (govern env x).sensitivity
  pub trust : r.memory.trust ≡ trust_for_source x.source_type
  pub status : r.memory.review_status ≡ (review_of env mode x (govern env x)).status
  pub reported : r.pending_review ≡ held (review_of env mode x (govern env x))

In-last : (xs : List Memory) (m : Memory) → In m (xs ++ m ∷ [])
In-last [] m = inl refl
In-last (x ∷ xs) m = inr (In-last xs m)

deduped_is : {b : Bool} → true ≡ b → b ≡ false → ⊥
deduped_is h k = cc (h, k)

module _ (env : Environment) (p : Principal) (x : CreateMemoryInput) where
  inserted-IsStored :
      (mode : ReviewMode) (ts : String) (v : Option Vector) (s : State) (r : MemoryWrite)
      → let d = review_of env mode x (govern env x) in
        let insert =
          create_row env p (new_memory env p x (govern env x) d ts v)
          >>= (λ created. pure (stored env p created (govern env x) d)) in
        (insert s).0 ≡ ok r → IsStored env p x r (insert s).1
  unfolding ◌>>=◌ create_row new_row
  inserted-IsStored mode ts v s r h =
      let d : ReviewDecision = review_of env mode x (govern env x) in
      let row : Memory = new_row s.next_id s.now (new_memory env p x (govern env x) d ts v) in
      let s' : State = (create_row env p (new_memory env p x (govern env x) d ts v) s).1 in
      let fresh : IsStored env p x (stored env p row (govern env x) d) s' = record {
        mode = mode;
        stands = In-last s.memories row;
        org = refl;
        body = refl;
        title = refl;
        sensitivity = refl;
        trust = refl;
        status = refl;
        reported = refl;
      } in
      subst (λ q. IsStored env p x q s') (ok-injective h) fresh

  store-IsStored :
      (mode : ReviewMode) (b : Bool) (ts : String) (s : State) (r : MemoryWrite)
      → (store env p b x (govern env x) (review_of env mode x (govern env x)) ts s).0 ≡ ok r
      → IsStored env p x r
          (store env p b x (govern env x) (review_of env mode x (govern env x)) ts s).1
  unfolding store
  store-IsStored mode b ts s r h =
      let d : ReviewDecision = review_of env mode x (govern env x) in
      let insert : Option Vector → Exec State MemoryWrite = λ vector.
        create_row env p (new_memory env p x (govern env x) d ts vector)
        >>= (λ created. pure (stored env p created (govern env x) d)) in
      let quota =
        bind-ok (enforce_memory_quota env p) (λ _. inline_embedding env p b x >>= insert) s r h in
      let s1 : State = (enforce_memory_quota env p s).1 in
      let h1 : ((inline_embedding env p b x >>= insert) s1).0 ≡ ok r =
        sym (ap (λ o. o.0) quota.goes_on) ∙ h in
      let vector = bind-ok (inline_embedding env p b x) insert s1 r h1 in
      let s2 : State = (inline_embedding env p b x s1).1 in
      let h2 : (insert vector.value s2).0 ≡ ok r = sym (ap (λ o. o.0) vector.goes_on) ∙ h1 in
      subst (λ o. IsStored env p x r o.1) (sym (quota.goes_on ∙ vector.goes_on))
        (inserted-IsStored mode ts vector.value s2 r h2)

  fold_or_store-IsStored :
      (o : Option Memory) (mode : ReviewMode) (b : Bool) (ts : String) (s : State) (r : MemoryWrite)
      → (fold_or_store env p o b x (govern env x) (review_of env mode x (govern env x)) ts s).0
        ≡ ok r
      → r.deduped ≡ false
      → IsStored env p x r
          (fold_or_store env p o b x (govern env x) (review_of env mode x (govern env x)) ts s).1
  unfolding fold_into
  fold_or_store-IsStored none mode b ts s r h new = store-IsStored mode b ts s r h
  fold_or_store-IsStored (some m) mode b ts s r h new =
      absurd (deduped_is (ap (λ q. q.deduped) (ok-injective h)) new)

  governed_write-IsStored :
      (b force : Bool) (c : Config) (s : State) (r : MemoryWrite)
      → (governed_write env p x b force c s).0 ≡ ok r
      → r.deduped ≡ false
      → IsStored env p x r (governed_write env p x b force c s).1
  unfolding ◌>>=◌
  governed_write-IsStored b force c s r h new =
      fold_or_store-IsStored (existing env p force x (digest_of env (govern env x)) s) c.0 b c.1 s r
        h new

  -- If a write returned and did not fold into a memory that was there, then what it returned is a row of
  -- the caller's org with the text and the sensitivity that the PII policy left, the trust of its source,
  -- and the status that the review of these decided under some review mode; and the caller may write
  -- at the sensitivity that was asked for.
  pub write-IsStored :
      (b force : Bool) (s : State) (r : MemoryWrite)
      → (write env p x b force s).0 ≡ ok r
      → r.deduped ≡ false
      → IsStored env p x r (write env p x b force s).1 × (can_write p (target_of env p x) ≡ true)
  unfolding write require_scope
  write-IsStored b force s r h new =
      let body : Exec State MemoryWrite =
        project_config env p x >>= governed_write env p x b force in
      let guarded : Exec State MemoryWrite =
        raise_unless (can_write p (target_of env p x)) access_denied >> body in
      let scoped = raise_unless-ok (has_key_scope p "write:memory") access_denied guarded s r h in
      let h1 : (guarded s).0 ≡ ok r = sym (ap (λ q. q.0) scoped.1) ∙ h in
      let allowed = raise_unless-ok (can_write p (target_of env p x)) access_denied body s r h1 in
      let h2 : (body s).0 ≡ ok r = sym (ap (λ q. q.0) allowed.1) ∙ h1 in
      let c = bind-ok (project_config env p x) (governed_write env p x b force) s r h2 in
      let h3 = sym (ap (λ q. q.0) c.goes_on) ∙ h2 in
      (
        subst (λ q. IsStored env p x r q.1) (sym (scoped.1 ∙ allowed.1 ∙ c.goes_on))
            (governed_write-IsStored b force c.value (project_config env p x s).1 r h3 new),
        allowed.0,
      )

  review_of-suspect :
      (mode : ReviewMode)
      → env.injection_quarantine ≡ true
      → IsSuspect env.search x.source_type (joined (govern env x).title (govern env x).body)
      → (review_of env mode x (govern env x)).status ≡ ReviewStatus.pending
  unfolding review_of suspicion_of
  review_of-suspect mode quarantine suspect =
      let text : Text = joined (govern env x).title (govern env x).body in
      subst
        (λ q.
          (decide_review mode x.confidence env.review_confidence_threshold
            (if q then suspicion env.search x.source_type text else [])).status
          ≡ ReviewStatus.pending)
        (sym quarantine)
        ((decide_review-held env.search x.source_type text mode x.confidence
            env.review_confidence_threshold).0.1
          (inl suspect))

  -- If the quarantine is on and a write whose source is a document or the output of a tool matches one
  -- of the injection patterns, then the row that it stores waits for review, whatever the review mode of
  -- the project, and the caller is told so.
  pub write-quarantined :
      (b force : Bool) (s : State) (r : MemoryWrite)
      → env.injection_quarantine ≡ true
      → IsSuspect env.search x.source_type (joined (govern env x).title (govern env x).body)
      → (write env p x b force s).0 ≡ ok r
      → r.deduped ≡ false
      → (r.memory.review_status ≡ ReviewStatus.pending) × (r.pending_review ≡ true)
  write-quarantined b force s r quarantine suspect h new =
      let w = (write-IsStored b force s r h new).0 in
      let d : (review_of env w.mode x (govern env x)).status ≡ ReviewStatus.pending =
        review_of-suspect w.mode quarantine suspect in
      (w.status ∙ d, w.reported ∙ ap is_pending d)
