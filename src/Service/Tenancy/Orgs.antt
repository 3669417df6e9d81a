-- ===== src/Service/Tenancy/Orgs.antt =====
-- What one org sees of the calls of the others, through services/memory_service.py.
use kortex_memory.Prelude.{
  ℕ, ◌≡◌, ◌≢◌, refl, sym, ◌∙◌, ap, false, List, [], ◌∷◌, All, keep, ◌==◌, arith,
}
use kortex_memory.Access.{Principal}
use kortex_memory.Audit
use kortex_memory.Audit.{AuditLog, of_org}
use kortex_memory.Memories
use kortex_memory.Memories.{Memory}
use kortex_memory.Service.State.{State, Environment}
use kortex_memory.Service.Requests.{
  Request, Call, fresh, serve, serve_all, write, review, update, delete, pin, bulk_apply,
}
use kortex_memory.Service.Tenancy.Tables.{foreign}
use kortex_memory.Service.Tenancy.Isolation.{
  review-IsSafe, update-IsSafe, delete_memory-IsSafe, pin_memory-IsSafe, bulk_apply-IsSafe,
}
use kortex_memory.Service.Tenancy.Writing.{write-IsSafe}
use kortex_memory.Service.Tenancy.Steps.{IsTidy, IsIsolated, Keeps, foreign_entries}

-- the rows of an org
abbrev pub owned_by : ℕ → Memories.Table → Memories.Table
owned_by org = keep (λ m. m.org_id == org)

owned_by-foreign :
    (v org : ℕ) (t : Memories.Table) → org ≢ v → owned_by v (foreign org t) ≡ owned_by v t
owned_by-foreign v org [] h = refl
owned_by-foreign v org (m ∷ t) h = ground (arith, owned_by-foreign v org t h)

of_org-foreign :
    (v org : ℕ) (t : Audit.Table) → org ≢ v → of_org v (foreign_entries org t) ≡ of_org v t
of_org-foreign v org [] h = refl
of_org-foreign v org (e ∷ t) h = ground (arith, of_org-foreign v org t h)

module _ (env : Environment) where
  serve-Keeps :
      (p : Principal) (r : Request) (s : State)
      → p.is_superuser ≡ false
      → Keeps p.org_id s (serve env p r s)
  unfolding serve
  serve-Keeps p (write x b force) s tenant = (write-IsSafe env p x b force s tenant).kept
  serve-Keeps p (review i approve) s tenant = (review-IsSafe env p tenant i approve s).kept
  serve-Keeps p (update i c) s tenant = (update-IsSafe env p tenant i c s).kept
  serve-Keeps p (delete i) s tenant = (delete_memory-IsSafe env p tenant i s).kept
  serve-Keeps p (pin i b) s tenant = (pin_memory-IsSafe env p tenant i b s).kept
  serve-Keeps p (bulk_apply a ids) s tenant = (bulk_apply-IsSafe env p tenant a ids s).kept

  -- the caller is a tenant of another org than `v`
  abbrev pub IsStranger : ℕ → Call → Type 0
  IsStranger v c = (c.principal.is_superuser ≡ false) × (c.principal.org_id ≢ v)

  fresh-IsTidy : (s : State) → IsTidy s → IsTidy (fresh s)
  fresh-IsTidy s t = record { ordered = t.ordered; below = t.below; positive = t.positive }

  -- In a state whose ids are in order: after any sequence of writes, reviews, updates, deletions, pins
  -- and bulk actions, whatever they return, whose callers are tenants of other orgs than `v`, the
  -- memories of `v` and its entries in the audit log are what they were.
  pub serve_all-strangers :
      (v : ℕ) (cs : List Call) (s : State)
      → IsTidy s
      → All (IsStranger v) cs
      → (owned_by v (serve_all env cs s).memories ≡ owned_by v s.memories)
        × (of_org v (serve_all env cs s).audit ≡ of_org v s.audit)
  unfolding serve_all
  serve_all-strangers v [] s t h = (refl, refl)
  serve_all-strangers v (c ∷ cs) s t h =
      let p : Principal = c.principal in
      let s' : State = serve env p c.request (fresh s) in
      let step : IsTidy s' × IsIsolated p.org_id (fresh s) s' =
        serve-Keeps p c.request (fresh s) h.0.0 (fresh-IsTidy s t) in
      let rest = serve_all-strangers v cs s' step.0 h.1 in
      (
        rest.0
            ∙ sym (owned_by-foreign v p.org_id s'.memories h.0.1)
            ∙ ap (owned_by v) step.1.memories_kept
            ∙ owned_by-foreign v p.org_id s.memories h.0.1,
        rest.1
            ∙ sym (of_org-foreign v p.org_id s'.audit h.0.1)
            ∙ ap (of_org v) step.1.entries_kept
            ∙ of_org-foreign v p.org_id s.audit h.0.1,
      )
