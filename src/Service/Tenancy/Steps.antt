-- ===== src/Service/Tenancy/Steps.antt =====
-- What the steps of a method keep of the rows of the other orgs.
use kortex_memory.Prelude.{
  ℕ, zero, suc, ◌⊎◌, ◌<◌, ◌≡◌, refl, sym, ◌∙◌, subst, Bool, true, false, not, Option, none, some,
  [], ◌∷◌, ◌++◌, keep, ◌==◌, if◌then◌else◌, Option-cases, inl, inr, arith,
}
use kortex_memory.Access.{Principal}
use kortex_memory.Audit
use kortex_memory.Audit.{
  AuditLog, Event, append, file_under, effective_org, head, digest, entry_of, new_entry,
}
use kortex_memory.Memories.{Memory, Table, find}
use kortex_memory.Memories.Rows.{IsOrdered, Found, found}
use kortex_memory.Memories.Queries.{get_by_public_id, by_public_id}
use kortex_memory.Service.Exec.{
  Exec, Result, ok, err, Error, pure, gets, raise_unless, continue, ◌>>=◌, ◌>>◌,
}
use kortex_memory.Service.State.{State, Environment}
use kortex_memory.Service.Methods.{flush, audit, filed, context}
use kortex_memory.Service.Tenancy.Tables.{
  foreign, foreign-replace_row, IsBelow, IsOrdered-replace_row, IsBelow-replace_row,
}

-- the ids of the memories grow along the table, and the sequence stands above them
pub record IsTidy (s : State) : Type 0 where
  pub ordered : IsOrdered 0 s.memories
  pub below : IsBelow s.next_id s.memories
  pub positive : 0 < s.next_id

-- the entries of the orgs that are not the tenant's
abbrev pub foreign_entries : ℕ → Audit.Table → Audit.Table
foreign_entries org = keep (λ (e : AuditLog). not (e.org_id == org))

-- nothing of another org differs between two states
pub record IsIsolated (org : ℕ) (s s' : State) : Type 0 where
  pub memories_kept : foreign org s'.memories ≡ foreign org s.memories
  pub entries_kept : foreign_entries org s'.audit ≡ foreign_entries org s.audit
  pub links_kept : s'.links ≡ s.links
  pub projects_kept : s'.projects ≡ s.projects
  pub orgs_kept : s'.orgs ≡ s.orgs

abbrev pub Keeps : ℕ → State → State → Type 0
Keeps org s s' = IsTidy s → IsTidy s' × IsIsolated org s s'

pub IsIsolated-refl : (org : ℕ) (s : State) → IsIsolated org s s
IsIsolated-refl org s = record {
  memories_kept = refl;
  entries_kept = refl;
  links_kept = refl;
  projects_kept = refl;
  orgs_kept = refl;
}

IsIsolated-trans :
    (org : ℕ) (s s' s'' : State)
    → IsIsolated org s s'
    → IsIsolated org s' s''
    → IsIsolated org s s''
IsIsolated-trans org s s' s'' a b = record {
  memories_kept = b.memories_kept ∙ a.memories_kept;
  entries_kept = b.entries_kept ∙ a.entries_kept;
  links_kept = b.links_kept ∙ a.links_kept;
  projects_kept = b.projects_kept ∙ a.projects_kept;
  orgs_kept = b.orgs_kept ∙ a.orgs_kept;
}

pub Keeps-refl : (org : ℕ) (s : State) → Keeps org s s
Keeps-refl org s t = (t, IsIsolated-refl org s)

pub Keeps-trans : (org : ℕ) (s s' s'' : State) → Keeps org s s' → Keeps org s' s'' → Keeps org s s''
Keeps-trans org s s' s'' a b t =
    let first : IsTidy s' × IsIsolated org s s' = a t in
    let next : IsTidy s'' × IsIsolated org s' s'' = b first.0 in
    (next.0, IsIsolated-trans org s s' s'' first.1 next.1)

-- a computation that keeps the other orgs at a state
pub record IsSafe {A : Type 0} (org : ℕ) (m : Exec State A) (s : State) : Type 0 where
  pub kept : Keeps org s (m s).1

module _ {A : Type 0} (org : ℕ) where
  pub pure-IsSafe : (a : A) (s : State) → IsSafe org (pure a) s
  pure-IsSafe a s = record { kept = Keeps-refl org s }

  -- a test that raises changes nothing
  pub raise_unless-IsSafe :
      (b : Bool) (e : Error) (k : Exec State A) (s : State)
      → IsSafe org k s
      → IsSafe org (raise_unless b e >> k) s
  unfolding ◌>>=◌
  raise_unless-IsSafe true e k s h = record { kept = h.kept }
  raise_unless-IsSafe false e k s h = record { kept = Keeps-refl org s }

  pub if-IsSafe :
      (b : Bool) (x y : Exec State A) (s : State)
      → IsSafe org x s
      → IsSafe org y s
      → IsSafe org (if b then x else y) s
  if-IsSafe true x y s h k = h
  if-IsSafe false x y s h k = k

module _ {A B : Type 0} (org : ℕ) where
  continue-Keeps :
      (r : Result A) (f : A → Exec State B) (s s' : State)
      → Keeps org s s'
      → ((a : A) → IsSafe org (f a) s')
      → Keeps org s (continue r f s').1
  continue-Keeps (ok a) f s s' h k = Keeps-trans org s s' (f a s').1 h (k a).kept
  continue-Keeps (err e) f s s' h k = h

  pub gets-IsSafe :
      (g : State → A) (k : A → Exec State B) (s : State)
      → IsSafe org (k (g s)) s
      → IsSafe org (gets g >>= k) s
  unfolding ◌>>=◌
  gets-IsSafe g k s h = record { kept = h.kept }

  -- one step after the other
  pub bind-IsSafe :
      (m : Exec State A) (f : A → Exec State B) (s : State)
      → IsSafe org m s
      → ((a : A) → IsSafe org (f a) (m s).1)
      → IsSafe org (m >>= f) s
  unfolding ◌>>=◌
  bind-IsSafe m f s h k = record { kept = continue-Keeps (m s).0 f s (m s).1 h.kept k }

org_of : {q : ℕ} (org : ℕ) → (some org ≡ none) ⊎ (some org ≡ some q) → org ≡ q
org_of org (inl h) = absurd cc h
org_of org (inr h) = cc h

foreign_entries-append :
    (org : ℕ) (t : Audit.Table) (e : AuditLog)
    → e.org_id ≡ org
    → foreign_entries org (t ++ e ∷ []) ≡ foreign_entries org t
foreign_entries-append org [] e h = ground (arith, h)
foreign_entries-append org (r ∷ t) e h = ground (arith, foreign_entries-append org t e h)

module _ (env : Environment) (p : Principal) where
  -- a row that the tenant finds, with a new content
  pub flush-IsSafe :
      (test : Memory → Bool) (m m' : Memory) (s : State)
      → Found test s.memories m
      → m'.id ≡ m.id
      → m.org_id ≡ p.org_id
      → m'.org_id ≡ p.org_id
      → IsSafe p.org_id (flush m') s
  unfolding flush
  flush-IsSafe test m m' s f i h h' = record {
    kept = λ t. (
      record {
        ordered = IsOrdered-replace_row 0 s.memories m' t.ordered;
        below = IsBelow-replace_row s.next_id s.memories m' t.below;
        positive = t.positive;
      },
      record {
        memories_kept = foreign-replace_row p.org_id test s.memories m' f i h h';
        entries_kept = refl;
        links_kept = refl;
        projects_kept = refl;
        orgs_kept = refl;
      },
    );
  }

  owned :
      (public_id : ℕ) (rows : Table) (m : Memory)
      → p.is_superuser ≡ false
      → Found (by_public_id p public_id) rows m
      → m.org_id ≡ p.org_id
  owned public_id rows m super f = ground (arith, f.passes, super)

  -- what is found belongs to the tenant, and a flush of it finds it again
  pub on_Found :
      {A : Type 0} (public_id : ℕ) (s : State) (k : Option Memory → Exec State A)
      → p.is_superuser ≡ false
      → IsSafe p.org_id (k none) s
      → ((m : Memory)
          → Found (by_public_id p public_id) s.memories m
          → m.org_id ≡ p.org_id
          → IsSafe p.org_id (k (some m)) s)
      → IsSafe p.org_id (k (get_by_public_id p public_id s.memories)) s
  unfolding get_by_public_id
  on_Found public_id s k super missed h = record {
    kept = λ t. elim (Option-cases (find (by_public_id p public_id) s.memories)) [
      | inl none_found ↦ (subst (λ o. IsSafe p.org_id (k o) s) (sym none_found) missed).kept t
      | inr (m, e) ↦
          let f : Found (by_public_id p public_id) s.memories m =
            found (by_public_id p public_id) 0 s.memories t.ordered e in
          (subst (λ o. IsSafe p.org_id (k o) s) (sym e)
              (h m f (owned public_id s.memories m super f))).kept
            t
    ];
  }

  filed-Keeps :
      (o : Option ℕ) (v : Event) (s : State)
      → (o ≡ none) ⊎ (o ≡ some p.org_id)
      → Keeps p.org_id s (filed env p (file_under env.audit_hash o (context env p s) v s.audit) s).1
  unfolding entry_of
  filed-Keeps none v s h t = (t, IsIsolated-refl p.org_id s)
  filed-Keeps (some org) v s h t = (
    record { ordered = t.ordered; below = t.below; positive = t.positive },
    record {
      memories_kept = refl;
      entries_kept =
          foreign_entries-append p.org_id s.audit
            (new_entry env.audit_hash (context env p s) v org s.audit) (org_of org h);
      links_kept = refl;
      projects_kept = refl;
      orgs_kept = refl;
    },
  )

  own_or_none :
      (org : ℕ)
      → (effective_org none (some org) ≡ none) ⊎ (effective_org none (some org) ≡ some org)
  unfolding effective_org
  own_or_none zero = inl refl
  own_or_none (suc n) = inr refl

  -- an entry of the tenant
  pub audit-IsSafe : (v : Event) (s : State) → v.org_id ≡ none → IsSafe p.org_id (audit env p v) s
  unfolding audit append
  audit-IsSafe v s h = record {
    kept = filed-Keeps (effective_org v.org_id (some p.org_id)) v s (rw h (own_or_none p.org_id));
  }
