-- ===== src/Service/Reads.antt =====
-- What the reads of services/memory_service.py return.
use kortex_memory.Prelude.{
  ℕ, ◌≡◌, refl, sym, ◌∙◌, ap, subst, Bool, true, false, ◌&&◌, Option, none, some, List, [], ◌∷◌,
  All, All-map, In, inl, inr, ◌≤◌, length, length-take, take-All, drop-All, keep, keep-All, take,
  drop, sort_desc, sort_desc-All, if◌then◌else◌, Bool-cases, arith,
}
use kortex_memory.Types.{MemoryTier, MemoryKind, ReviewStatus, status_eq}
use kortex_memory.Access.{Principal, can_read, sensitivity_rank, has_key_scope}
use kortex_memory.Policies.Laws.{sensitivities_up_to_iff}
use kortex_memory.Policies.{sensitivities_up_to, sensitivity_in}
use kortex_memory.Memories.{Memory, Table, find, in_tenant, is_live}
use kortex_memory.Memories.Queries.{
  ScopeFilter, get_by_public_id, by_public_id, list_rows, listed, cap_ok, kind_ok, tier_ok,
  scope_ok, created,
}
use kortex_memory.Service.Exec.{ok, access_denied, gets, pure, ◌>>=◌}
use kortex_memory.Service.Exec.Laws.{raise_unless-ok, ok-injective}
use kortex_memory.Service.State.{State, Environment}
use kortex_memory.Service.Write.{require_scope}
use kortex_memory.Service.Methods.{resource_of, lookup, readable, get, read_cap, list_memories}

-- what a reader may be handed
pub record IsVisible (p : Principal) (m : Memory) : Type 0 where
  pub live : is_live m ≡ true
  pub tenant : in_tenant p m ≡ true
  pub permitted : can_read p (resource_of m m.sensitivity) ≡ true

-- what a listing may show
pub record IsListed (p : Principal) (m : Memory) : Type 0 where
  pub live : is_live m ≡ true
  pub tenant : in_tenant p m ≡ true
  pub approved : status_eq m.review_status ReviewStatus.approved ≡ true
  pub under_cap :
      p.is_superuser ≡ false → sensitivity_rank m.sensitivity ≤ sensitivity_rank p.max_sensitivity

pub and-both : (a b : Bool) → (a && b) ≡ true → (a ≡ true) × (b ≡ true)
and-both true b h = (refl, h)
and-both false b h = absurd cc h

pub find-In :
    (test : Memory → Bool) (t : Table) (m : Memory)
    → find test t ≡ some m
    → In m t × (test m ≡ true)
unfolding find
find-In test [] m e = absurd cc e
find-In test (r ∷ t) m e = elim (Bool-cases (test r)) [
  | inl hit ↦
      let same : r ≡ m = ground (arith, hit, e) in (inl (sym same), ap test (sym same) ∙ hit)
  | inr miss ↦ let rest = find-In test t m (ground (arith, miss, e)) in (inr rest.0, rest.1)
]

module _ (env : Environment) (p : Principal) where
  readable-some :
      (o : Option Memory) (m : Memory)
      → readable env p o ≡ some m
      → (o ≡ some m) × (can_read p (resource_of m m.sensitivity) ≡ true)
  readable-some none m e = absurd cc e
  readable-some (some r) m e = elim (Bool-cases (can_read p (resource_of r r.sensitivity))) [
    | inl allowed ↦
        let same : r ≡ m = ground (arith, allowed, e) in
        (
          ap (λ x. some x) same,
          subst (λ x. can_read p (resource_of x x.sensitivity) ≡ true) same allowed,
        )
    | inr refused ↦ absurd ground (arith, refused, e)
  ]

  get_by_public_id-facts :
      (i : ℕ) (t : Table) (m : Memory)
      → get_by_public_id p i t ≡ some m
      → In m t × ((m.public_id ≡ i) × ((is_live m ≡ true) × (in_tenant p m ≡ true)))
  unfolding get_by_public_id
  get_by_public_id-facts i t m e =
      let r = find-In (by_public_id p i) t m e in
      (r.0, (ground (arith, r.1), (ground (arith, r.1), ground (arith, r.1))))

  -- If the service's `get` returns a memory, then that memory is the row of the table with the public
  -- id asked for: not deleted, of the caller's org (a superuser reads every org), in a scope and at a
  -- sensitivity that the caller may read; and `get` changes nothing.
  pub get-IsVisible :
      (i : ℕ) (s : State) (m : Memory)
      → (get env p i s).0 ≡ ok (some m)
      → In m s.memories × ((m.public_id ≡ i) × (IsVisible p m × ((get env p i s).1 ≡ s)))
  unfolding get require_scope ◌>>=◌
  get-IsVisible i s m e =
      let passed =
        raise_unless-ok (has_key_scope p "read:memory") access_denied
          (lookup env p i >>= λ found. pure (readable env p found)) s (some m) e in
      let same : readable env p (get_by_public_id p i s.memories) ≡ some m =
        ok-injective (sym (ap (λ r. r.0) passed.1) ∙ e) in
      let r = readable-some (get_by_public_id p i s.memories) m same in
      let row = get_by_public_id-facts i s.memories m r.0 in
      (
        row.0,
        (
          row.1.0,
          (
            record { live = row.1.1.0; tenant = row.1.1.1; permitted = r.1 },
            ap (λ r. r.1) passed.1,
          ),
        ),
      )

  rank_capped :
      (m : Memory)
      → p.is_superuser ≡ false
      → cap_ok (read_cap env p) m ≡ true
      → sensitivity_in m.sensitivity (sensitivities_up_to p.max_sensitivity) ≡ true
  rank_capped m user h =
      subst (λ b. cap_ok (if b then none else some p.max_sensitivity) m ≡ true) user h

  listed-IsListed :
      (scope : Option ScopeFilter) (tier : Option MemoryTier) (kind : Option MemoryKind)
      (m : Memory)
      → listed p scope tier kind (read_cap env p) m ≡ true
      → IsListed p m
  unfolding sensitivities_up_to
  listed-IsListed scope tier kind m h =
      let capped = and-both _ (cap_ok (read_cap env p) m) h in
      let kinds = and-both _ (kind_ok kind m) capped.0 in
      let tiers = and-both _ (tier_ok tier m) kinds.0 in
      let scopes = and-both _ (scope_ok scope m) tiers.0 in
      let approved = and-both _ (status_eq m.review_status ReviewStatus.approved) scopes.0 in
      let rows = and-both (in_tenant p m) (is_live m) approved.0 in
      record {
        live = rows.1;
        tenant = rows.0;
        approved = approved.1;
        under_cap = λ user.
            (sensitivities_up_to_iff p.max_sensitivity m.sensitivity).0
              (rank_capped m user capped.1);
      }

  -- Every memory that the service's `list` returns is a row of the table that is not deleted, belongs to
  -- the caller's org (a superuser lists every org), has passed review, and has at most the caller's
  -- highest sensitivity unless the caller is a superuser; and at most `limit` are returned.
  pub list_memories-IsListed :
      (scope : Option ScopeFilter) (tier : Option MemoryTier) (kind : Option MemoryKind)
      (limit offset : ℕ) (s : State) (ms : List Memory)
      → (list_memories env p scope tier kind limit offset s).0 ≡ ok ms
      → All (λ m. In m s.memories × IsListed p m) ms × (length ms ≤ limit)
  unfolding list_memories require_scope list_rows ◌>>=◌
  list_memories-IsListed scope tier kind limit offset s ms e =
      let test : Memory → Bool = listed p scope tier kind (read_cap env p) in
      let rows : List Memory = keep test s.memories in
      let sorted : List Memory = sort_desc created rows in
      let passed =
        raise_unless-ok (has_key_scope p "read:memory") access_denied
          (gets (λ s. list_rows p scope tier kind (read_cap env p) limit offset s.memories)) s ms
          e in
      let same : take limit (drop offset sorted) ≡ ms =
        ok-injective (sym (ap (λ r. r.0) passed.1) ∙ e) in
      let P : Memory → Type 0 = λ m. In m s.memories × IsListed p m in
      let all : All P rows =
        All-map rows (λ m h. (h.0, listed-IsListed scope tier kind m h.1))
          (keep-All test s.memories) in
      subst (λ l. All P l × (length l ≤ limit)) same
        (
          take-All P limit (drop offset sorted)
              (drop-All P offset sorted (sort_desc-All created P rows all)),
          omega (arith, length-take limit (drop offset sorted)),
        )
