-- ===== src/Service/Links/Laws.antt =====
-- What the links of services/memory_service.py connect, and how a link is undone.
use kortex_memory.Prelude.{
  ℕ, ◌≡◌, refl, sym, ◌∙◌, ap, subst, Bool, true, false, not, Option, none, some, [], ◌∷◌, ◌++◌,
  keep, any, Bool-cases, inl, inr, ==_iff, if◌then◌else◌, arith,
}
use kortex_memory.Types.{MemoryLinkType}
use kortex_memory.Access.{Principal}
use kortex_memory.Memories.{Memory, MemoryLink}
use kortex_memory.Memories.Queries.{get_by_public_id}
use kortex_memory.Memories.Links.{Links, has_key, insert_link, remove_link}
use kortex_memory.Service.Exec.{ok, ◌>>=◌}
use kortex_memory.Service.Exec.Laws.{ok-injective}
use kortex_memory.Service.Changing.{some-injective, nothing}
use kortex_memory.Service.State.{State, Environment}
use kortex_memory.Service.Links.{link, unlink, link_both, unlink_both, joined_with}

any-added :
    (test : MemoryLink → Bool) (ls : Links) (l : MemoryLink)
    → test l ≡ true
    → any test (ls ++ l ∷ []) ≡ true
any-added test [] l h = ground (arith, h)
any-added test (k ∷ ls) l h = ground (arith, any-added test ls l h)

keep-added :
    (test : MemoryLink → Bool) (ls : Links) (l : MemoryLink)
    → test l ≡ true
    → any test ls ≡ false
    → keep (λ k. not (test k)) (ls ++ l ∷ []) ≡ ls
keep-added test [] l h free = ground (arith, h)
keep-added test (k ∷ ls) l h free =
    ground (arith, free, keep-added test ls l h (ground (arith, free)))

remove-added :
    (from to : ℕ) (type : MemoryLinkType) (ls : Links) (l : MemoryLink)
    → has_key from to type l ≡ true
    → any (has_key from to type) ls ≡ false
    → remove_link from to type (ls ++ l ∷ []) ≡ (true, ls)
unfolding remove_link
remove-added from to type ls l key free =
    rw (any-added (has_key from to type) ls l key, keep-added (has_key from to type) ls l key free)
      refl

-- the link is new, and taking it out again leaves what was there
pub record IsJoined (from to : ℕ) (type : MemoryLinkType) (ls : Links) (l : MemoryLink)
    (ls' : Links) : Type 0 where
  pub added : ls' ≡ ls ++ l ∷ []
  pub start : l.from_memory_id ≡ from
  pub end : l.to_memory_id ≡ to
  pub undone : remove_link from to type ls' ≡ (true, ls)

missing : {A : Type 0} {x : A} → none ≡ some x → ⊥
missing h = cc h

insert_link-IsJoined :
    (from to : ℕ) (type : MemoryLinkType) (weight now : ℕ) (ls : Links) (l : MemoryLink)
    (ls' : Links)
    → insert_link from to type weight now ls ≡ some (l, ls')
    → IsJoined from to type ls l ls'
unfolding insert_link
insert_link-IsJoined from to type weight now ls l ls' h =
    let new : MemoryLink = record {
      from_memory_id = from;
      to_memory_id = to;
      link_type = type;
      weight = weight;
      created_at = now;
    } in
    let key : has_key from to type new ≡ true =
      ground (arith, (==_iff from from).1 refl, (==_iff to to).1 refl) in
    let pair : MemoryLink × Links = (new, ls ++ new ∷ []) in
    elim (Bool-cases (any (has_key from to type) ls)) [
      | inl taken ↦
          absurd (missing (subst (λ b. (if b then none else some pair) ≡ some (l, ls')) taken h))
      | inr free ↦
          let e : pair ≡ (l, ls') =
            some-injective (subst (λ b. (if b then none else some pair) ≡ some (l, ls')) free h) in
          subst (λ q. IsJoined from to type ls q.0 q.1) e
            (record {
              added = refl;
              start = refl;
              end = refl;
              undone = remove-added from to type ls new key free;
            })
    ]

module _ (env : Environment) (p : Principal) where
  -- what a call of `link` that returned a link did
  pub record IsLinked (from to : ℕ) (type : MemoryLinkType) (s : State) (l : MemoryLink)
      (s' : State) : Type 0 where
    pub a : Memory
    pub b : Memory
    pub a_found : get_by_public_id p from s.memories ≡ some a
    pub b_found : get_by_public_id p to s.memories ≡ some b
    pub starts : l.from_memory_id ≡ a.id
    pub ends : l.to_memory_id ≡ b.id
    pub added : s'.links ≡ s.links ++ l ∷ []
    pub memories_kept : s'.memories ≡ s.memories
    pub undone : unlink env p from to type s' ≡ (ok true, s)

  joined_with-ok :
      (o : Option (MemoryLink × Links)) (s : State) (l : MemoryLink)
      → (joined_with env p o s).0 ≡ ok (some l)
      → (ls' : Links) × ((o ≡ some (l, ls'))
          × ((joined_with env p o s).1 ≡ record s { db = record s.db { links = ls' } }))
  joined_with-ok none s l h = absurd cc h
  joined_with-ok (some (k, ls)) s l h =
      let same : k ≡ l = some-injective (ok-injective h) in
      (ls, (ap (λ q. some (q, ls)) same, refl))

  unlinked :
      (a b : Memory) (type : MemoryLinkType) (from to : ℕ) (s : State) (ls : Links)
      → get_by_public_id p from s.memories ≡ some a
      → get_by_public_id p to s.memories ≡ some b
      → remove_link a.id b.id type ls ≡ (true, s.links)
      → unlink env p from to type (record s { db = record s.db { links = ls } }) ≡ (ok true, s)
  unfolding unlink ◌>>=◌
  unlinked a b type from to s ls ea eb h =
      let s' : State = record s { db = record s.db { links = ls } } in
      ap (λ o. unlink_both env p type o (get_by_public_id p to s.memories) s') ea
      ∙ ap (λ o. unlink_both env p type (some a) o s') eb
      ∙ ap (λ (q : Bool × Links). (ok q.0, record s { db = record s.db { links = q.1 } })) h

  both-IsLinked :
      (from to : ℕ) (type : MemoryLinkType) (weight : ℕ) (oa ob : Option Memory) (s : State)
      (l : MemoryLink)
      → get_by_public_id p from s.memories ≡ oa
      → get_by_public_id p to s.memories ≡ ob
      → (link_both env p type weight oa ob s).0 ≡ ok (some l)
      → IsLinked from to type s l (link_both env p type weight oa ob s).1
  both-IsLinked from to type weight none ob s l ea eb h = absurd (nothing h)
  both-IsLinked from to type weight (some a) none s l ea eb h = absurd (nothing h)
  both-IsLinked from to type weight (some a) (some b) s l ea eb h =
      let r = joined_with-ok (insert_link a.id b.id type weight s.now s.links) s l h in
      let j = insert_link-IsJoined a.id b.id type weight s.now s.links l r.0 r.1.0 in
      subst (IsLinked from to type s l) (sym r.1.1) (record {
        a = a;
        b = b;
        a_found = ea;
        b_found = eb;
        starts = j.start;
        ends = j.end;
        added = j.added;
        memories_kept = refl;
        undone = unlinked a b type from to s r.0 ea eb j.undone;
      })

  -- If the service's `link` returns a link, then the caller finds a memory under each of the two public
  -- ids, the link runs between these two, it is added to the links and nothing else changes; and the
  -- `unlink` of the same arguments removes it, which restores the state as it was.
  pub link-IsLinked :
      (from to : ℕ) (type : MemoryLinkType) (weight : ℕ) (s : State) (l : MemoryLink)
      → (link env p from to type weight s).0 ≡ ok (some l)
      → IsLinked from to type s l (link env p from to type weight s).1
  unfolding link ◌>>=◌
  link-IsLinked from to type weight s l h =
      both-IsLinked from to type weight (get_by_public_id p from s.memories)
        (get_by_public_id p to s.memories) s l refl refl h
