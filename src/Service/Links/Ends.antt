-- ===== src/Service/Links/Ends.antt =====
-- What `list_links` of services/memory_service.py returns.
use kortex_memory.Prelude.{ℕ, ◌≡◌, ◌⊎◌, true, Option, none, some, List, [], All, In}
use kortex_memory.Types.{MemoryLinkType}
use kortex_memory.Access.{Principal}
use kortex_memory.Memories.{Memory, MemoryLink, Table, in_tenant, is_live}
use kortex_memory.Memories.Queries.{get_by_public_id, get_by_id}
use kortex_memory.Memories.Links.{Links, neighbors}
use kortex_memory.Service.State.{State, Environment}
use kortex_memory.Service.Links.{other_end}

-- a link leads from one memory to the other, or back
abbrev pub IsJoined : MemoryLink → ℕ → ℕ → Type 0
IsJoined l i j =
    ((l.from_memory_id ≡ i) × (l.to_memory_id ≡ j))
    ⊎ ((l.to_memory_id ≡ i) × (l.from_memory_id ≡ j))

-- a live row that the tenant may look up, at the other end of a recorded link of the type
pub record IsLinkEnd (p : Principal) (i : ℕ) (t : Table) (ls : Links) (q : Memory × MemoryLinkType)
    : Type 0 where
  pub stands : In q.0 t
  pub tenant : in_tenant p q.0 ≡ true
  pub live : is_live q.0 ≡ true
  pub link : MemoryLink
  pub recorded : In link ls
  pub typed : link.link_type ≡ q.1
  pub joined : IsJoined link i q.0.id

-- the ends of the links of the memory under a public id, which is there if there are any
pub record IsLinkEndOf (p : Principal) (public_id : ℕ) (s : State) (q : Memory × MemoryLinkType)
    : Type 0 where
  pub asked : Memory
  pub found : get_by_public_id p public_id s.memories ≡ some asked
  pub end : IsLinkEnd p asked.id s.memories s.links q

-- the far end of a link is returned, if the caller may look it up
abbrev pub IsReturned : Option Memory → MemoryLinkType → List (Memory × MemoryLinkType) → Type 0
IsReturned none type qs = Unit
IsReturned (some m) type qs = In (m, type) qs

module _ (env : Environment) (p : Principal) where
  -- every link of the memory that was found has its far end returned; without one there is nothing
  abbrev pub IsComplete : Option Memory → State → List (Memory × MemoryLinkType) → Type 0
  IsComplete none s qs = qs ≡ []
  IsComplete (some m) s qs =
      All (λ l. IsReturned (get_by_id p (other_end env p m.id l) s.memories) l.link_type qs)
        (neighbors m.id none s.links)
