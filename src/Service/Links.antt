-- ===== src/Service/Links.antt =====
-- The links of `MemoryService` of services/memory_service.py.
pub mod Laws
pub mod Ends
use kortex_memory.Prelude.{
  ℕ, Bool, true, false, Option, none, some, List, [], ◌∷◌, ◌==◌, if◌then◌else◌,
}
use kortex_memory.Types.{MemoryLinkType}
use kortex_memory.Access.{Principal}
use kortex_memory.Memories.{Memory, MemoryLink, Table}
use kortex_memory.Memories.Queries.{get_by_id}
use kortex_memory.Memories.Links.{Links, insert_link, remove_link, neighbors}
use kortex_memory.Service.Exec.{ok, err, Exec, pure, gets, ◌>>=◌, ◌>>◌, duplicate_link}
use kortex_memory.Service.State.{State, Environment}
use kortex_memory.Service.Write.{require_scope}
use kortex_memory.Service.Methods.{lookup}

module _ (env : Environment) (p : Principal) where
  abbrev pub joined_with : Option (MemoryLink × Links) → Exec State (Option MemoryLink)
  joined_with none s = (err duplicate_link, s)
  joined_with (some (l, ls)) s = (ok (some l), record s { db = record s.db { links = ls } })

  abbrev pub link_both :
      MemoryLinkType → ℕ → Option Memory → Option Memory → Exec State (Option MemoryLink)
  link_both type weight (some a) (some b) s =
      joined_with (insert_link a.id b.id type weight s.now s.links) s
  link_both type weight none b s = (ok none, s)
  link_both type weight (some a) none s = (ok none, s)

  unfoldable pub link : ℕ → ℕ → MemoryLinkType → ℕ → Exec State (Option MemoryLink)
  unfolding insert_link ◌>>=◌
  link from to type weight = do
    a ← lookup env p from
    b ← lookup env p to
    link_both type weight a b

  abbrev pub unlink_both : MemoryLinkType → Option Memory → Option Memory → Exec State Bool
  unlink_both type (some a) (some b) s =
      let (removed, ls) = remove_link a.id b.id type s.links in
      (ok removed, record s { db = record s.db { links = ls } })
  unlink_both type none b s = (ok false, s)
  unlink_both type (some a) none s = (ok false, s)

  unfoldable pub unlink : ℕ → ℕ → MemoryLinkType → Exec State Bool
  unfolding remove_link ◌>>=◌
  unlink from to type = do a ← lookup env p from; b ← lookup env p to; unlink_both type a b

  abbrev pub other_end : ℕ → MemoryLink → ℕ
  other_end i l = if l.from_memory_id == i then l.to_memory_id else l.from_memory_id

  abbrev pub cons_some :
      Option Memory
      → MemoryLinkType
      → List (Memory × MemoryLinkType)
      → List (Memory × MemoryLinkType)
  cons_some none type rest = rest
  cons_some (some m) type rest = (m, type) ∷ rest

  -- the loop over the links of a memory
  unfoldable pub ends_of : ℕ → Table → Links → List (Memory × MemoryLinkType)
  unfolding get_by_id
  ends_of i t [] = []
  ends_of i t (l ∷ ls) = cons_some (get_by_id p (other_end i l) t) l.link_type (ends_of i t ls)

  abbrev pub links_found : Option Memory → State → List (Memory × MemoryLinkType)
  links_found none s = []
  links_found (some m) s = ends_of m.id s.memories (neighbors m.id none s.links)

  unfoldable pub list_links : ℕ → Exec State (List (Memory × MemoryLinkType))
  unfolding require_scope ends_of neighbors ◌>>=◌
  list_links public_id = do
    require_scope env p "read:memory"
    found ← lookup env p public_id
    gets (links_found found)
