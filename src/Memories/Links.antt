-- ===== src/Memories/Links.antt =====
-- packages/kortex-core/src/kortex_core/repositories/memory_link_repo.py. The ids of the memories and the
-- type are the primary key of a link.
use kortex_memory.Prelude.{
  ℕ, Bool, true, false, not, ◌&&◌, ◌||◌, Option, none, some, List, [], ◌∷◌, ◌++◌, keep, any, ◌==◌,
  if◌then◌else◌,
}
use kortex_memory.Types.{MemoryLinkType, link_eq}
use kortex_memory.Memories.{MemoryLink}

abbrev pub Links : Type 0
Links = List MemoryLink

abbrev pub has_key : ℕ → ℕ → MemoryLinkType → MemoryLink → Bool
has_key from to type l =
    l.from_memory_id == from && l.to_memory_id == to && link_eq l.link_type type

-- `link`; `none` is the violation of the primary key
unfoldable pub insert_link : ℕ → ℕ → MemoryLinkType → ℕ → ℕ → Links → Option (MemoryLink × Links)
insert_link from to type weight now ls =
    let l : MemoryLink = record {
      from_memory_id = from;
      to_memory_id = to;
      link_type = type;
      weight = weight;
      created_at = now;
    } in
    if any (has_key from to type) ls then none else some (l, ls ++ l ∷ [])

-- `unlink`
unfoldable pub remove_link : ℕ → ℕ → MemoryLinkType → Links → Bool × Links
remove_link from to type ls =
    if any (has_key from to type) ls
    then (true, keep (λ l. not (has_key from to type l)) ls)
    else (false, ls)

abbrev pub touches : ℕ → MemoryLink → Bool
touches i l = l.from_memory_id == i || l.to_memory_id == i

abbrev type_ok : Option (List MemoryLinkType) → MemoryLink → Bool
type_ok none l = true
type_ok (some []) l = true
type_ok (some (t ∷ ts)) l = any (link_eq l.link_type) (t ∷ ts)

unfoldable pub neighbors : ℕ → Option (List MemoryLinkType) → Links → Links
neighbors i types = keep (λ l. touches i l && type_ok types l)

abbrev pub is_conflict : MemoryLinkType → Bool
is_conflict t = any (link_eq t) (MemoryLinkType.supersedes ∷ MemoryLinkType.contradicts ∷ [])

unfoldable pub conflict_links : List ℕ → Links → Links
conflict_links [] ls = []
conflict_links (i ∷ ids) ls =
    keep (λ l. is_conflict l.link_type && any (λ j. touches j l) (i ∷ ids)) ls
