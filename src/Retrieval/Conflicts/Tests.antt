-- ===== src/Retrieval/Conflicts/Tests.antt =====
-- Runs on a page of two hits, of which one is superseded by the other.
use kortex_memory.Prelude.{◌≡◌, refl, List, [], ◌∷◌, All}
use kortex_memory.Types.{MemoryLinkType}
use kortex_memory.Memories.{MemoryLink}
use kortex_memory.Service.Samples.{user_of, first, second, three_rows}
use kortex_memory.Retrieval.Conflicts.{
  HybridSearchHit, hit_of, demote_superseded, present_in, annotate_conflicts,
}
use kortex_memory.Retrieval.Conflicts.Laws.{IsOutdated, annotate_conflicts-IsOutdated}

abbrev edges : List MemoryLink
edges =
    record {
      from_memory_id = 2;
      to_memory_id = 1;
      link_type = MemoryLinkType.supersedes;
      weight = 1;
      created_at = 100;
    }
    ∷ []

abbrev page : List HybridSearchHit
page = hit_of 0 first ∷ hit_of 0 second ∷ []

annotated : (annotate_conflicts (user_of 1) edges three_rows.memories page).1 ≡ 1 ∷ []
unfolding annotate_conflicts
annotated = refl

reordered : present_in (demote_superseded page (1 ∷ []) (λ h. h.memory_id)) ≡ 2 ∷ 1 ∷ []
unfolding demote_superseded
reordered = refl

annotate_conflicts-IsOutdated_example :
    All
      (IsOutdated (user_of 1) three_rows.memories (present_in page) edges)
      (annotate_conflicts (user_of 1) edges three_rows.memories page).1
annotate_conflicts-IsOutdated_example =
    annotate_conflicts-IsOutdated (user_of 1) edges three_rows.memories page

-- a memory that is recorded as superseding itself
abbrev own_edge : List MemoryLink
own_edge =
    record {
      from_memory_id = 1;
      to_memory_id = 1;
      link_type = MemoryLinkType.supersedes;
      weight = 1;
      created_at = 100;
    }
    ∷ []

demoted_by_itself : (annotate_conflicts (user_of 1) own_edge three_rows.memories page).1 ≡ 1 ∷ []
unfolding annotate_conflicts
demoted_by_itself = refl
