-- ===== src/Retrieval/Searching.antt =====
-- `RetrievalService.search` of packages/kortex-core/src/kortex_core/services/retrieval_service.py.
pub mod Laws
mod Tests
use kortex_memory.Prelude.{
  ℕ, Bool, true, false, ◌&&◌, Option, none, some, List, [], ◌∷◌, Text, map, if◌then◌else◌,
}
use kortex_memory.Access.{Principal}
use kortex_memory.Memories.{Vector}
use kortex_memory.Memories.Queries.{ScopeFilter}
use kortex_memory.Memories.Writes.{record_access}
use kortex_memory.Service.State.{State}
use kortex_memory.Retrieval.Conflicts.{HybridSearchHit, annotate_conflicts, demote_superseded}
use kortex_memory.Retrieval.Hybrid.{hybrid_search}
use kortex_memory.Retrieval.Loop.{World, Hits}

pub record SearchRequest : Type 0 where
  pub query : Text
  pub scopes : List ScopeFilter
  pub limit : ℕ
  pub embed_query : Bool

pub record SearchResult : Type 0 where
  pub hits : Hits
  pub used_vector : Bool

abbrev pub ids_of_hits : Hits → List ℕ
ids_of_hits = map (λ (h : HybridSearchHit). h.memory_id)

abbrev pub hit_id : HybridSearchHit → ℕ
hit_id h = h.memory_id

-- `record_access` on the state
abbrev pub accessed : List ℕ → State → State
accessed ids s = record s { db = record s.db { memories = record_access s.now ids s.memories } }

abbrev pub is_given : Option Vector → Bool
is_given none = false
is_given (some v) = true

-- the vector of the query, unless the embedder fails or is not asked
abbrev pub query_vector : World → SearchRequest → Option Vector
query_vector w r = if r.embed_query then w.embed r.query else none

-- the notes on the conflicts, and the superseded hits behind the others
abbrev pub put_in_order : Principal → State → Hits → Hits
put_in_order p s hits =
    let noted = annotate_conflicts p s.links s.memories hits in
    demote_superseded noted.0 noted.1 hit_id

module _ (w : World) (p : Principal) where
  abbrev pub found_hits : SearchRequest → State → Hits
  found_hits r s =
      let hits =
        hybrid_search w.floats w.db w.settings p r.query (query_vector w r) r.scopes
          p.max_sensitivity r.limit s.projects s.memories in
      if w.settings.conflict_detection then put_in_order p s hits else hits

  unfoldable pub search_memories : SearchRequest → State → SearchResult × State
  unfolding hybrid_search annotate_conflicts demote_superseded record_access
  search_memories r s =
      let hits = found_hits r s in
      (
        record { hits = hits; used_vector = is_given (query_vector w r) },
        accessed (ids_of_hits hits) s,
      )
