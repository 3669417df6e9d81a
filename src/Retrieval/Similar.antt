-- ===== src/Retrieval/Similar.antt =====
-- `list_conflict_candidates` and `find_similar_for_review` of
-- packages/kortex-core/src/kortex_core/repositories/memory_repo.py. `1 - distance` and `0.5` are parameters,
-- as places in the order of floats.
pub mod Laws
mod Tests
use kortex_memory.Prelude.{
  ℕ, suc, Bool, true, false, not, ◌&&◌, Option, none, some, List, [], ◌∷◌, Text, map, keep, take,
  sort_asc, sort_desc, ◌==◌, leb, if◌then◌else◌,
}
use kortex_memory.Types.{Sensitivity, ReviewStatus, kind_eq, status_eq}
use kortex_memory.Access.{Principal}
use kortex_memory.Dedup.{collapse, strip}
use kortex_memory.Memories.{Memory, Table, Vector, find, is_none, is_live, in_scope}
use kortex_memory.Memories.Queries.{ScopeFilter, list_by_ids}
use kortex_memory.Service.State.{Project}
use kortex_memory.Tool.Texts.{split_on, join_with}
use kortex_memory.Retrieval.Conflicts.{HybridSearchHit}
use kortex_memory.Retrieval.Hybrid.{
  Floats, Postgres, Settings, embedding_distance, memory_ids, hybrid_search,
}

-- same org, same scope, same kind
abbrev pub could_conflict : Memory → Memory → Bool
could_conflict memory m =
    is_live m
    && status_eq m.review_status ReviewStatus.approved
    && not (is_none m.embedding)
    && m.org_id == memory.org_id
    && in_scope memory.scope_type memory.scope_id m
    && kind_eq m.kind memory.kind
    && not (m.id == memory.id)

abbrev cons_pair : Option Memory → ℕ → List (Memory × ℕ) → List (Memory × ℕ)
cons_pair none sim rest = rest
cons_pair (some m) sim rest = (m, sim) ∷ rest

-- `[(by_id[mid], sim) for mid, sim in scored.items() if mid in by_id]`
abbrev pub paired : Table → List (ℕ × ℕ) → List (Memory × ℕ)
paired loaded [] = []
paired loaded ((i, sim) ∷ rest) = cons_pair (find (λ m. m.id == i) loaded) sim (paired loaded rest)

abbrev pub scored_id : ℕ × ℕ → ℕ
scored_id x = x.0

-- `" ".join(body.split()[:8])`
abbrev pub first_words : Text → Text
first_words body = join_with 32 (take 8 (split_on 32 (strip (collapse false body))))

module _ (floats : Floats) (db : Postgres) (settings : Settings) (similarity : ℕ → ℕ) (half : ℕ)
    (p : Principal) (projects : List Project) (t : Table) where
  -- the nearest rows, with how similar they are
  abbrev pub scored : Memory → Vector → ℕ → ℕ → List (ℕ × ℕ)
  scored memory v limit min_similarity =
      keep (λ (x : ℕ × ℕ). leb min_similarity x.1)
        (map (λ (m : Memory). (m.id, similarity (embedding_distance db v m)))
          (take limit (sort_asc (embedding_distance db v) (keep (could_conflict memory) t))))

  abbrev pub candidates_near : Memory → Option Vector → ℕ → ℕ → List (Memory × ℕ)
  candidates_near memory none limit min_similarity = []
  candidates_near memory (some v) limit min_similarity =
      let near = scored memory v limit min_similarity in
      sort_desc (λ (x : Memory × ℕ). x.1) (paired (list_by_ids p (map scored_id near) t) near)

  unfoldable pub list_conflict_candidates : Memory → ℕ → ℕ → List (Memory × ℕ)
  unfolding sort_asc sort_desc list_by_ids find
  list_conflict_candidates memory limit min_similarity =
      candidates_near memory memory.embedding limit min_similarity

  abbrev pub scope_of : Memory → ScopeFilter
  scope_of memory = record { scope_type = memory.scope_type; scope_id = memory.scope_id }

  -- without an embedding: the rows that a search for the first words finds
  abbrev pub by_words : Memory → ℕ → Text → Table
  by_words memory limit [] = []
  by_words memory limit (c ∷ cs) =
      let hits =
        hybrid_search floats db settings p (c ∷ cs) none (scope_of memory ∷ []) Sensitivity.secret
          (suc limit) projects t in
      let ids =
        keep (λ i. not (i == memory.id)) (map (λ (h : HybridSearchHit). h.memory_id) hits) in
      list_by_ids p (take limit ids) t

  abbrev pub similar_to : Memory → Option Vector → ℕ → Table
  similar_to memory none limit = by_words memory limit (first_words memory.body)
  similar_to memory (some v) limit =
      map (λ (x : Memory × ℕ). x.0) (list_conflict_candidates memory limit half)

  unfoldable pub find_similar_for_review : Memory → ℕ → Table
  unfolding list_conflict_candidates hybrid_search list_by_ids collapse strip split_on join_with
  find_similar_for_review memory limit = similar_to memory memory.embedding limit
