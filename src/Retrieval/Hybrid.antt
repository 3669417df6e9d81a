-- ===== src/Retrieval/Hybrid.antt =====
-- `hybrid_search` of packages/kortex-core/src/kortex_core/repositories/memory_repo.py, `rrf_fuse` of
-- retrieval/hybrid.py and the choice of an analyser of retrieval/text_search.py. A float is the place
-- that it has in the order of floats; the arithmetic on floats, and what Postgres computes of a vector
-- or a text, are parameters.
pub mod Laws
use Prim.Native.String.{String}
use kortex_memory.Prelude.{
  ℕ, ◌+◌, ◌*◌, max, Bool, true, false, not, ◌&&◌, ◌||◌, Option, none, some, List, [], ◌∷◌, ◌++◌,
  Text, map, keep, take, any, sort_asc, sort_desc, ◌==◌, if◌then◌else◌,
}
use kortex_memory.Types.{ScopeType, Sensitivity, ReviewStatus, scope_type_eq, status_eq}
use kortex_memory.Access.{Principal}
use kortex_memory.Policies.{Trust, trusts_allowed_for, sensitivities_up_to, sensitivity_in}
use kortex_memory.Memories.{Memory, Table, Vector, find, is_none, is_live, in_tenant, in_scope}
use kortex_memory.Memories.Queries.{ScopeFilter}
use kortex_memory.Service.State.{Project}
use kortex_memory.Retrieval.Conflicts.{HybridSearchHit, hit_of, member}

-- floats: 0.0, 1.0, a sum, `1.0 / n`, and a score weighed by `0.5 + 0.5 * decay`
pub record Floats : Type 0 where
  pub nought : ℕ
  pub one : ℕ
  pub plus : ℕ → ℕ → ℕ
  pub reciprocal : ℕ → ℕ
  pub weighed : ℕ → ℕ → ℕ

-- Postgres: `<=>`, `@@ plainto_tsquery` and `ts_rank_cd`
pub record Postgres : Type 0 where
  pub distance : Vector → Vector → ℕ
  pub matches : String → Text → Memory → Bool
  pub rank : String → Text → Memory → ℕ

-- the settings that retrieval reads
pub record Settings : Type 0 where
  pub top_k_vector : ℕ
  pub top_k_bm25 : ℕ
  pub rrf_k : ℕ
  pub trust_filtering : Bool
  pub conflict_detection : Bool
  pub max_hops : ℕ
  pub max_candidates : ℕ
  pub hop_reserve_ms : ℕ

-- `DEFAULT_TS_CONFIG`
abbrev pub default_ts_config : String
default_ts_config = "english"

-- `ProjectRepository.get_by_id`, and its analyser
abbrev pub config_of_project : Principal → ℕ → List Project → String
config_of_project p i [] = default_ts_config
config_of_project p i (q ∷ qs) =
    if (p.is_superuser || q.org_id == p.org_id) && q.id == i
    then q.text_search_config
    else config_of_project p i qs

abbrev pub config_for_scope : Principal → List Project → ScopeType → Option ℕ → String
config_for_scope p projects t none = default_ts_config
config_for_scope p projects t (some i) =
    if scope_type_eq t ScopeType.project then config_of_project p i projects else default_ts_config

unfoldable pub config_for_scopes : Principal → List Project → List ScopeFilter → String
config_for_scopes p projects [] = default_ts_config
config_for_scopes p projects (s ∷ ss) =
    if scope_type_eq s.scope_type ScopeType.project
    then config_for_scope p projects s.scope_type (some s.scope_id)
    else config_for_scopes p projects ss

abbrev pub trust_code : Trust → ℕ
trust_code Trust.high = 2
trust_code Trust.medium = 1
trust_code Trust.low = 0

abbrev trust_ok : Option (List Trust) → Memory → Bool
trust_ok none m = true
trust_ok (some []) m = true
trust_ok (some (t ∷ ts)) m = any (λ x. trust_code m.trust == trust_code x) (t ∷ ts)

-- the filters that both queries share; no scopes means every scope
abbrev pub scopes_ok : List ScopeFilter → Memory → Bool
scopes_ok [] m = true
scopes_ok (s ∷ ss) m = any (λ (x : ScopeFilter). in_scope x.scope_type x.scope_id m) (s ∷ ss)

abbrev pub trusted : Bool → Sensitivity → Memory → Bool
trusted true cap m = trust_ok (trusts_allowed_for cap) m
trusted false cap m = true

unfoldable pub is_eligible : Bool → Principal → List ScopeFilter → Sensitivity → Memory → Bool
unfolding trusts_allowed_for sensitivities_up_to
is_eligible filtering p scopes cap m =
    is_live m
    && sensitivity_in m.sensitivity (sensitivities_up_to cap)
    && status_eq m.review_status ReviewStatus.approved
    && trusted filtering cap m
    && in_tenant p m
    && scopes_ok scopes m

-- a score map: a dict in the order of its insertions
abbrev pub Scores : Type 0
Scores = List (ℕ × ℕ)

abbrev pub score_of : ℕ → ℕ → Scores → ℕ
score_of nought i [] = nought
score_of nought i ((j, x) ∷ rest) = if j == i then x else score_of nought i rest

abbrev pub set_score : ℕ → ℕ → Scores → Scores
set_score i x [] = (i, x) ∷ []
set_score i x ((j, y) ∷ rest) = if j == i then (j, x) ∷ rest else (j, y) ∷ set_score i x rest

abbrev pub ids_of : Scores → List ℕ
ids_of = map (λ (x : ℕ × ℕ). x.0)

module _ (floats : Floats) where
  -- one ranking, from a rank on
  unfoldable pub add_ranking : ℕ → ℕ → List ℕ → Scores → Scores
  add_ranking k rank [] scores = scores
  add_ranking k rank (i ∷ ids) scores =
      let x = floats.plus (score_of floats.nought i scores) (floats.reciprocal (k + rank)) in
      add_ranking k (rank + 1) ids (set_score i x scores)

  unfoldable pub add_rankings : ℕ → List (List ℕ) → Scores → Scores
  unfolding add_ranking
  add_rankings k [] scores = scores
  add_rankings k (r ∷ rs) scores = add_rankings k rs (add_ranking k 1 r scores)

  -- the floor of the pinned memories
  abbrev pub floored : ℕ → List ℕ → ℕ × ℕ → ℕ × ℕ
  floored pinned_floor pinned (i, x) = (i, (if member i pinned then max x pinned_floor else x))

  unfoldable pub rrf_fuse : List (List ℕ) → ℕ → List ℕ → Scores
  unfolding add_rankings
  rrf_fuse rankings k pinned = map (floored floats.one pinned) (add_rankings k rankings [])

abbrev pub memory_ids : List Memory → List ℕ
memory_ids = map (λ (m : Memory). m.id)

abbrev pub embedding_distance : Postgres → Vector → Memory → ℕ
embedding_distance db q m = elim m.embedding [ none ↦ 0 | some v ↦ db.distance v q ]

module _ (floats : Floats) (db : Postgres) (settings : Settings) (p : Principal) where
  abbrev eligible : List ScopeFilter → Sensitivity → Memory → Bool
  eligible = is_eligible settings.trust_filtering p

  -- the rows nearest to the vector of the query
  abbrev pub vector_rows : Option Vector → List ScopeFilter → Sensitivity → Table → List Memory
  vector_rows none scopes cap t = []
  vector_rows (some q) scopes cap t = take settings.top_k_vector (
      sort_asc (embedding_distance db q)
        (keep (λ m. not (is_none m.embedding) && eligible scopes cap m) t))

  -- the rows that match the words of the query
  abbrev pub text_rows : String → Text → List ScopeFilter → Sensitivity → Table → List Memory
  text_rows config q scopes cap t =
      take settings.top_k_bm25 (
        sort_desc (db.rank config q) (keep (λ m. db.matches config q m && eligible scopes cap m) t))

  abbrev nonempty_rankings : List ℕ → List ℕ → List (List ℕ)
  nonempty_rankings [] [] = []
  nonempty_rankings [] (j ∷ js) = (j ∷ js) ∷ []
  nonempty_rankings (i ∷ is) [] = (i ∷ is) ∷ []
  nonempty_rankings (i ∷ is) (j ∷ js) = (i ∷ is) ∷ (j ∷ js) ∷ []

  abbrev pub pinned_ids : List ℕ → Table → List ℕ
  pinned_ids ids t = memory_ids (keep (λ m. member m.id ids && m.pinned) t)

  abbrev has_id : ℕ → Memory → Bool
  has_id i m = m.id == i

  abbrev weighed_hit : Scores → Memory → HybridSearchHit
  weighed_hit scores m =
      hit_of (floats.weighed (score_of floats.nought m.id scores) m.decay_score) m

  abbrev cons_hit : Scores → Option Memory → List HybridSearchHit → List HybridSearchHit
  cons_hit scores none hits = hits
  cons_hit scores (some m) hits = weighed_hit scores m ∷ hits

  -- the hits of the ids, in their order, for the rows that were fetched
  unfoldable pub hits_of : Scores → Table → List ℕ → List HybridSearchHit
  unfolding find
  hits_of scores rows [] = []
  hits_of scores rows (i ∷ ids) = cons_hit scores (find (has_id i) rows) (hits_of scores rows ids)

  abbrev pub best_ids : Scores → List ℕ
  best_ids scores = sort_desc (λ i. score_of floats.nought i scores) (ids_of scores)

  abbrev pub scored : Scores → ℕ → Table → List HybridSearchHit
  scored scores limit t =
      let ordered = best_ids scores in
      let fetched = keep (λ m. member m.id (take (max (limit * 2) limit) ordered)) t in
      take limit (sort_desc (λ (h : HybridSearchHit). h.score) (hits_of scores fetched ordered))

  abbrev pub fused : List ℕ → List ℕ → ℕ → Table → List HybridSearchHit
  fused vector_ids text_ids limit t =
      let rankings = nonempty_rankings vector_ids text_ids in
      scored (rrf_fuse floats rankings settings.rrf_k (pinned_ids (vector_ids ++ text_ids) t)) limit
        t

  unfoldable pub hybrid_search :
      Text
      → Option Vector
      → List ScopeFilter
      → Sensitivity
      → ℕ
      → List Project
      → Table
      → List HybridSearchHit
  unfolding config_for_scopes sort_asc sort_desc rrf_fuse hits_of is_eligible
  hybrid_search query vector scopes cap limit projects t =
      let config = config_for_scopes p projects scopes in
      fused (memory_ids (vector_rows vector scopes cap t))
        (memory_ids (text_rows config query scopes cap t)) limit t
