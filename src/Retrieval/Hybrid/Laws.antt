-- ===== src/Retrieval/Hybrid/Laws.antt =====
-- What `hybrid_search` may return.
use Prim.Native.String.{String}
use kortex_memory.Prelude.{
  All-In, ℕ, ◌+◌, ◌*◌, max, ◌≤◌, ◌≡◌, refl, sym, ◌∙◌, subst, Bool, true, not, ◌&&◌, Option, none,
  some, List, [], ◌∷◌, ◌++◌, Text, map, keep, take, length, length-take, sort_desc, sort_asc-All,
  sort_desc-All, ◌==◌, All, All-map, In, keep-All, take-All, Bool-cases, inl, inr, arith,
}
use kortex_memory.Types.{Sensitivity, ReviewStatus, status_eq}
use kortex_memory.Access.{Principal, sensitivity_rank}
use kortex_memory.Policies.{sensitivities_up_to, sensitivity_in}
use kortex_memory.Policies.Laws.{sensitivities_up_to_iff}
use kortex_memory.Memories.{Memory, Table, Vector, find, is_none, is_live, in_tenant}
use kortex_memory.Memories.Rows.{IsOrdered}
use kortex_memory.Memories.Ids.{same_row}
use kortex_memory.Memories.Queries.{ScopeFilter}
use kortex_memory.Service.Reads.{and-both, find-In}
use kortex_memory.Service.State.{Project}
use kortex_memory.Retrieval.Conflicts.{HybridSearchHit, hit_of, member}
use kortex_memory.Retrieval.Hybrid.{
  Floats, Postgres, Settings, is_eligible, trusted, scopes_ok, Scores, score_of, set_score, ids_of,
  add_ranking, add_rankings, floored, rrf_fuse, memory_ids, embedding_distance, vector_rows,
  text_rows, nonempty_rankings, pinned_ids, has_id, cons_hit, hits_of, best_ids, scored, fused,
  config_for_scopes, hybrid_search,
}

take-bound : {A : Type 0} (n : ℕ) (xs : List A) → length (take n xs) ≤ n
take-bound n xs = omega (arith, length-take n xs)

-- the row of a hit, and the filters that it passed
pub record IsRecalled (filtering : Bool) (p : Principal) (scopes : List ScopeFilter)
    (cap : Sensitivity) (t : Table) (h : HybridSearchHit) : Type 0 where
  pub row : Memory
  pub stands : In row t
  pub shows : h ≡ hit_of h.score row
  pub live : is_live row ≡ true
  pub approved : status_eq row.review_status ReviewStatus.approved ≡ true
  pub tenant : in_tenant p row ≡ true
  pub in_scopes : scopes_ok scopes row ≡ true
  pub under_cap : sensitivity_rank row.sensitivity ≤ sensitivity_rank cap

module _ (filtering : Bool) (p : Principal) (scopes : List ScopeFilter) (cap : Sensitivity)
    (t : Table) where
  -- a row that the filters let through
  abbrev Passes : Memory → Type 0
  Passes m = In m t × (is_eligible filtering p scopes cap m ≡ true)

  -- the id of such a row
  abbrev Known : ℕ → Type 0
  Known i = (m : Memory) × (Passes m × (m.id ≡ i))

  abbrev Recalled : HybridSearchHit → Type 0
  Recalled = IsRecalled filtering p scopes cap t

  recalled : (score : ℕ) (m : Memory) → Passes m → Recalled (hit_of score m)
  unfolding is_eligible sensitivities_up_to
  recalled score m (i, h) =
      let scoped = and-both _ (scopes_ok scopes m) h in
      let tenant = and-both _ (in_tenant p m) scoped.0 in
      let trust = and-both _ (trusted filtering cap m) tenant.0 in
      let approved = and-both _ (status_eq m.review_status ReviewStatus.approved) trust.0 in
      let capped =
        and-both (is_live m) (sensitivity_in m.sensitivity (sensitivities_up_to cap)) approved.0 in
      record {
        row = m;
        stands = i;
        shows = refl;
        live = capped.0;
        approved = approved.1;
        tenant = tenant.1;
        in_scopes = scoped.1;
        under_cap = (sensitivities_up_to_iff cap m.sensitivity).0 capped.1;
      }

  memory_ids-All : (ms : List Memory) → All Passes ms → All Known (memory_ids ms)
  memory_ids-All [] h = tt
  memory_ids-All (m ∷ ms) h = ((m, (h.0, refl)), memory_ids-All ms h.1)

  set_score-All :
      (i x : ℕ) (s : Scores) → Known i → All Known (ids_of s) → All Known (ids_of (set_score i x s))
  set_score-All i x [] k h = (k, tt)
  set_score-All i x ((j, y) ∷ s) k h = elim (Bool-cases (j == i)) [
    | inl hit ↦ rw (hit) h
    | inr miss ↦ rw (miss) (h.0, set_score-All i x s k h.1)
  ]

  module _ (floats : Floats) where
    add_ranking-All :
        (k rank : ℕ) (ids : List ℕ) (s : Scores)
        → All Known ids
        → All Known (ids_of s)
        → All Known (ids_of (add_ranking floats k rank ids s))
    unfolding add_ranking
    add_ranking-All k rank [] s h g = g
    add_ranking-All k rank (i ∷ ids) s h g =
        add_ranking-All k (rank + 1) ids (set_score i _ s) h.1 (set_score-All i _ s h.0 g)

    add_rankings-All :
        (k : ℕ) (rs : List (List ℕ)) (s : Scores)
        → All (All Known) rs
        → All Known (ids_of s)
        → All Known (ids_of (add_rankings floats k rs s))
    unfolding add_rankings
    add_rankings-All k [] s h g = g
    add_rankings-All k (r ∷ rs) s h g =
        add_rankings-All k rs (add_ranking floats k 1 r s) h.1 (add_ranking-All k 1 r s h.0 g)

    floored-All :
        (floor : ℕ) (pinned : List ℕ) (s : Scores)
        → All Known (ids_of s)
        → All Known (ids_of (map (floored floats floor pinned) s))
    floored-All floor pinned [] h = tt
    floored-All floor pinned ((i, x) ∷ s) h = (h.0, floored-All floor pinned s h.1)

    rrf_fuse-All :
        (rs : List (List ℕ)) (k : ℕ) (pinned : List ℕ)
        → All (All Known) rs
        → All Known (ids_of (rrf_fuse floats rs k pinned))
    unfolding rrf_fuse
    rrf_fuse-All rs k pinned h =
        floored-All floats.one pinned (add_rankings floats k rs []) (add_rankings-All k rs [] h tt)

module _ (floats : Floats) (db : Postgres) (settings : Settings) (p : Principal)
    (scopes : List ScopeFilter) (cap : Sensitivity) (t : Table) (ordered : IsOrdered 0 t) where
  abbrev Fit : Memory → Type 0
  Fit = Passes settings.trust_filtering p scopes cap t

  abbrev FitId : ℕ → Type 0
  FitId = Known settings.trust_filtering p scopes cap t

  abbrev Hit : HybridSearchHit → Type 0
  Hit = IsRecalled settings.trust_filtering p scopes cap t

  found-Hit :
      (scores : Scores) (rows : Table) (i : ℕ) (o : Option Memory) (hits : List HybridSearchHit)
      → All (λ r. In r t) rows
      → find (has_id floats db settings p i) rows ≡ o
      → FitId i
      → All Hit hits
      → All Hit (cons_hit floats db settings p scores o hits)
  found-Hit scores rows i none hits within e k h = h
  found-Hit scores rows i (some r) hits within e k h =
      let there = find-In (has_id floats db settings p i) rows r e in
      let here : In r t = All-In (λ x. In x t) rows r within there.0 in
      let m : Memory = k.0 in
      let id : r.id ≡ i = ground (arith, there.1) in
      let same : m ≡ r = same_row 0 t m r ordered k.1.0.0 here (k.1.1 ∙ sym id) in
      (recalled settings.trust_filtering p scopes cap t _ r (subst Fit same k.1.0), h)

  hits_of-All :
      (scores : Scores) (rows : Table) (ids : List ℕ)
      → All (λ r. In r t) rows
      → All FitId ids
      → All Hit (hits_of floats db settings p scores rows ids)
  unfolding hits_of
  hits_of-All scores rows [] within h = tt
  hits_of-All scores rows (i ∷ ids) within h =
      found-Hit scores rows i _ _ within refl h.0 (hits_of-All scores rows ids within h.1)

  scored-All :
      (scores : Scores) (limit : ℕ)
      → All FitId (ids_of scores)
      → All Hit (scored floats db settings p scores limit t)
  scored-All scores limit h =
      let best : List ℕ = best_ids floats db settings p scores in
      let test : Memory → Bool = λ m. member m.id (take (max (limit * 2) limit) best) in
      let hits : List HybridSearchHit = hits_of floats db settings p scores (keep test t) best in
      take-All Hit limit (sort_desc (λ (x : HybridSearchHit). x.score) hits) (
        sort_desc-All (λ (x : HybridSearchHit). x.score) Hit hits
          (hits_of-All scores (keep test t) best
            (All-map (keep test t) (λ m k. k.0) (keep-All test t))
            (sort_desc-All (λ i. score_of floats.nought i scores) FitId (ids_of scores) h)))

  rankings-All :
      (vs ws : List ℕ)
      → All FitId vs
      → All FitId ws
      → All (All FitId) (nonempty_rankings floats db settings p vs ws)
  rankings-All [] [] h k = tt
  rankings-All [] (j ∷ js) h k = (k, tt)
  rankings-All (i ∷ is) [] h k = (h, tt)
  rankings-All (i ∷ is) (j ∷ js) h k = (h, (k, tt))

  fused-All :
      (vs ws : List ℕ) (limit : ℕ)
      → All FitId vs
      → All FitId ws
      → All Hit (fused floats db settings p vs ws limit t)
  fused-All vs ws limit h k = scored-All _ limit (
      rrf_fuse-All settings.trust_filtering p scopes cap t floats
        (nonempty_rankings floats db settings p vs ws) settings.rrf_k
        (pinned_ids floats db settings p (vs ++ ws) t) (rankings-All vs ws h k))

  second_test :
      (f : Memory → Bool)
      → All Fit (keep (λ m. f m && is_eligible settings.trust_filtering p scopes cap m) t)
  second_test f =
      let g : Memory → Bool = λ m. f m && is_eligible settings.trust_filtering p scopes cap m in
      All-map (keep g t) (λ m k. (k.0, (and-both (f m) _ k.1).1)) (keep-All g t)

  vector_rows-All : (o : Option Vector) → All Fit (vector_rows floats db settings p o scopes cap t)
  vector_rows-All none = tt
  vector_rows-All (some q) =
      take-All Fit settings.top_k_vector _ (
        sort_asc-All (embedding_distance db q) Fit _ (second_test (λ m. not (is_none m.embedding))))

  text_rows-All :
      (config : String) (q : Text) → All Fit (text_rows floats db settings p config q scopes cap t)
  text_rows-All config q =
      take-All Fit settings.top_k_bm25 _
        (sort_desc-All (db.rank config q) Fit _ (second_test (λ m. db.matches config q m)))

  -- Whatever the query, its vector and what Postgres computes: each hit of a hybrid search shows a row of
  -- the table that is not deleted, has passed review, belongs to the caller's org (a superuser searches
  -- every org), lies in one of the scopes asked for, if any, and has at most the sensitivity asked for;
  -- and there are at most `limit` hits. The ids of the memories grow along the table.
  pub hybrid_search-IsRecalled :
      (query : Text) (vector : Option Vector) (limit : ℕ) (projects : List Project)
      → All
          (IsRecalled settings.trust_filtering p scopes cap t)
          (hybrid_search floats db settings p query vector scopes cap limit projects t)
        × (length (hybrid_search floats db settings p query vector scopes cap limit projects t)
            ≤ limit)
  unfolding hybrid_search
  hybrid_search-IsRecalled query vector limit projects =
      let config : String = config_for_scopes p projects scopes in
      let vs : List Memory = vector_rows floats db settings p vector scopes cap t in
      let ws : List Memory = text_rows floats db settings p config query scopes cap t in
      let known = memory_ids-All settings.trust_filtering p scopes cap t in
      (
        fused-All (memory_ids vs) (memory_ids ws) limit (known vs (vector_rows-All vector))
            (known ws (text_rows-All config query)),
        take-bound limit _,
      )
