-- ===== src/Retrieval/Similar/Laws.antt =====
-- The memories that a reviewer is shown beside a pending one.
use kortex_memory.Prelude.{
  ℕ, suc, ◌≡◌, refl, sym, ◌∙◌, ap, subst, Bool, true, false, not, ◌&&◌, ◌||◌, Option, none, some,
  List, [], ◌∷◌, Text, map, keep, take, any, sort_asc, sort_asc-All, sort_desc-All, ◌==◌, ==_iff,
  leb, All, All-map, All-In, In, keep-All, take-All, Bool-cases, Option-cases, inl, inr,
}
use kortex_memory.Types.{Sensitivity, ReviewStatus, status_eq, kind_eq}
use kortex_memory.Access.{Principal}
use kortex_memory.Memories.{Memory, Table, Vector, find, is_none, is_live, in_tenant, in_scope}
use kortex_memory.Memories.Ids.{same_row}
use kortex_memory.Memories.Rows.{IsOrdered}
use kortex_memory.Memories.Queries.{ScopeFilter, list_by_ids}
use kortex_memory.Service.Reads.{and-both, find-In}
use kortex_memory.Service.State.{Project}
use kortex_memory.Retrieval.Conflicts.{HybridSearchHit}
use kortex_memory.Retrieval.Hybrid.{Floats, Postgres, Settings, embedding_distance}
use kortex_memory.Retrieval.Hybrid.Laws.{IsRecalled, hybrid_search-IsRecalled}
use kortex_memory.Retrieval.Similar.{
  could_conflict, paired, scored_id, first_words, scored, candidates_near, list_conflict_candidates,
  scope_of, by_words, similar_to, find_similar_for_review,
}

-- an approved live row of the scope of `memory`, other than itself, that the caller may look up
pub record IsSimilar (p : Principal) (t : Table) (memory m : Memory) : Type 0 where
  pub stands : In m t
  pub live : is_live m ≡ true
  pub approved : status_eq m.review_status ReviewStatus.approved ≡ true
  pub scoped : in_scope memory.scope_type memory.scope_id m ≡ true
  pub another : (m.id == memory.id) ≡ false
  pub tenant : in_tenant p m ≡ true

any-among :
    (Q : ℕ → Type 0) (m : Memory) (ids : List ℕ)
    → any (λ i. m.id == i) ids ≡ true
    → All Q ids
    → Q m.id
any-among Q m [] h k = absurd cc h
any-among Q m (i ∷ ids) h k = elim (Bool-cases (m.id == i)) [
  | inl hit ↦ subst Q (sym ((==_iff m.id i).0 hit)) k.0
  | inr miss ↦ any-among Q m ids (sym (rw (miss) refl) ∙ h) k.1
]

not-false : (b : Bool) → not b ≡ true → b ≡ false
not-false true h = absurd cc h
not-false false h = refl

or_neutral : (b : Bool) → (b || false) ≡ true → b ≡ true
or_neutral true h = refl
or_neutral false h = absurd cc h

module _ (p : Principal) (t : Table) (ordered : IsOrdered 0 t) (memory : Memory) where
  -- what the queries ask of a row
  abbrev Suits : Memory → Type 0
  Suits m =
      (is_live m ≡ true)
      × (status_eq m.review_status ReviewStatus.approved ≡ true)
      × (in_scope memory.scope_type memory.scope_id m ≡ true)
      × ((m.id == memory.id) ≡ false)

  -- the id of such a row of the table
  abbrev Known : ℕ → Type 0
  Known i = (r : Memory) × (In r t × ((r.id ≡ i) × Suits r))

  list_by_ids-All :
      (ids : List ℕ) → All Known ids → All (IsSimilar p t memory) (list_by_ids p ids t)
  unfolding list_by_ids
  list_by_ids-All ids h =
      let test : Memory → Bool = λ m. in_tenant p m && any (λ i. m.id == i) ids in
      All-map (keep test t)
        (λ m k.
          let parts = and-both (in_tenant p m) _ k.1 in
          let known : Known m.id = any-among Known m ids parts.1 h in
          let same : m ≡ known.0 = same_row 0 t m known.0 ordered k.0 known.1.0 (sym known.1.1.0) in
          let suits : Suits m = subst Suits (sym same) known.1.1.1 in
          record {
            stands = k.0;
            live = suits.0;
            approved = suits.1;
            scoped = suits.2;
            another = suits.3;
            tenant = parts.0;
          })
        (keep-All test t)

  could_conflict-Suits : (m : Memory) → could_conflict memory m ≡ true → Suits m
  could_conflict-Suits m h =
      let other = and-both _ (not (m.id == memory.id)) h in
      let kind = and-both _ (kind_eq m.kind memory.kind) other.0 in
      let scope = and-both _ (in_scope memory.scope_type memory.scope_id m) kind.0 in
      let org = and-both _ (m.org_id == memory.org_id) scope.0 in
      let embedded = and-both _ (not (is_none m.embedding)) org.0 in
      let live = and-both (is_live m) _ embedded.0 in (live.0, live.1, scope.1, not-false _ other.1)

  module _ (g : Memory → ℕ) (f : ℕ × ℕ → Bool) where
    scored-Known :
        (rows : Table)
        → All (λ m. In m t × (could_conflict memory m ≡ true)) rows
        → All Known (map scored_id (keep f (map (λ (m : Memory). (m.id, g m)) rows)))
    scored-Known [] h = tt
    scored-Known (m ∷ rows) h = elim (Bool-cases (f (m.id, g m))) [
      | inl near ↦
          rw (near) ((m, (h.0.0, (refl, could_conflict-Suits m h.0.1))), scored-Known rows h.1)
      | inr far ↦ rw (far) (scored-Known rows h.1)
    ]

  paired-All :
      (loaded : Table) (near : List (ℕ × ℕ))
      → All (IsSimilar p t memory) loaded
      → All (λ (x : Memory × ℕ). IsSimilar p t memory x.0) (paired loaded near)
  paired-All loaded [] h = tt
  paired-All loaded ((i, sim) ∷ near) h = elim (Option-cases (find (λ m. m.id == i) loaded)) [
    | inl lost ↦ rw (lost) (paired-All loaded near h)
    | inr found ↦
        let r = find-In (λ m. m.id == i) loaded found.0 found.1 in
        rw (found.1) (All-In (IsSimilar p t memory) loaded found.0 h r.0, paired-All loaded near h)
  ]

  pairs-rows :
      (xs : List (Memory × ℕ))
      → All (λ (x : Memory × ℕ). IsSimilar p t memory x.0) xs
      → All (IsSimilar p t memory) (map (λ (x : Memory × ℕ). x.0) xs)
  pairs-rows [] h = tt
  pairs-rows (x ∷ xs) h = (h.0, pairs-rows xs h.1)

  abbrev here : ScopeFilter
  here = record { scope_type = memory.scope_type; scope_id = memory.scope_id }

  module _ (filtering : Bool) (cap : Sensitivity) where
    recalled-Known :
        (hits : List HybridSearchHit)
        → All (IsRecalled filtering p (here ∷ []) cap t) hits
        → All Known
            (keep (λ i. not (i == memory.id)) (map (λ (h : HybridSearchHit). h.memory_id) hits))
    recalled-Known [] h = tt
    recalled-Known (x ∷ hits) h = elim (Bool-cases (x.memory_id == memory.id)) [
      | inl same ↦ rw (same) (recalled-Known hits h.1)
      | inr other ↦
          let row = h.0.row in
          let its : row.id ≡ x.memory_id =
            sym (ap (λ (y : HybridSearchHit). y.memory_id) h.0.shows) in
          let another : (row.id == memory.id) ≡ false = ap (λ i. i == memory.id) its ∙ other in
          rw (other) (
            (
              row,
              (h.0.stands, (its, (h.0.live, h.0.approved, or_neutral _ h.0.in_scopes, another))),
            ),
            recalled-Known hits h.1,
          )
    ]

module _ (floats : Floats) (db : Postgres) (settings : Settings) (similarity : ℕ → ℕ) (half : ℕ)
    (p : Principal) (projects : List Project) (t : Table) (ordered : IsOrdered 0 t)
    (memory : Memory) where
  abbrev Near : Memory × ℕ → Type 0
  Near x = IsSimilar p t memory x.0

  candidates_near-All :
      (o : Option Vector) (limit min_similarity : ℕ)
      → All Near (
          candidates_near floats db settings similarity half p projects t memory o limit
            min_similarity)
  candidates_near-All none limit min_similarity = tt
  candidates_near-All (some v) limit min_similarity =
      let near =
        scored floats db settings similarity half p projects t memory v limit min_similarity in
      let Fit : Memory → Type 0 = λ m. In m t × (could_conflict memory m ≡ true) in
      let rows : List Memory =
        take limit (sort_asc (embedding_distance db v) (keep (could_conflict memory) t)) in
      let fit : All Fit rows =
        take-All Fit limit _
          (sort_asc-All (embedding_distance db v) Fit _ (keep-All (could_conflict memory) t)) in
      sort_desc-All (λ (x : Memory × ℕ). x.1) Near _
        (paired-All p t ordered memory (list_by_ids p (map scored_id near) t) near (
          list_by_ids-All p t ordered memory (map scored_id near) (
            scored-Known p t ordered memory (λ m. similarity (embedding_distance db v m))
              (λ (x : ℕ × ℕ). leb min_similarity x.1) rows fit)))

  by_words-All :
      (limit : ℕ) (terms : Text)
      → All
          (IsSimilar p t memory)
          (by_words floats db settings similarity half p projects t memory limit terms)
  by_words-All limit [] = tt
  by_words-All limit (c ∷ cs) =
      let scope = scope_of floats db settings similarity half p projects t memory in
      let hits =
        hybrid_search-IsRecalled floats db settings p (scope ∷ []) Sensitivity.secret t ordered
          (c ∷ cs) none (suc limit) projects in
      list_by_ids-All p t ordered memory _ (
        take-All (Known p t ordered memory) limit _
          (recalled-Known p t ordered memory settings.trust_filtering Sensitivity.secret _ hits.0))

  similar_to-All :
      (o : Option Vector) (limit : ℕ)
      → All
          (IsSimilar p t memory)
          (similar_to floats db settings similarity half p projects t memory o limit)
  unfolding list_conflict_candidates
  similar_to-All none limit = by_words-All limit (first_words memory.body)
  similar_to-All (some v) limit =
      pairs-rows p t ordered memory _ (candidates_near-All memory.embedding limit half)

  -- Whatever Postgres computes of the vectors and the texts: each memory that a reviewer is shown beside
  -- `memory` is a row of the table that is not deleted, has passed review, lies in the scope of `memory`, is
  -- another one, and belongs to the caller's org (a superuser sees every org). The ids of the memories grow
  -- along the table.
  pub find_similar_for_review-IsSimilar :
      (limit : ℕ)
      → All
          (IsSimilar p t memory)
          (find_similar_for_review floats db settings similarity half p projects t memory limit)
  unfolding find_similar_for_review
  find_similar_for_review-IsSimilar limit = similar_to-All memory.embedding limit
