-- ===== src/Retrieval/Reranking.antt =====
-- packages/kortex-core/src/kortex_core/retrieval/reranker_pipeline.py. The model that scores, the
-- arithmetic that blends a score with the prior one, and the order in which Python lists a set are
-- parameters. `none` is the error of a `zip` of lists that differ in length.
pub mod Laws
use kortex_memory.Prelude.{
  ℕ, zero, suc, min, max, Option, none, some, List, [], ◌∷◌, ◌++◌, Text, map, sort_desc,
}
use kortex_memory.Retrieval.Conflicts.{HybridSearchHit}
use kortex_memory.Retrieval.Packing.{BudgetItem, TokenBudget, fit}
use kortex_memory.Retrieval.Loop.{Hits}

pub record RerankedHit : Type 0 where
  pub hit : HybridSearchHit
  pub rerank_score : ℕ
  pub final_score : ℕ

pub record RerankCandidate : Type 0 where
  pub id : ℕ
  pub text : Text
  pub prior_score : ℕ

-- the smallest and the largest of the scores of a page
pub record Range : Type 0 where
  pub lowest : ℕ
  pub highest : ℕ

-- `score` of the reranker, the blend of a score in its range with a prior one in its range, and
-- `list(set)`
pub record Reranker : Type 0 where
  pub score : Text → List RerankCandidate → List ℕ
  pub blended : ℕ → Range → ℕ → Range → ℕ
  pub listed : List ℕ → List ℕ

abbrev pub text_of_hit : HybridSearchHit → Text
text_of_hit h = h.title ++ 10 ∷ h.body

abbrev candidate_of : HybridSearchHit → RerankCandidate
candidate_of h = record { id = h.memory_id; text = text_of_hit h; prior_score = h.score }

abbrev widen : ℕ → Range → Range
widen n r = record { lowest = min n r.lowest; highest = max n r.highest }

abbrev range_from : ℕ → List ℕ → Range
range_from n [] = record { lowest = n; highest = n }
range_from n (m ∷ ms) = widen n (range_from m ms)

abbrev pub range_of : List ℕ → Range
range_of [] = record { lowest = 0; highest = 0 }
range_of (n ∷ ns) = range_from n ns

abbrev cons_some {ℓ} : {A : Type ℓ} → A → Option (List A) → Option (List A)
cons_some x none = none
cons_some x (some xs) = some (x ∷ xs)

-- the items to pack, numbered
abbrev pub items_from : ℕ → List RerankedHit → List BudgetItem
items_from i [] = []
items_from i (r ∷ rs) =
    record { id = i; text = text_of_hit r.hit; score = r.final_score } ∷ items_from (suc i) rs

abbrev pub nth : ℕ → List RerankedHit → Option RerankedHit
nth i [] = none
nth zero (r ∷ rs) = some r
nth (suc i) (r ∷ rs) = nth i rs

abbrev final_of : Option RerankedHit → ℕ
final_of none = 0
final_of (some r) = r.final_score

abbrev cons_if : Option RerankedHit → List RerankedHit → List RerankedHit
cons_if none rs = rs
cons_if (some r) rs = r ∷ rs

abbrev pub picked : List RerankedHit → List ℕ → List RerankedHit
picked rs [] = []
picked rs (i ∷ is) = cons_if (nth i rs) (picked rs is)

module _ (k : Reranker) where
  -- `zip(hits, scores, strict=True)`
  abbrev pub reranked_from : Range → Range → Hits → List ℕ → Option (List RerankedHit)
  reranked_from r q [] [] = some []
  reranked_from r q [] (n ∷ ns) = none
  reranked_from r q (h ∷ hs) [] = none
  reranked_from r q (h ∷ hs) (n ∷ ns) =
      cons_some (record { hit = h; rerank_score = n; final_score = k.blended n r h.score q })
        (reranked_from r q hs ns)

  -- the items that fit, by their final score
  abbrev pub packed : TokenBudget → List RerankedHit → List RerankedHit × ℕ
  packed budget rs =
      let kept = fit budget (items_from 0 rs) in
      let ids = k.listed (map (λ (x : BudgetItem). x.id) kept.0) in
      (picked rs (sort_desc (λ i. final_of (nth i rs)) ids), kept.1)

  abbrev pub pack_sorted : TokenBudget → Option (List RerankedHit) → Option (List RerankedHit × ℕ)
  pack_sorted budget none = none
  pack_sorted budget (some rs) =
      some (packed budget (sort_desc (λ (r : RerankedHit). r.final_score) rs))

  unfoldable pub rerank_and_pack : Text → Hits → TokenBudget → Option (List RerankedHit × ℕ)
  unfolding fit sort_desc
  rerank_and_pack query [] budget = some ([], 0)
  rerank_and_pack query (h ∷ hs) budget =
      let scores = k.score query (map candidate_of (h ∷ hs)) in
      pack_sorted budget (
        reranked_from (range_of scores) (range_of (map (λ (x : HybridSearchHit). x.score) (h ∷ hs)))
          (h ∷ hs) scores)
