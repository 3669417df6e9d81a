-- ===== src/Retrieval/Reranking/Laws.antt =====
-- What the reranking of a page keeps.
use kortex_memory.Prelude.{
  ℕ, zero, suc, ◌≡◌, refl, subst, Option, none, some, List, [], ◌∷◌, Text, All, sort_desc,
  sort_desc-All,
}
use kortex_memory.Retrieval.Conflicts.{HybridSearchHit}
use kortex_memory.Retrieval.Packing.{TokenBudget}
use kortex_memory.Retrieval.Loop.{Hits}
use kortex_memory.Retrieval.Reranking.{
  RerankedHit, Reranker, Range, cons_some, reranked_from, nth, cons_if, picked, packed, pack_sorted,
  rerank_and_pack,
}

module _ (P : HybridSearchHit → Type 0) (k : Reranker) where
  abbrev Q : RerankedHit → Type 0
  Q r = P r.hit

  cons_some-All :
      (r : RerankedHit) (o : Option (List RerankedHit)) (rs : List RerankedHit)
      → Q r
      → ((xs : List RerankedHit) → o ≡ some xs → All Q xs)
      → cons_some r o ≡ some rs
      → All Q rs
  cons_some-All r none rs p h e = absurd cc e
  cons_some-All r (some xs) rs p h e =
      let same : r ∷ xs ≡ rs = cc e in subst (All Q) same (p, h xs refl)

  reranked_from-All :
      (r q : Range) (hs : Hits) (ns : List ℕ) (rs : List RerankedHit)
      → All P hs
      → reranked_from k r q hs ns ≡ some rs
      → All Q rs
  reranked_from-All r q [] [] rs h e = let same : [] ≡ rs = cc e in subst (All Q) same tt
  reranked_from-All r q [] (n ∷ ns) rs h e = absurd cc e
  reranked_from-All r q (x ∷ hs) [] rs h e = absurd cc e
  reranked_from-All r q (x ∷ hs) (n ∷ ns) rs h e =
      cons_some-All _ (reranked_from k r q hs ns) rs h.0
        (λ xs f. reranked_from-All r q hs ns xs h.1 f) e

  cons_nth-All :
      (i : ℕ) (rs xs : List RerankedHit) → All Q rs → All Q xs → All Q (cons_if (nth i rs) xs)
  cons_nth-All i [] xs h a = a
  cons_nth-All zero (r ∷ rs) xs h a = (h.0, a)
  cons_nth-All (suc i) (r ∷ rs) xs h a = cons_nth-All i rs xs h.1 a

  picked-All : (rs : List RerankedHit) (is : List ℕ) → All Q rs → All Q (picked rs is)
  picked-All rs [] h = tt
  picked-All rs (i ∷ is) h = cons_nth-All i rs (picked rs is) h (picked-All rs is h)

  pack_sorted-All :
      (budget : TokenBudget) (o : Option (List RerankedHit)) (r : List RerankedHit × ℕ)
      → ((rs : List RerankedHit) → o ≡ some rs → All Q rs)
      → pack_sorted k budget o ≡ some r
      → All Q r.0
  pack_sorted-All budget none r h e = absurd cc e
  pack_sorted-All budget (some rs) r h e =
      let sorted : List RerankedHit = sort_desc (λ (x : RerankedHit). x.final_score) rs in
      let same : packed k budget sorted ≡ r = cc e in
      subst (λ (x : List RerankedHit × ℕ). All Q x.0) same
        (picked-All sorted _ (sort_desc-All (λ (x : RerankedHit). x.final_score) Q rs (h rs refl)))

  -- what holds of every hit of a page holds of those that are kept
  pub rerank_and_pack-All :
      (query : Text) (hs : Hits) (budget : TokenBudget) (r : List RerankedHit × ℕ)
      → All P hs
      → rerank_and_pack k query hs budget ≡ some r
      → All Q r.0
  unfolding rerank_and_pack
  rerank_and_pack-All query [] budget r h e =
      let same : ([], 0) ≡ r = cc e in subst (λ (x : List RerankedHit × ℕ). All Q x.0) same tt
  rerank_and_pack-All query (x ∷ hs) budget r h e =
      pack_sorted-All budget _ r (λ rs f. reranked_from-All _ _ (x ∷ hs) _ rs h f) e
