-- ===== src/Retrieval/Recall/Packing.antt =====
-- What the reranking, the packing and the notes of a recall keep of a page.
use kortex_memory.Prelude.{
  ℕ, ◌≡◌, refl, ap, Bool, true, false, not, Option, none, some, List, [], ◌∷◌, keep, All, In,
  append-All, if◌then◌else◌, Bool-cases, inl, inr,
}
use kortex_memory.Access.{Principal}
use kortex_memory.Memories.{Memory, Table, is_live, in_tenant}
use kortex_memory.Memories.Links.{conflict_links}
use kortex_memory.Service.State.{State}
use kortex_memory.Retrieval.Conflicts.{
  HybridSearchHit, ConflictNote, hit_of, annotate_conflicts, demote_superseded, is_stale,
  present_in,
}
use kortex_memory.Retrieval.Loop.{World, Hits}
use kortex_memory.Retrieval.Reranking.{RerankedHit}
use kortex_memory.Retrieval.Reranking.Laws.{rerank_and_pack-All}
use kortex_memory.Retrieval.Searching.Laws.{noted-All}
use kortex_memory.Retrieval.Recall.Bundle.{RecallRequest, Models, with_hits, hits_in, reranked_id}
use kortex_memory.Retrieval.Recall.{annotated, checked, rerank_pack}

-- the live row of the tenant that a hit shows, whatever notes it carries
pub record IsGrounded (p : Principal) (t : Table) (h : HybridSearchHit) : Type 0 where
  pub row : Memory
  pub notes : List ConflictNote
  pub stands : In row t
  pub shows : h ≡ record (hit_of h.score row) { conflicts = notes }
  pub live : is_live row ≡ true
  pub tenant : in_tenant p row ≡ true

module _ (w : World) (m : Models) (p : Principal) (s : State) where
  abbrev P : HybridSearchHit → Type 0
  P = IsGrounded p s.memories

  abbrev Q : RerankedHit → Type 0
  Q r = P r.hit

  noted : (h : HybridSearchHit) (ns : List ConflictNote) → P h → P (record h { conflicts = ns })
  noted h ns k = record {
    row = k.row;
    notes = ns;
    stands = k.stands;
    shows = ap (λ (x : HybridSearchHit). record x { conflicts = ns }) k.shows;
    live = k.live;
    tenant = k.tenant;
  }

  hits_in-All : (rs : List RerankedHit) → All Q rs → All P (hits_in rs)
  hits_in-All [] h = tt
  hits_in-All (r ∷ rs) h = (h.0, hits_in-All rs h.1)

  with_hits-All :
      (rs : List RerankedHit) (hs : Hits) → All Q rs → All P hs → All Q (with_hits rs hs)
  with_hits-All [] hs h k = tt
  with_hits-All (r ∷ rs) [] h k = h
  with_hits-All (r ∷ rs) (x ∷ xs) h k = (k.0, with_hits-All rs xs h.1 k.1)

  kept-All : (f : RerankedHit → Bool) (rs : List RerankedHit) → All Q rs → All Q (keep f rs)
  kept-All f [] h = tt
  kept-All f (r ∷ rs) h = elim (Bool-cases (f r)) [
    | inl hit ↦ rw (hit) (h.0, kept-All f rs h.1)
    | inr miss ↦ rw (miss) (kept-All f rs h.1)
  ]

  demoted-All :
      (rs : List RerankedHit) (ids : List ℕ)
      → All Q rs
      → All Q (demote_superseded rs ids reranked_id)
  unfolding demote_superseded
  demoted-All rs [] h = h
  demoted-All rs (i ∷ ids) h =
      append-All Q (keep (λ x. not (is_stale (i ∷ ids) reranked_id x)) rs)
        (keep (is_stale (i ∷ ids) reranked_id) rs) (kept-All _ rs h) (kept-All _ rs h)

  annotated-All : (rs : List RerankedHit) → All Q rs → All Q (annotated w m p s rs)
  unfolding annotate_conflicts
  annotated-All rs h = demoted-All _ _ (
      with_hits-All rs _ h (
        noted-All P noted p s.memories (hits_in rs)
          (conflict_links (present_in (hits_in rs)) s.links) (hits_in-All rs h)))

  -- a page that was packed, if it was
  abbrev pub Kept : Option (List RerankedHit) → Type 0
  Kept none = Unit
  Kept (some rs) = All Q rs

  checked-Kept :
      (o : Option (List RerankedHit × ℕ))
      → ((r : List RerankedHit × ℕ) → o ≡ some r → All Q r.0)
      → Kept (checked w m p s o)
  checked-Kept none h = tt
  checked-Kept (some kept) h = noted_if w.settings.conflict_detection
    where
      noted_if : (b : Bool) → All Q (if b then annotated w m p s kept.0 else kept.0)
      noted_if true = annotated-All kept.0 (h kept refl)
      noted_if false = h kept refl

  pub rerank_pack-Kept :
      (r : RecallRequest) (hs : Hits) → All P hs → Kept (rerank_pack w m p s r hs)
  unfolding rerank_pack
  rerank_pack-Kept r [] h = tt
  rerank_pack-Kept r (x ∷ hs) h =
      checked-Kept _ (λ kept e. rerank_and_pack-All P m.reranker r.query (x ∷ hs) _ kept h e)
