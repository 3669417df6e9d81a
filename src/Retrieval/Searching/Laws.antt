-- ===== src/Retrieval/Searching/Laws.antt =====
-- What a search returns, and what it leaves of the table.
use kortex_memory.Prelude.{
  ℕ, ◌≡◌, ◌≤◌, refl, ◌∙◌, ap, Bool, true, false, not, List, [], ◌∷◌, keep, length, All, All-map, In,
  append-All, if◌then◌else◌, Bool-cases, inl, inr, arith,
}
use kortex_memory.Access.{Principal, sensitivity_rank}
use kortex_memory.Types.{ReviewStatus, status_eq}
use kortex_memory.Memories.{Memory, Table, is_live, in_tenant}
use kortex_memory.Memories.Rows.{IsOrdered}
use kortex_memory.Memories.Links.{Links, conflict_links}
use kortex_memory.Service.State.{State}
use kortex_memory.Retrieval.Conflicts.{
  HybridSearchHit, ConflictNote, hit_of, annotate_conflicts, demote_superseded, with_notes,
  notes_for, noted, Notes, present_in, on_links, is_stale,
}
use kortex_memory.Retrieval.Conflicts.Laws.{demote_superseded_lem}
use kortex_memory.Retrieval.Hybrid.Laws.{IsRecalled, hybrid_search-IsRecalled}
use kortex_memory.Retrieval.Loop.{World, Hits}
use kortex_memory.Retrieval.Searching.{
  SearchRequest, query_vector, put_in_order, search_memories, hit_id,
}

-- what a hit says of the row that it shows, its notes apart
pub record IsShowing (p : Principal) (t : Table) (h : HybridSearchHit) : Type 0 where
  pub row : Memory
  pub notes : List ConflictNote
  pub stands : In row t
  pub shows : h ≡ record (hit_of h.score row) { conflicts = notes }
  pub live : is_live row ≡ true
  pub approved : status_eq row.review_status ReviewStatus.approved ≡ true
  pub tenant : in_tenant p row ≡ true
  pub under_cap : sensitivity_rank row.sensitivity ≤ sensitivity_rank p.max_sensitivity

module _ (P : HybridSearchHit → Type 0)
    (kept : (h : HybridSearchHit) (ns : List ConflictNote)
      → P h
      → P (record h { conflicts = ns })) where
  with_notes-All : (n : Notes) (hs : Hits) → All P hs → All P (with_notes n hs)
  with_notes-All n [] h = tt
  with_notes-All n (x ∷ xs) h =
      (kept x (notes_for x.memory_id n.notes) h.0, with_notes-All n xs h.1)

  pub noted-All :
      (p : Principal) (t : Table) (hs : Hits) (ls : Links) → All P hs → All P (noted p t hs ls).0
  noted-All p t hs [] h = h
  noted-All p t hs (l ∷ ls) h = with_notes-All (on_links p t (present_in hs) (l ∷ ls)) hs h

  keep-kept : (f : HybridSearchHit → Bool) (hs : Hits) → All P hs → All P (keep f hs)
  keep-kept f [] h = tt
  keep-kept f (x ∷ xs) h = elim (Bool-cases (f x)) [
    | inl hit ↦ rw (hit) (h.0, keep-kept f xs h.1)
    | inr miss ↦ rw (miss) (keep-kept f xs h.1)
  ]

  demote-All : (hs : Hits) (ids : List ℕ) → All P hs → All P (demote_superseded hs ids hit_id)
  unfolding demote_superseded
  demote-All hs [] h = h
  demote-All hs (i ∷ ids) h =
      append-All P (keep (λ x. not (is_stale (i ∷ ids) hit_id x)) hs)
        (keep (is_stale (i ∷ ids) hit_id) hs) (keep-kept _ hs h) (keep-kept _ hs h)

  pub put_in_order-All :
      (p : Principal) (s : State) (hs : Hits) → All P hs → All P (put_in_order p s hs)
  unfolding annotate_conflicts
  put_in_order-All p s hs h =
      demote-All (annotate_conflicts p s.links s.memories hs).0
        (annotate_conflicts p s.links s.memories hs).1
        (noted-All p s.memories hs (conflict_links (present_in hs) s.links) h)

length-with_notes : (n : Notes) (hs : Hits) → length (with_notes n hs) ≡ length hs
length-with_notes n [] = refl
length-with_notes n (x ∷ xs) = omega (arith, length-with_notes n xs)

length-noted :
    (p : Principal) (t : Table) (hs : Hits) (ls : Links) → length (noted p t hs ls).0 ≡ length hs
length-noted p t hs [] = refl
length-noted p t hs (l ∷ ls) = length-with_notes (on_links p t (present_in hs) (l ∷ ls)) hs

length-put_in_order :
    (p : Principal) (s : State) (hs : Hits) → length (put_in_order p s hs) ≡ length hs
unfolding annotate_conflicts
length-put_in_order p s hs =
    (demote_superseded_lem (annotate_conflicts p s.links s.memories hs).0
      (annotate_conflicts p s.links s.memories hs).1 hit_id).0
    ∙ length-noted p s.memories hs (conflict_links (present_in hs) s.links)

module _ (w : World) (p : Principal) (r : SearchRequest) (s : State)
    (ordered : IsOrdered 0 s.memories) where
  showing :
      (h : HybridSearchHit)
      → IsRecalled w.settings.trust_filtering p r.scopes p.max_sensitivity s.memories h
      → IsShowing p s.memories h
  showing h k = record {
    row = k.row;
    notes = [];
    stands = k.stands;
    shows = k.shows;
    live = k.live;
    approved = k.approved;
    tenant = k.tenant;
    under_cap = k.under_cap;
  }

  noted-IsShowing :
      (h : HybridSearchHit) (ns : List ConflictNote)
      → IsShowing p s.memories h
      → IsShowing p s.memories (record h { conflicts = ns })
  noted-IsShowing h ns k = record {
    row = k.row;
    notes = ns;
    stands = k.stands;
    shows = ap (λ (x : HybridSearchHit). record x { conflicts = ns }) k.shows;
    live = k.live;
    approved = k.approved;
    tenant = k.tenant;
    under_cap = k.under_cap;
  }

  chosen :
      (detect : Bool) (hits : Hits)
      → All (IsShowing p s.memories) hits
      → length hits ≤ r.limit
      → All (IsShowing p s.memories) (if detect then put_in_order p s hits else hits)
        × (length (if detect then put_in_order p s hits else hits) ≤ r.limit)
  chosen true hits h n = (
    put_in_order-All (IsShowing p s.memories) noted-IsShowing p s hits h,
    omega (arith, length-put_in_order p s hits, n),
  )
  chosen false hits h n = (h, n)

  -- Whatever the embedder and Postgres answer: each hit that a search returns shows a row of the table
  -- with the text that it has there, which is not deleted, has passed review, belongs to the caller's
  -- org (a superuser searches every org) and has at most the caller's highest sensitivity; and there are
  -- at most `limit` hits. The ids of the memories grow along the table.
  pub search_memories-IsShowing :
      All (IsShowing p s.memories) (search_memories w p r s).0.hits
      × (length (search_memories w p r s).0.hits ≤ r.limit)
  unfolding search_memories
  search_memories-IsShowing =
      let found =
        hybrid_search-IsRecalled w.floats w.db w.settings p r.scopes p.max_sensitivity s.memories
          ordered r.query (query_vector w r) r.limit s.projects in
      chosen w.settings.conflict_detection _ (All-map _ showing found.0) found.1
