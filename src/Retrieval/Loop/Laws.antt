-- ===== src/Retrieval/Loop/Laws.antt =====
-- The candidates of the agent loop.
use kortex_memory.Prelude.{
  ℕ, zero, suc, ◌≡◌, refl, sym, subst, Bool, true, false, Option, none, some, List, [], ◌∷◌, Text,
  ◌==◌, All-map, In, append-All, if◌then◌else◌, Bool-cases, inl, inr,
}
use kortex_memory.Types.{MemoryLinkType}
use kortex_memory.Access.{Principal}
use kortex_memory.Memories.{Memory, MemoryLink, Table, Vector, is_live, in_tenant}
use kortex_memory.Memories.Links.{Links, neighbors}
use kortex_memory.Memories.Rows.{IsOrdered}
use kortex_memory.Memories.Queries.{ScopeFilter, get_by_id, by_id}
use kortex_memory.Service.Reads.{and-both, find-In}
use kortex_memory.Service.State.{State}
use kortex_memory.Retrieval.Conflicts.{HybridSearchHit, hit_of}
use kortex_memory.Retrieval.Hybrid.Laws.{IsRecalled, hybrid_search-IsRecalled}
use kortex_memory.Retrieval.Budget.{RecallBudget}
use kortex_memory.Retrieval.Plan.{
  PlanStep, semantic_search, keyword_search, link_expand, time_filter, stop_and_answer, QueryPlan,
}
use kortex_memory.Retrieval.Loop.{
  Stop, Hits, Progress, at_start, is_seen, Expansion, World, admit, other_end, follow, follow_all,
  visit_frontier, from_frontier, expand, expand_links, search, search_with, perform, counted,
  ending, unless_blocked, run_steps, run,
}
use kortex_memory.Retrieval.Loop.Collecting.{IsSound, append-IsDistinct, ingest-IsSound, same_id}

-- the live row of the tenant that a hit shows
pub record IsCandidate (p : Principal) (t : Table) (h : HybridSearchHit) : Type 0 where
  pub row : Memory
  pub stands : In row t
  pub shows : h ≡ hit_of h.score row
  pub live : is_live row ≡ true
  pub tenant : in_tenant p row ≡ true

module _ (w : World) (p : Principal) (scopes : List ScopeFilter) (budget : Option RecallBudget)
    (s : State) where
  abbrev Sound : Hits → Type 0
  Sound = IsSound (IsCandidate p s.memories)

  admit-Sound :
      (i : ℕ) (o : Option Memory) (e : Expansion)
      → get_by_id p i s.memories ≡ o
      → is_seen i e.seen ≡ false
      → Sound e.seen
      → Sound (admit w p scopes budget s o e).seen
  unfolding get_by_id
  admit-Sound i none e g new h = h
  admit-Sound i (some m) e g new h =
      let r = find-In (by_id p i) s.memories m g in
      let parts = and-both _ (is_live m) r.1 in
      let own = and-both (in_tenant p m) (m.id == i) parts.0 in
      record {
        all =
            append-All (IsCandidate p s.memories) e.seen (hit_of w.floats.nought m ∷ []) h.all
              (record { row = m; stands = r.0; shows = refl; live = parts.1; tenant = own.0 }, tt);
        distinct =
            append-IsDistinct e.seen (hit_of w.floats.nought m) h.distinct
              (subst (λ j. is_seen j e.seen ≡ false) (sym (same_id m.id i own.1)) new);
      }

  follow-Sound :
      (i : ℕ) (l : MemoryLink) (e : Expansion)
      → Sound e.seen
      → Sound (follow w p scopes budget s i l e).seen
  follow-Sound i l e h = elim (Bool-cases (is_seen (other_end w p scopes budget s i l) e.seen)) [
    | inl seen ↦ rw (seen) h
    | inr new ↦ rw (new) (admit-Sound (other_end w p scopes budget s i l) _ e refl new h)
  ]

  follow_all-Sound :
      (i : ℕ) (ls : Links) (e : Expansion)
      → Sound e.seen
      → Sound (follow_all w p scopes budget s i ls e).seen
  unfolding follow_all
  follow_all-Sound i [] e h = h
  follow_all-Sound i (l ∷ ls) e h =
      follow_all-Sound i ls (follow w p scopes budget s i l e) (follow-Sound i l e h)

  visit_frontier-Sound :
      (types : List MemoryLinkType) (is : List ℕ) (e : Expansion)
      → Sound e.seen
      → Sound (visit_frontier w p scopes budget s types is e).seen
  unfolding visit_frontier
  visit_frontier-Sound types [] e h = h
  visit_frontier-Sound types (i ∷ is) e h =
      visit_frontier-Sound types is _ (follow_all-Sound i (neighbors i (some types) s.links) e h)

  either-Sound : (b : Bool) (x y : Hits × ℕ) → Sound x.0 → Sound y.0 → Sound (if b then x else y).0
  either-Sound true x y h k = h
  either-Sound false x y h k = k

  expand-Sound :
      (depth : ℕ) (types : List MemoryLinkType) (frontier : List ℕ) (seen : Hits) (added : ℕ)
      → Sound seen
      → Sound (expand w p scopes budget s depth types frontier seen added).0
  unfolding expand
  expand-Sound zero types frontier seen added h = h
  expand-Sound (suc depth) types frontier seen added h =
      let e =
        visit_frontier w p scopes budget s types frontier
          (from_frontier w p scopes budget s seen added) in
      let k : Sound e.seen = visit_frontier-Sound types frontier _ h in
      either-Sound _ (e.seen, e.added)
        (expand w p scopes budget s depth types (w.listed e.next) e.seen e.added) k
        (expand-Sound depth types (w.listed e.next) e.seen e.added k)

  expand_links-Sound :
      (types : List MemoryLinkType) (depth : ℕ) (seen : Hits)
      → Sound seen
      → Sound (expand_links w p scopes budget s types depth seen).0
  expand_links-Sound types depth [] h = h
  expand_links-Sound types depth (x ∷ xs) h = expand-Sound depth types _ (x ∷ xs) 0 h

  module _ (ordered : IsOrdered 0 s.memories) where
    search-Sound :
        (step : PlanStep) (query : Text) (top_k : ℕ) (v : Option Vector) (g : Progress)
        → Sound g.seen
        → Sound (search w p scopes budget s step query top_k v g).seen
    search-Sound step query top_k v g h =
        let r =
          hybrid_search-IsRecalled w.floats w.db w.settings p scopes p.max_sensitivity s.memories
            ordered query v top_k s.projects in
        ingest-IsSound (IsCandidate p s.memories) _ g.seen 0
          (All-map _
            (λ (x : HybridSearchHit)
                (k : IsRecalled w.settings.trust_filtering p scopes p.max_sensitivity s.memories x).
              record {
                row = k.row;
                stands = k.stands;
                shows = k.shows;
                live = k.live;
                tenant = k.tenant;
              })
            r.0)
          h

    search_with-Sound :
        (step : PlanStep) (query : Text) (top_k : ℕ) (v : Option Vector) (g : Progress)
        → Sound g.seen
        → Sound (search_with w p scopes budget s step query top_k v g).seen
    search_with-Sound step query top_k none g h =
        search-Sound step query top_k none (record g { embedder = false }) h
    search_with-Sound step query top_k (some v) g h = search-Sound step query top_k (some v) g h

    semantic-Sound :
        (live : Bool) (step : PlanStep) (query : Text) (top_k : ℕ) (v : Option Vector)
        (g : Progress)
        → Sound g.seen
        → Sound
            (if live
              then search_with w p scopes budget s step query top_k v g
              else search w p scopes budget s step query top_k none g).seen
    semantic-Sound true step query top_k v g h = search_with-Sound step query top_k v g h
    semantic-Sound false step query top_k v g h = search-Sound step query top_k none g h

    perform-Sound :
        (x : PlanStep) (g : Progress) → Sound g.seen → Sound (perform w p scopes budget s x g).seen
    perform-Sound (semantic_search query top_k) g h =
        semantic-Sound g.embedder (semantic_search query top_k) query top_k (w.embed query) g h
    perform-Sound (keyword_search query top_k) g h =
        search-Sound (keyword_search query top_k) query top_k none g h
    perform-Sound (link_expand types depth) g h = expand_links-Sound types depth g.seen h
    perform-Sound (time_filter after before) g h = h
    perform-Sound (stop_and_answer reason) g h = h

    unless_blocked-Sound :
        (o : Option Stop) (g : Progress) (rest : Progress × Stop)
        → Sound g.seen
        → Sound rest.0.seen
        → Sound (unless_blocked w p scopes budget s o g rest).0.seen
    unless_blocked-Sound none g rest h k = k
    unless_blocked-Sound (some why) g rest h k = h

    ending-Sound :
        (x : PlanStep) (g : Progress) (rest : Progress × Stop)
        → Sound g.seen
        → Sound rest.0.seen
        → Sound (ending w p scopes budget s x g rest).0.seen
    ending-Sound (stop_and_answer reason) g rest h k = h
    ending-Sound (semantic_search query top_k) g rest h k = k
    ending-Sound (keyword_search query top_k) g rest h k = k
    ending-Sound (link_expand types depth) g rest h k = k
    ending-Sound (time_filter after before) g rest h k = k

    run_steps-Sound :
        (xs : List PlanStep) (g : Progress)
        → Sound g.seen
        → Sound (run_steps w p scopes budget s xs g).0.seen
    unfolding run_steps
    run_steps-Sound [] g h = h
    run_steps-Sound (x ∷ xs) g h =
        let next : Progress = perform w p scopes budget s x (counted w p scopes budget s g) in
        let k : Sound next.seen = perform-Sound x (counted w p scopes budget s g) h in
        unless_blocked-Sound _ g _ h (
          ending-Sound x next (run_steps w p scopes budget s xs next) k (run_steps-Sound xs next k))

    -- Whatever the plan, the budget, the embedder and what Postgres computes: the candidates of the agent
    -- loop show rows of the table that are not deleted and belong to the caller's org (a superuser searches
    -- every org), each with the text of its row, and no two show the same row. The ids of the memories grow
    -- along the table.
    pub run-IsSound :
        (embedder : Bool) (plan : QueryPlan)
        → IsSound (IsCandidate p s.memories) (run w p scopes budget s embedder plan).0.seen
    unfolding run
    run-IsSound embedder plan =
        run_steps-Sound plan.steps (at_start embedder) (record { all = tt; distinct = tt })
