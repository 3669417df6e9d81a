-- ===== src/Retrieval/Loop.antt =====
-- packages/kortex-core/src/kortex_core/retrieval/agent_loop.py: the steps of a plan, over hybrid search
-- and the links. The embedder, the clock (what has passed before a step) and the order in which Python
-- lists a set are parameters. A time filter is remembered and, as in the source, filters nothing.
pub mod Collecting
pub mod Laws
pub mod Bounds
pub mod Tests
use kortex_memory.Prelude.{
  ℕ, zero, suc, ◌+◌, Bool, true, false, not, Option, none, some, List, [], ◌∷◌, ◌++◌, Text, map,
  any, length, ltb, leb, ◌==◌, if◌then◌else◌,
}
use kortex_memory.Types.{MemoryLinkType}
use kortex_memory.Access.{Principal}
use kortex_memory.Memories.{Memory, MemoryLink, Table, Vector}
use kortex_memory.Memories.Links.{Links, neighbors}
use kortex_memory.Memories.Queries.{ScopeFilter, get_by_id}
use kortex_memory.Service.State.{State}
use kortex_memory.Retrieval.Conflicts.{HybridSearchHit, hit_of}
use kortex_memory.Retrieval.Hybrid.{Floats, Postgres, Settings, hybrid_search}
use kortex_memory.Retrieval.Budget.{RecallBudget, has_headroom}
use kortex_memory.Retrieval.Plan.{
  PlanStep, semantic_search, keyword_search, link_expand, time_filter, stop_and_answer, QueryPlan,
}

pub data Stop : Type 0 where
  exhausted budget_exhausted max_hops max_candidates : Stop
  stopped : Text → Stop

-- a line of the trace
pub data Trace : Type 0 where
  stop_traced embed_failed : Trace
  filter_traced : Option ℕ → Option ℕ → Trace
  search_traced : PlanStep → ℕ → Trace
  expand_traced : ℕ → ℕ → Trace

abbrev pub Hits : Type 0
Hits = List HybridSearchHit

-- `seen`, a dict in the order of its insertions, the bounds of the last time filter, whether there is an
-- embedder still, the hops and the trace
pub record Progress : Type 0 where
  pub seen : Hits
  pub after : Option ℕ
  pub before : Option ℕ
  pub embedder : Bool
  pub hops : ℕ
  pub trace : List Trace

abbrev pub at_start : Bool → Progress
at_start embedder = record {
  seen = [];
  after = none;
  before = none;
  embedder = embedder;
  hops = 0;
  trace = [];
}

abbrev pub is_seen : ℕ → Hits → Bool
is_seen i = any (λ (h : HybridSearchHit). h.memory_id == i)

-- `seen[h.memory_id] = h` when the hit is new, and otherwise when its score is higher
unfoldable pub ingest_one : HybridSearchHit → Hits → Hits
ingest_one h [] = h ∷ []
ingest_one h (g ∷ gs) =
    let later = g ∷ ingest_one h gs in
    let best = if ltb g.score h.score then h else g in
    if g.memory_id == h.memory_id then best ∷ gs else later

abbrev count_new : Bool → ℕ → ℕ
count_new true added = added
count_new false added = suc added

-- `_ingest`, from a number of added hits on
unfoldable pub ingest : Hits → Hits → ℕ → Hits × ℕ
unfolding ingest_one
ingest [] seen added = (seen, added)
ingest (h ∷ hs) seen added =
    ingest hs (ingest_one h seen) (count_new (is_seen h.memory_id seen) added)

-- `seen`, `next_frontier` and `added`
pub record Expansion : Type 0 where
  pub seen : Hits
  pub next : List ℕ
  pub added : ℕ

-- what surrounds a recall
pub record World : Type 0 where
  pub floats : Floats
  pub db : Postgres
  pub settings : Settings
  pub embed : Text → Option Vector
  pub clock : ℕ → ℕ
  pub listed : List ℕ → List ℕ

module _ (w : World) (p : Principal) (scopes : List ScopeFilter) (budget : Option RecallBudget)
    (s : State) where
  -- the memory at the other end of a link, unless it is gone
  abbrev pub admit : Option Memory → Expansion → Expansion
  admit none e = e
  admit (some m) e = record {
    seen = e.seen ++ hit_of w.floats.nought m ∷ [];
    next = e.next ++ m.id ∷ [];
    added = e.added + 1;
  }

  abbrev pub other_end : ℕ → MemoryLink → ℕ
  other_end i l = if l.from_memory_id == i then l.to_memory_id else l.from_memory_id

  abbrev pub follow : ℕ → MemoryLink → Expansion → Expansion
  follow i l e =
      if is_seen (other_end i l) e.seen then e else admit (get_by_id p (other_end i l) s.memories) e

  unfoldable pub follow_all : ℕ → Links → Expansion → Expansion
  unfolding get_by_id
  follow_all i [] e = e
  follow_all i (l ∷ ls) e = follow_all i ls (follow i l e)

  unfoldable pub visit_frontier : List MemoryLinkType → List ℕ → Expansion → Expansion
  unfolding follow_all neighbors
  visit_frontier types [] e = e
  visit_frontier types (i ∷ is) e =
      visit_frontier types is (follow_all i (neighbors i (some types) s.links) e)

  abbrev pub from_frontier : Hits → ℕ → Expansion
  from_frontier seen added = record { seen = seen; next = []; added = added }

  abbrev is_empty : List ℕ → Bool
  is_empty [] = true
  is_empty (i ∷ is) = false

  -- the loop over the depths
  unfoldable pub expand : ℕ → List MemoryLinkType → List ℕ → Hits → ℕ → Hits × ℕ
  unfolding visit_frontier
  expand zero types frontier seen added = (seen, added)
  expand (suc depth) types frontier seen added =
      let e = visit_frontier types frontier (from_frontier seen added) in
      let deeper = expand depth types (w.listed e.next) e.seen e.added in
      if is_empty (w.listed e.next) then (e.seen, e.added) else deeper

  -- `_expand_links`, from every hit so far
  abbrev pub expand_links : List MemoryLinkType → ℕ → Hits → Hits × ℕ
  expand_links types max_depth [] = ([], 0)
  expand_links types max_depth (h ∷ hs) =
      expand max_depth types (map (λ (x : HybridSearchHit). x.memory_id) (h ∷ hs)) (h ∷ hs) 0

  abbrev traced : Trace → Progress → Progress
  traced t g = record g { trace = g.trace ++ t ∷ [] }

  abbrev pub added_to : Hits × ℕ → (ℕ → Trace) → Progress → Progress
  added_to r t g = traced (t r.1) (record g { seen = r.0 })

  -- a search, and the hits that it adds
  abbrev pub search : PlanStep → Text → ℕ → Option Vector → Progress → Progress
  search step query top_k vector g =
      added_to
        (ingest
          (hybrid_search w.floats w.db w.settings p query vector scopes p.max_sensitivity top_k
            s.projects s.memories)
          g.seen 0)
        (search_traced step) g

  -- an embedder that fails is not asked again
  abbrev pub search_with : PlanStep → Text → ℕ → Option Vector → Progress → Progress
  search_with step query top_k (some v) g = search step query top_k (some v) g
  search_with step query top_k none g =
      search step query top_k none (traced embed_failed (record g { embedder = false }))

  abbrev pub perform : PlanStep → Progress → Progress
  perform (semantic_search query top_k) g =
      if g.embedder
      then search_with (semantic_search query top_k) query top_k (w.embed query) g
      else search (semantic_search query top_k) query top_k none g
  perform (keyword_search query top_k) g = search (keyword_search query top_k) query top_k none g
  perform (link_expand types max_depth) g =
      added_to (expand_links types max_depth g.seen) (expand_traced max_depth) g
  perform (time_filter after before) g =
      traced (filter_traced after before) (record g { after = after; before = before })
  perform (stop_and_answer reason) g = traced stop_traced g

  abbrev pub headroom : Option RecallBudget → ℕ → Bool
  headroom none elapsed = true
  headroom (some b) elapsed = has_headroom b elapsed w.settings.hop_reserve_ms

  -- what is checked before a hop
  abbrev pub blocked : Progress → Option Stop
  blocked g =
      if not (headroom budget (w.clock g.hops))
      then some budget_exhausted
      else if leb w.settings.max_hops g.hops
      then some max_hops
      else if leb w.settings.max_candidates (length g.seen)
      then some max_candidates
      else none

  abbrev pub counted : Progress → Progress
  counted g = record g { hops = g.hops + 1 }

  -- a step that ends the loop, or the rest of the loop
  abbrev pub ending : PlanStep → Progress → Progress × Stop → Progress × Stop
  ending (stop_and_answer reason) g rest = (g, stopped reason)
  ending (semantic_search query top_k) g rest = rest
  ending (keyword_search query top_k) g rest = rest
  ending (link_expand types max_depth) g rest = rest
  ending (time_filter after before) g rest = rest

  abbrev pub unless_blocked : Option Stop → Progress → Progress × Stop → Progress × Stop
  unless_blocked none g rest = rest
  unless_blocked (some why) g rest = (g, why)

  -- the loop of `run`
  unfoldable pub run_steps : List PlanStep → Progress → Progress × Stop
  unfolding expand ingest hybrid_search has_headroom
  run_steps [] g = (g, exhausted)
  run_steps (x ∷ xs) g =
      let next = perform x (counted g) in
      let rest = run_steps xs next in unless_blocked (blocked g) g (ending x next rest)

  unfoldable pub run : Bool → QueryPlan → Progress × Stop
  unfolding run_steps
  run embedder plan = run_steps plan.steps (at_start embedder)
