-- ===== src/Retrieval/Recall/Laws.antt =====
-- What a recall hands out.
use kortex_memory.Prelude.{
  ◌≡◌, subst, Bool, true, false, Option, none, some, List, [], ◌∷◌, All, All-map,
}
use kortex_memory.Types.{Sensitivity}
use kortex_memory.Access.{Principal}
use kortex_memory.Memories.Queries.{ScopeFilter}
use kortex_memory.Memories.Rows.{IsOrdered}
use kortex_memory.Service.State.{State}
use kortex_memory.Retrieval.Conflicts.{HybridSearchHit}
use kortex_memory.Retrieval.Hybrid.Laws.{IsRecalled, hybrid_search-IsRecalled}
use kortex_memory.Retrieval.Budget.{RecallUsage, Skip, no_usage, record_response}
use kortex_memory.Retrieval.Plan.{QueryPlan, parse_plan}
use kortex_memory.Retrieval.Loop.{Stop, Progress, World, Hits}
use kortex_memory.Retrieval.Loop.Laws.{IsCandidate, run-IsSound}
use kortex_memory.Retrieval.Reranking.{RerankedHit}
use kortex_memory.Retrieval.Recall.Bundle.{
  RecallRequest, Rationale, skipped, planner_failed, ContextBundle, Answer, failed, answered,
  Models, budget_of,
}
use kortex_memory.Retrieval.Recall.{
  rerank_pack, fallback_vector, fallback_bundle, fallback_hybrid, seeded, seed, looped_over,
  looped_again, again, found_with, agentic_bundle, carried_out, planned_with, after_plan,
  with_planner, recall,
}
use kortex_memory.Retrieval.Recall.Packing.{IsGrounded, Kept, rerank_pack-Kept}

module _ (w : World) (m : Models) (p : Principal) (s : State)
    (ordered : IsOrdered 0 s.memories) where
  abbrev P : HybridSearchHit → Type 0
  P = IsGrounded p s.memories

  abbrev Q : RerankedHit → Type 0
  Q r = P r.hit

  -- every candidate of a bundle, if there is one
  abbrev Grounded : Option ContextBundle → Type 0
  Grounded none = Unit
  Grounded (some b) = All Q b.candidates

  recalled-All :
      (filtering : Bool) (scopes : List ScopeFilter) (cap : Sensitivity) (hs : Hits)
      → All (IsRecalled filtering p scopes cap s.memories) hs
      → All P hs
  recalled-All filtering scopes cap hs h =
      All-map hs
        (λ (x : HybridSearchHit) (k : IsRecalled filtering p scopes cap s.memories x). record {
          row = k.row;
          notes = [];
          stands = k.stands;
          shows = k.shows;
          live = k.live;
          tenant = k.tenant;
        })
        h

  candidates-All : (hs : Hits) → All (IsCandidate p s.memories) hs → All P hs
  candidates-All hs h =
      All-map hs
        (λ (x : HybridSearchHit) (k : IsCandidate p s.memories x). record {
          row = k.row;
          notes = [];
          stands = k.stands;
          shows = k.shows;
          live = k.live;
          tenant = k.tenant;
        })
        h

  fallback_bundle-Grounded :
      (r : RecallRequest) (usage : RecallUsage) (why : Rationale) (o : Option (List RerankedHit))
      → Kept w m p s o
      → Grounded (fallback_bundle w m p s r usage why o).0
  fallback_bundle-Grounded r usage why none h = tt
  fallback_bundle-Grounded r usage why (some kept) h = h

  fallback_hybrid-Grounded :
      (r : RecallRequest) (usage : RecallUsage) (why : Rationale)
      → Grounded (fallback_hybrid w m p s r usage why).0
  unfolding fallback_hybrid
  fallback_hybrid-Grounded r usage why = fallback_bundle-Grounded r usage why _ (
      rerank_pack-Kept w m p s r _ (
        recalled-All _ r.scopes p.max_sensitivity _
          (hybrid_search-IsRecalled w.floats w.db w.settings p r.scopes p.max_sensitivity s.memories
            ordered r.query (fallback_vector w m p s r) 50 s.projects).0))

  looped_over-All :
      (v : World) (r : RecallRequest) (plan : QueryPlan)
      → All P (looped_over w m p s v r plan).0.seen
  looped_over-All v r plan =
      candidates-All _ (run-IsSound v p r.scopes (some (budget_of r)) s ordered m.embedder plan).all

  -- what the loops found, if they ended
  abbrev Found : Option (Progress × Stop) → Type 0
  Found none = Unit
  Found (some found) = All P found.0.seen

  looped_again-Found : (r : RecallRequest) (o : Option QueryPlan) → Found (looped_again w m p s r o)
  looped_again-Found r none = tt
  looped_again-Found r (some plan) = looped_over-All (record w { clock = m.clock_again }) r plan

  again-Found :
      (r : RecallRequest) (found : Progress × Stop) (hs : Hits)
      → All P found.0.seen
      → Found (again w m p s r found hs)
  unfolding again
  again-Found r found [] h = looped_again-Found r (seed w m p s r)
  again-Found r found (x ∷ hs) h = h

  agentic_bundle-Grounded :
      (r : RecallRequest) (usage : RecallUsage) (plan : QueryPlan × Rationale)
      (found : Progress × Stop) (o : Option (List RerankedHit))
      → Kept w m p s o
      → Grounded (agentic_bundle w m p s r usage plan found o).0
  agentic_bundle-Grounded r usage plan found none h = tt
  agentic_bundle-Grounded r usage plan found (some kept) h = h

  found_with-Grounded :
      (r : RecallRequest) (usage : RecallUsage) (plan : QueryPlan × Rationale)
      (o : Option (Progress × Stop))
      → Found o
      → Grounded (found_with w m p s r usage plan o).0
  found_with-Grounded r usage plan none h = tt
  found_with-Grounded r usage plan (some found) h =
      agentic_bundle-Grounded r usage plan found (rerank_pack w m p s r found.0.seen)
        (rerank_pack-Kept w m p s r found.0.seen h)

  carried_out-Grounded :
      (r : RecallRequest) (usage : RecallUsage) (o : Option (QueryPlan × Rationale))
      → Grounded (carried_out w m p s r usage o).0
  carried_out-Grounded r usage none = tt
  carried_out-Grounded r usage (some plan) =
      let first : Progress × Stop = looped_over w m p s w r plan.0 in
      found_with-Grounded r usage plan (again w m p s r first first.0.seen)
        (again-Found r first first.0.seen (looped_over-All w r plan.0))

  planned_with-Grounded :
      (r : RecallRequest) (usage : RecallUsage) (o : Option QueryPlan)
      → Grounded (planned_with w m p s r usage o).0
  planned_with-Grounded r usage none = tt
  planned_with-Grounded r usage (some plan) = carried_out-Grounded r usage (seeded w m p s r plan)

  after_plan-Grounded : (r : RecallRequest) (a : Answer) → Grounded (after_plan w m p s r a).0
  after_plan-Grounded r failed = fallback_hybrid-Grounded r no_usage planner_failed
  after_plan-Grounded r (answered response structured text) =
      planned_with-Grounded r (record_response m.prices response no_usage) (parse_plan structured)

  with_planner-Grounded :
      (r : RecallRequest) (b : Bool) (why : Skip) (o : Option (RecallRequest → Answer))
      → Grounded (with_planner w m p s r (b, why) o).0
  with_planner-Grounded r true why (some ask) = after_plan-Grounded r (ask r)
  with_planner-Grounded r true why none = fallback_hybrid-Grounded r no_usage (skipped why)
  with_planner-Grounded r false why o = fallback_hybrid-Grounded r no_usage (skipped why)

  recall-Grounded : (r : RecallRequest) → Grounded (recall w m p s r).0
  unfolding recall
  recall-Grounded r = with_planner-Grounded r _ _ m.planner

  -- Whatever the models, the embedder, the clock and Postgres answer: when a recall returns a bundle, each
  -- of its candidates shows a row of the table that is not deleted and belongs to the caller's org (a
  -- superuser recalls from every org), with the text of that row. The ids of the memories grow along the
  -- table.
  pub recall-IsGrounded :
      (r : RecallRequest) (bundle : ContextBundle)
      → (recall w m p s r).0 ≡ some bundle
      → All (λ (c : RerankedHit). IsGrounded p s.memories c.hit) bundle.candidates
  recall-IsGrounded r bundle e = subst Grounded e (recall-Grounded r)
