-- ===== src/Retrieval/Recall.antt =====
-- `AgenticRetriever` of packages/kortex-core/src/kortex_core/services/agentic_retriever.py. The models,
-- the embedder and the clock are parameters: `Models` holds what they answer in one recall. `none` is an
-- exception that leaves `recall`: a plan or a seeded query that
-- breaks its bounds, or a reranker that miscounts.
pub mod Bundle
pub mod Packing
pub mod Laws
mod Tests
use kortex_memory.Prelude.{
  ℕ, zero, suc, ◌+◌, min, Bool, true, false, not, ◌&&◌, ◌||◌, Option, none, some, List, [], ◌∷◌,
  ◌++◌, Text, map, length, if◌then◌else◌,
}
use kortex_memory.Access.{Principal}
use kortex_memory.Dedup.{strip}
use kortex_memory.Memories.{Vector}
use kortex_memory.Memories.Queries.{ScopeFilter}
use kortex_memory.Service.State.{State}
use kortex_memory.Retrieval.Conflicts.{
  HybridSearchHit, ConflictNote, annotate_conflicts, demote_superseded,
}
use kortex_memory.Retrieval.Hybrid.{hybrid_search}
use kortex_memory.Retrieval.Packing.{TokenBudget, estimate_tokens}
use kortex_memory.Retrieval.Budget.{
  RecallBudget, RecallUsage, Mode, hybrid, agentic, no_usage, total_tokens, LlmResponse, Prices,
  record_response, should_plan, Skip, has_headroom, affords_tokens,
}
use kortex_memory.Retrieval.Plan.{PlanStep, QueryPlan, semantic_search, parse_plan}
use kortex_memory.Retrieval.Loop.{Stop, budget_exhausted, Trace, Progress, World, Hits, run}
use kortex_memory.Retrieval.Reranking.{RerankedHit, Reranker, rerank_and_pack, text_of_hit}
use kortex_memory.Retrieval.Searching.{accessed, is_given}
use kortex_memory.Retrieval.Recall.Bundle.{
  RecallRequest, Citation, Rationale, Ending, PlanTrace, ContextBundle, Answer, Models, budget_of,
  max_tokens_of, with_hits, hits_in, reranked_id, cited, used_tokens, skipped, planner_failed,
  no_steps, planned, fallback, looped, fallback_traced, loop_traced, failed, answered,
}

module _ (w : World) (m : Models) (p : Principal) (s : State) where
  abbrev pub annotated : List RerankedHit → List RerankedHit
  annotated rs =
      let noted = annotate_conflicts p s.links s.memories (hits_in rs) in
      demote_superseded (with_hits rs noted.0) noted.1 reranked_id

  abbrev pub checked : Option (List RerankedHit × ℕ) → Option (List RerankedHit)
  checked none = none
  checked (some kept) = some (if w.settings.conflict_detection then annotated kept.0 else kept.0)

  -- `_rerank_pack`
  unfoldable pub rerank_pack : RecallRequest → Hits → Option (List RerankedHit)
  unfolding rerank_and_pack annotate_conflicts demote_superseded
  rerank_pack r [] = some []
  rerank_pack r (h ∷ hs) = checked (
      rerank_and_pack m.reranker r.query (h ∷ hs)
        (record { max_tokens = max_tokens_of m r.max_tokens; per_item_max = r.per_item_max }))

  -- the vector of the fallback: without an embedder, or when it fails, there is none
  abbrev pub fallback_vector : RecallRequest → Option Vector
  fallback_vector r = if m.embedder then w.embed r.query else none

  abbrev pub returned : ContextBundle → Option ContextBundle × State
  returned b = (some b, accessed (map reranked_id b.candidates) s)

  abbrev pub fallback_bundle :
      RecallRequest
      → RecallUsage
      → Rationale
      → Option (List RerankedHit)
      → Option ContextBundle × State
  fallback_bundle r usage why none = (none, s)
  fallback_bundle r usage why (some kept) = returned (record {
    query = r.query;
    answer = none;
    citations = cited kept;
    candidates = kept;
    used_tokens = used_tokens kept r.per_item_max;
    plan_trace = fallback_traced (is_given (fallback_vector r));
    plan_rationale = why;
    hops = 0;
    stopped_reason = fallback;
    usage = record usage { mode = hybrid; latency = m.at_end };
  })

  -- `_fallback_hybrid`
  unfoldable pub fallback_hybrid :
      RecallRequest → RecallUsage → Rationale → Option ContextBundle × State
  unfolding hybrid_search rerank_pack used_tokens
  fallback_hybrid r usage why = fallback_bundle r usage why (
      rerank_pack r (
        hybrid_search w.floats w.db w.settings p r.query (fallback_vector r) r.scopes
          p.max_sensitivity 50 s.projects s.memories))

  -- a plan of one semantic search, whose query has bounds too
  abbrev pub seed : RecallRequest → Option QueryPlan
  seed r = parse_plan (some (record { rationale = []; steps = semantic_search r.query 20 ∷ [] }))

  abbrev reason_of : Text → Rationale
  reason_of [] = no_steps
  reason_of (c ∷ t) = planned (c ∷ t)

  abbrev seeded_by : Text → Option QueryPlan → Option (QueryPlan × Rationale)
  seeded_by reason none = none
  seeded_by reason (some plan) = some (plan, reason_of reason)

  abbrev seeded_with : RecallRequest → QueryPlan → List PlanStep → Option (QueryPlan × Rationale)
  seeded_with r plan [] = seeded_by plan.rationale (seed r)
  seeded_with r plan (x ∷ xs) = some (plan, planned plan.rationale)

  -- the end of `_plan`: a plan without steps gets one
  unfoldable pub seeded : RecallRequest → QueryPlan → Option (QueryPlan × Rationale)
  unfolding parse_plan
  seeded r plan = seeded_with r plan plan.steps

  abbrev pub looped_over : World → RecallRequest → QueryPlan → Progress × Stop
  looped_over v r plan = run v p r.scopes (some (budget_of r)) s m.embedder plan

  abbrev pub looped_again : RecallRequest → Option QueryPlan → Option (Progress × Stop)
  looped_again r none = none
  looped_again r (some plan) = some (looped_over (record w { clock = m.clock_again }) r plan)

  -- a loop that found nothing is followed by one semantic search
  unfoldable pub again : RecallRequest → Progress × Stop → Hits → Option (Progress × Stop)
  unfolding parse_plan run
  again r found [] = looped_again r (seed r)
  again r found (h ∷ hs) = some found

  -- the answer and the usage after a synthesis
  abbrev pub summarized : RecallUsage → Answer → Option Text × RecallUsage
  summarized usage failed = (none, usage)
  summarized usage (answered response plan text) =
      (some (strip text), record_response m.prices response usage)

  abbrev pub synthesized :
      RecallRequest → List RerankedHit → RecallUsage → Option Text × RecallUsage
  synthesized r kept usage =
      if not r.synthesize
      then (none, usage)
      else if has_headroom (budget_of r) m.at_synthesis m.planner_min_budget_ms
          && affords_tokens (budget_of r) (total_tokens usage) m.planner_min_budget_tokens
      then summarized usage (m.summarizer r.query kept)
      else (none, record usage { budget_exhausted = true })

  abbrev is_over_budget : Stop → Bool
  is_over_budget budget_exhausted = true
  is_over_budget Stop.exhausted = false
  is_over_budget Stop.max_hops = false
  is_over_budget Stop.max_candidates = false
  is_over_budget (Stop.stopped reason) = false

  abbrev pub agentic_bundle :
      RecallRequest
      → RecallUsage
      → QueryPlan × Rationale
      → Progress × Stop
      → Option (List RerankedHit)
      → Option ContextBundle × State
  agentic_bundle r usage plan found none = (none, s)
  agentic_bundle r usage plan found (some kept) =
      let summary = synthesized r kept usage in
      returned (record {
        query = r.query;
        answer = summary.0;
        citations = cited kept;
        candidates = kept;
        used_tokens = used_tokens kept r.per_item_max;
        plan_trace = loop_traced found.0.trace;
        plan_rationale = plan.1;
        hops = found.0.hops;
        stopped_reason = looped found.1;
        usage = record summary.1 {
          mode = agentic;
          plan_steps = length plan.0.steps;
          hops = found.0.hops;
          latency = m.at_end;
          budget_exhausted = summary.1.budget_exhausted || is_over_budget found.1;
        };
      })

  -- what follows the loops, if none of them ended in an exception
  abbrev pub found_with :
      RecallRequest
      → RecallUsage
      → QueryPlan × Rationale
      → Option (Progress × Stop)
      → Option ContextBundle × State
  found_with r usage plan none = (none, s)
  found_with r usage plan (some found) =
      agentic_bundle r usage plan found (rerank_pack r found.0.seen)

  -- a plan that passed its bounds, and what follows it
  abbrev pub carried_out :
      RecallRequest → RecallUsage → Option (QueryPlan × Rationale) → Option ContextBundle × State
  carried_out r usage none = (none, s)
  carried_out r usage (some plan) =
      let first = looped_over w r plan.0 in found_with r usage plan (again r first first.0.seen)

  abbrev pub planned_with :
      RecallRequest → RecallUsage → Option QueryPlan → Option ContextBundle × State
  planned_with r usage none = (none, s)
  planned_with r usage (some plan) = carried_out r usage (seeded r plan)

  abbrev pub after_plan : RecallRequest → Answer → Option ContextBundle × State
  after_plan r failed = fallback_hybrid r no_usage planner_failed
  after_plan r (answered response structured text) =
      planned_with r (record_response m.prices response no_usage) (parse_plan structured)

  abbrev pub with_planner :
      RecallRequest → Bool × Skip → Option (RecallRequest → Answer) → Option ContextBundle × State
  with_planner r (true, skip) (some ask) = after_plan r (ask r)
  with_planner r (true, skip) none = fallback_hybrid r no_usage (skipped skip)
  with_planner r (false, skip) o = fallback_hybrid r no_usage (skipped skip)

  abbrev has_planner : Option (RecallRequest → Answer) → Bool
  has_planner none = false
  has_planner (some ask) = true

  unfoldable pub recall : RecallRequest → Option ContextBundle × State
  unfolding strip should_plan fallback_hybrid run parse_plan seeded again rerank_pack used_tokens
      record_response has_headroom affords_tokens
  recall r =
      with_planner r
        (should_plan (budget_of r) m.at_plan (has_planner m.planner) m.agentic_retrieval
          m.planner_min_budget_ms m.planner_min_budget_tokens)
        m.planner
