-- ===== src/Retrieval/Loop/Bounds.antt =====
-- How often the agent loop hops, and why it ends.
use kortex_memory.Prelude.{
  ℕ, suc, ◌+◌, ◌≤◌, max, ◌≡◌, refl, sym, ◌∙◌, subst, Bool, true, false, not, Option, none, some,
  List, [], ◌∷◌, Text, In, length, leb, if◌then◌else◌, Option-cases, inl, inr, arith,
}
use kortex_memory.Access.{Principal}
use kortex_memory.Memories.{Vector}
use kortex_memory.Memories.Queries.{ScopeFilter}
use kortex_memory.Service.State.{State}
use kortex_memory.Retrieval.Budget.{RecallBudget}
use kortex_memory.Retrieval.Plan.{
  PlanStep, semantic_search, keyword_search, link_expand, time_filter, stop_and_answer, QueryPlan,
}
use kortex_memory.Retrieval.Loop.{
  Stop, exhausted, budget_exhausted, max_hops, max_candidates, stopped, Progress, at_start, World,
  headroom, search, search_with, perform, blocked, counted, ending, unless_blocked, run_steps, run,
}

module _ (w : World) (p : Principal) (scopes : List ScopeFilter) (budget : Option RecallBudget)
    (s : State) where
  -- why a loop over some steps that began at `start` hops ended
  abbrev pub IsExplained : List PlanStep → ℕ → Progress → Stop → Type 0
  IsExplained xs start g exhausted = g.hops ≡ start + length xs
  IsExplained xs start g budget_exhausted =
      headroom w p scopes budget s budget (w.clock g.hops) ≡ false
  IsExplained xs start g max_hops = w.settings.max_hops ≤ g.hops
  IsExplained xs start g max_candidates = w.settings.max_candidates ≤ length g.seen
  IsExplained xs start g (stopped reason) = In (stop_and_answer reason) xs

  pub record IsBounded (xs : List PlanStep) (start : ℕ) (r : Progress × Stop) : Type 0 where
    pub least : start ≤ r.0.hops
    pub most : r.0.hops ≤ start + length xs
    pub within : r.0.hops ≤ max start w.settings.max_hops
    pub explained : IsExplained xs start r.0 r.1

  search-hops :
      (live : Bool) (step : PlanStep) (q : Text) (k : ℕ) (v : Option Vector) (g : Progress)
      → (if live
          then search_with w p scopes budget s step q k v g
          else search w p scopes budget s step q k none g).hops
        ≡ g.hops
  search-hops true step q k none g = refl
  search-hops true step q k (some v) g = refl
  search-hops false step q k v g = refl

  perform-hops : (x : PlanStep) (g : Progress) → (perform w p scopes budget s x g).hops ≡ g.hops
  perform-hops (semantic_search q k) g = search-hops g.embedder _ q k (w.embed q) g
  perform-hops (keyword_search q k) g = refl
  perform-hops (link_expand types depth) g = refl
  perform-hops (time_filter after before) g = refl
  perform-hops (stop_and_answer reason) g = refl

  some-injective : {A : Type 0} {x y : A} → some x ≡ some y → x ≡ y
  some-injective h = cc h

  -- a loop that does not begin its next hop
  blocked-IsExplained :
      (xs : List PlanStep) (start : ℕ) (g : Progress) (why : Stop) (a b c : Bool)
      → headroom w p scopes budget s budget (w.clock g.hops) ≡ a
      → leb w.settings.max_hops g.hops ≡ b
      → leb w.settings.max_candidates (length g.seen) ≡ c
      → (if not a
          then some budget_exhausted
          else if b
          then some max_hops
          else if c
          then some max_candidates
          else none)
        ≡ some why
      → IsExplained xs start g why
  blocked-IsExplained xs start g why false b c ha hb hc h =
      subst (IsExplained xs start g) (some-injective h) ha
  blocked-IsExplained xs start g why true true c ha hb hc h =
      subst (IsExplained xs start g) (some-injective h) (ground (arith, hb))
  blocked-IsExplained xs start g why true false true ha hb hc h =
      subst (IsExplained xs start g) (some-injective h) (ground (arith, hc))
  blocked-IsExplained xs start g why true false false ha hb hc h = absurd cc h

  below_max :
      (a b c : Bool) (hops : ℕ)
      → leb w.settings.max_hops hops ≡ b
      → (if not a
          then some budget_exhausted
          else if b
          then some max_hops
          else if c
          then some max_candidates
          else none)
        ≡ none
      → suc hops ≤ w.settings.max_hops
  below_max false b c hops hb h = absurd cc h
  below_max true true c hops hb h = absurd cc h
  below_max true false c hops hb h = ground (arith, hb)

  more-IsExplained :
      (x : PlanStep) (xs : List PlanStep) (start : ℕ) (g : Progress) (why : Stop)
      → IsExplained xs (suc start) g why
      → IsExplained (x ∷ xs) start g why
  more-IsExplained x xs start g exhausted h = omega (arith, h)
  more-IsExplained x xs start g budget_exhausted h = h
  more-IsExplained x xs start g max_hops h = h
  more-IsExplained x xs start g max_candidates h = h
  more-IsExplained x xs start g (stopped reason) h = inr h

  more-IsBounded :
      (x : PlanStep) (xs : List PlanStep) (start : ℕ) (r : Progress × Stop)
      → suc start ≤ w.settings.max_hops
      → IsBounded xs (suc start) r
      → IsBounded (x ∷ xs) start r
  more-IsBounded x xs start r room h = record {
    least = omega (arith, h.least);
    most = omega (arith, h.most);
    within = omega (arith, h.within, room);
    explained = more-IsExplained x xs start r.0 r.1 h.explained;
  }

  ending-IsBounded :
      (x : PlanStep) (xs : List PlanStep) (start : ℕ) (next : Progress) (rest : Progress × Stop)
      → next.hops ≡ suc start
      → suc start ≤ w.settings.max_hops
      → IsBounded xs (suc start) rest
      → IsBounded (x ∷ xs) start (ending w p scopes budget s x next rest)
  ending-IsBounded (stop_and_answer reason) xs start next rest e room h = record {
    least = omega (arith, e);
    most = omega (arith, e);
    within = omega (arith, e, room);
    explained = inl refl;
  }
  ending-IsBounded (semantic_search q k) xs start next rest e room h =
      more-IsBounded _ xs start rest room h
  ending-IsBounded (keyword_search q k) xs start next rest e room h =
      more-IsBounded _ xs start rest room h
  ending-IsBounded (link_expand types depth) xs start next rest e room h =
      more-IsBounded _ xs start rest room h
  ending-IsBounded (time_filter after before) xs start next rest e room h =
      more-IsBounded _ xs start rest room h

  run_steps-IsBounded :
      (xs : List PlanStep) (g : Progress) → IsBounded xs g.hops (run_steps w p scopes budget s xs g)
  unfolding run_steps
  run_steps-IsBounded [] g = record {
    least = omega arith;
    most = omega arith;
    within = omega arith;
    explained = omega arith;
  }
  run_steps-IsBounded (x ∷ xs) g =
      let next : Progress = perform w p scopes budget s x (counted w p scopes budget s g) in
      let rest : Progress × Stop = run_steps w p scopes budget s xs next in
      let hops : next.hops ≡ suc g.hops =
        perform-hops x (counted w p scopes budget s g) ∙ omega arith in
      elim (Option-cases (blocked w p scopes budget s g)) [
        | inl goes_on ↦
            subst
              (λ o.
                IsBounded (x ∷ xs) g.hops
                  (unless_blocked w p scopes budget s o g (ending w p scopes budget s x next rest)))
              (sym goes_on)
              (ending-IsBounded x xs g.hops next rest hops (below_max _ _ _ g.hops refl goes_on)
                (subst (λ n. IsBounded xs n rest) hops (run_steps-IsBounded xs next)))
        | inr (why, ends) ↦
            subst
              (λ o.
                IsBounded (x ∷ xs) g.hops
                  (unless_blocked w p scopes budget s o g (ending w p scopes budget s x next rest)))
              (sym ends)
              (record {
                least = omega arith;
                most = omega arith;
                within = omega arith;
                explained = blocked-IsExplained (x ∷ xs) g.hops g why _ _ _ refl refl refl ends;
              })
      ]

  -- The agent loop makes at most `retrieval_max_hops` hops and at most one for each step of the plan, and
  -- the reason with which it ends is true: it is `exhausted` only after every step, it names the budget
  -- only when the reserve for a hop is no longer left, the hops or the candidates only when their maximum
  -- is reached, and the reason of a stop only when the plan has that stop.
  pub run-IsBounded :
      (embedder : Bool) (plan : QueryPlan)
      → IsBounded plan.steps 0 (run w p scopes budget s embedder plan)
  unfolding run
  run-IsBounded embedder plan = run_steps-IsBounded plan.steps (at_start embedder)
