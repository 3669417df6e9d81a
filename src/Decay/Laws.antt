-- ===== src/Decay/Laws.antt =====
-- The decay tick is one pass over the table, and what it may do to a memory.
use kortex_memory.Prelude.{
  ℕ, zero, suc, ◌+◌, ◌*◌, ◌≤◌, ◌<◌, ◌≡◌, ◌↔◌, refl, Bool, true, false, not, ◌&&◌, Option, none,
  some, List, [], ◌∷◌, map, length, ◌==◌, keep, take, All-map, In, keep-All, take-All,
  if◌then◌else◌, Bool-cases, inl, inr, arith,
}
use kortex_memory.Types.{MemoryTier, tier_eq}
use kortex_memory.Memories.{Memory, Table, is_live, in_tenant}
use kortex_memory.Memories.Rows.{IsOrdered}
use kortex_memory.Memories.Queries.{iter_for_decay}
use kortex_memory.Decay.{
  DecayDecision, DecayWorld, MedianAnswer, refused, no_row, answer, median_access_count, Counts,
  count, count_promoted, no_counts, inputs_of, evaluate, carry_out, tick_rows, tick_with,
  tick_one_org, superuser,
}
use kortex_memory.Decay.Passing.{decayed, tick_rows-map}

weaker : (lo hi : ℕ) (t : Table) → lo < hi → IsOrdered hi t → IsOrdered lo t
weaker lo hi [] h o = tt
weaker lo hi (r ∷ t) h o = (omega (arith, h, o.0), o.1)

keep-IsOrdered : (f : Memory → Bool) (lo : ℕ) (t : Table) → IsOrdered lo t → IsOrdered lo (keep f t)
keep-IsOrdered f lo [] o = tt
keep-IsOrdered f lo (r ∷ t) o = elim (Bool-cases (f r)) [
  | inl kept ↦ rw (kept) (o.0, keep-IsOrdered f r.id t o.1)
  | inr dropped ↦ rw (dropped) (weaker lo r.id (keep f t) o.0 (keep-IsOrdered f r.id t o.1))
]

take-IsOrdered : (n lo : ℕ) (t : Table) → IsOrdered lo t → IsOrdered lo (take n t)
take-IsOrdered zero lo t o = tt
take-IsOrdered (suc n) lo [] o = tt
take-IsOrdered (suc n) lo (r ∷ t) o = (o.0, take-IsOrdered n r.id t o.1)

module _ (w : DecayWorld) (now org : ℕ) (t : Table) (ordered : IsOrdered 0 t) where
  -- the rows that a tick visits
  abbrev pub visited : Table
  visited = iter_for_decay (superuser w org) org 500 t

  -- the table after one pass with a median, and the counts that are returned
  abbrev pub IsPassed : ℕ → Option Counts × Table → Type 0
  IsPassed median r =
      (r.1 ≡ map (decayed w now median visited) t)
      × ((c : Counts) × ((r.0 ≡ some c) × (c.scored ≡ length visited)))

  -- a tick with what the database answers for the median
  abbrev pub IsTicked : MedianAnswer → Option Counts × Table → Type 0
  IsTicked refused r = (r.0 ≡ none) × (r.1 ≡ t)
  IsTicked no_row r = IsPassed 1 r
  IsTicked (answer zero false) r = IsPassed 1 r
  IsTicked (answer zero true) r = IsPassed 0 r
  IsTicked (answer (suc n) fraction) r = IsPassed (suc n) r

  visited-map :
      (median : ℕ)
      → (tick_rows w now median visited t (no_counts w)).0 ≡ map (decayed w now median visited) t
  unfolding iter_for_decay
  visited-map median =
      let test : Memory → Bool =
        λ m. in_tenant (superuser w org) m && m.org_id == org && is_live m && not m.pinned in
      tick_rows-map w now median (take 500 (keep test t)) 0 t _ ordered
        (take-IsOrdered 500 0 (keep test t) (keep-IsOrdered test 0 t ordered))
        (take-All (λ m. In m t) 500 (keep test t)
          (All-map (keep test t) (λ m k. k.0) (keep-All test t)))

  count-scored : (d : DecayDecision) (c : Counts) → (count d c).scored ≡ c.scored + 1
  count-scored d c = scored_either d.should_hard_delete d.should_archive
    where
      scored_either :
          (gone archived : Bool)
          → (if gone
              then record c { scored = c.scored + 1; deleted = c.deleted + 1 }
              else if archived
              then record c { scored = c.scored + 1; archived = c.archived + 1 }
              else record c {
                scored = c.scored + 1;
                promoted = count_promoted d.new_tier c.promoted;
              }).scored
            ≡ c.scored + 1
      scored_either true archived = refl
      scored_either false true = refl
      scored_either false false = refl

  tick_rows-scored :
      (median : ℕ) (ms : List Memory) (u : Table) (c : Counts)
      → (tick_rows w now median ms u c).1.scored ≡ c.scored + length ms
  unfolding tick_rows
  tick_rows-scored median [] u c = omega arith
  tick_rows-scored median (m ∷ ms) u c =
      let d : DecayDecision = evaluate w (inputs_of w m) now median in
      let rest = tick_rows-scored median ms (carry_out w now m d u) (count d c) in
      omega (arith, rest, count-scored d c)

  tick_with-IsPassed : (median : ℕ) → IsPassed median (tick_with w (some median) now org t)
  tick_with-IsPassed median =
      let r = tick_rows w now median visited t (no_counts w) in
      (
        visited-map median,
        (r.1, (refl, omega (arith, tick_rows-scored median visited t (no_counts w)))),
      )

  tick_with-IsTicked :
      (a : MedianAnswer) → IsTicked a (tick_with w (median_access_count a) now org t)
  tick_with-IsTicked refused = (refl, refl)
  tick_with-IsTicked no_row = tick_with-IsPassed 1
  tick_with-IsTicked (answer zero false) = tick_with-IsPassed 1
  tick_with-IsTicked (answer zero true) = tick_with-IsPassed 0
  tick_with-IsTicked (answer (suc n) fraction) = tick_with-IsPassed (suc n)

  -- When Postgres refuses the statement for the median, as it does for one without a FROM clause, a decay
  -- tick ends in an exception and leaves the table as it was. When it gives a median, cut to a whole
  -- number, with 1 in the place of 0 or of no row, the tick is one pass over the table: it puts what the policy decides of a memory in the
  -- place of each of the first 500 memories of the org, in the order of the ids, that are not deleted and
  -- not pinned, every other row stays as it was, and the tick reports that it scored so many. The ids of the
  -- memories grow along the table.
  pub tick_one_org-map : IsTicked (w.median_answer org) (tick_one_org w now org t)
  unfolding tick_one_org
  tick_one_org-map = tick_with-IsTicked (w.median_answer org)

module _ (w : DecayWorld) (now median : ℕ) where
  three : (a b c : Bool) → ((a && b && c) ≡ true) ↔ ((a ≡ true) × ((b ≡ true) × (c ≡ true)))
  three a b c = ground arith

  -- what lets a tick delete a memory
  pub record IsForgotten (m : Memory) : Type 0 where
    pub free : m.pinned ≡ false
    pub short : m.tier ≡ MemoryTier.short
    pub old : m.created_at + w.short_delete_age_days * 86_400 ≤ now
    pub faint : w.faded (inputs_of w m) now median < w.short_delete_threshold

  short_tier : (t : MemoryTier) → tier_eq t MemoryTier.short ≡ true → t ≡ MemoryTier.short
  short_tier MemoryTier.short h = refl
  short_tier MemoryTier.mid h = absurd cc h
  short_tier MemoryTier.long h = absurd cc h

  unpinned :
      (b : Bool) (x y : DecayDecision)
      → x.should_hard_delete ≡ false
      → (if b then x else y).should_hard_delete ≡ true
      → (b ≡ false) × (y.should_hard_delete ≡ true)
  unpinned true x y h k = absurd cc (h, k)
  unpinned false x y h k = (refl, k)

  -- the policy asks for the deletion of such a memory only
  pub evaluate-IsForgotten :
      (m : Memory)
      → (evaluate w (inputs_of w m) now median).should_hard_delete ≡ true
      → IsForgotten m
  unfolding evaluate
  evaluate-IsForgotten m h =
      let r = unpinned m.pinned _ _ refl h in
      let parts = (three _ _ _).0 r.1 in
      record {
        free = r.0;
        short = short_tier m.tier parts.0;
        old = ground (arith, parts.1.0);
        faint = ground (arith, parts.1.1);
      }
