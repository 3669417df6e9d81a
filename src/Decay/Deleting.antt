-- ===== src/Decay/Deleting.antt =====
-- The memories that a decay tick deletes.
use kortex_memory.Prelude.{
  ℕ, ◌≡◌, ◌⊎◌, refl, sym, ◌∙◌, ap, subst, Bool, true, false, not, ◌&&◌, Option, some, List, [], ◌∷◌,
  map, keep, ◌==◌, ==_iff, All, All-In, All-map, In, keep-All, take-All, if◌then◌else◌, Bool-cases,
  inl, inr, zero, suc,
}
use kortex_memory.Memories.{Memory, Table, is_live, in_tenant}
use kortex_memory.Memories.Ids.{same_row}
use kortex_memory.Memories.Rows.{IsOrdered}
use kortex_memory.Memories.Queries.{iter_for_decay}
use kortex_memory.Memories.Writes.{soft_delete}
use kortex_memory.Service.Reads.{and-both}
use kortex_memory.Decay.{
  DecayDecision, DecayWorld, MedianAnswer, refused, no_row, answer, median_access_count, Counts,
  tick_one_org, superuser,
}
use kortex_memory.Decay.Passing.{decided, retired, rescored, outcome, outcome-id, decayed}
use kortex_memory.Decay.Laws.{
  visited, IsTicked, tick_one_org-map, IsForgotten, evaluate-IsForgotten,
}

module _ (w : DecayWorld) (now median : ℕ) where
  -- a tick leaves a row alone, or does to it what the policy decides
  decayed-cases :
      (ms : List Memory) (r : Memory)
      → (decayed w now median ms r ≡ r)
        ⊎ ((decayed w now median ms r ≡ outcome w now median r)
            × ((x : Memory) × (In x ms × (r.id ≡ x.id))))
  decayed-cases [] r = inl refl
  decayed-cases (m ∷ ms) r = elim (Bool-cases (r.id == m.id)) [
    | inl hit ↦ rw (hit) (inr (refl, (m, (inl refl, (==_iff r.id m.id).0 hit))))
    | inr miss ↦ rw (miss) (later (decayed-cases ms r))
  ]
    where
      later :
          (decayed w now median ms r ≡ r)
            ⊎ ((decayed w now median ms r ≡ outcome w now median r)
                × ((x : Memory) × (In x ms × (r.id ≡ x.id))))
          → (decayed w now median ms r ≡ r)
            ⊎ ((decayed w now median ms r ≡ outcome w now median r)
                × ((x : Memory) × (In x (m ∷ ms) × (r.id ≡ x.id))))
      later (inl e) = inl e
      later (inr (e, (x, (i, k)))) = inr (e, (x, (inr i, k)))

  decayed-id : (ms : List Memory) (r : Memory) → (decayed w now median ms r).id ≡ r.id
  decayed-id [] r = refl
  decayed-id (m ∷ ms) r = elim (Bool-cases (r.id == m.id)) [
    | inl hit ↦ rw (hit) (outcome-id w now median r)
    | inr miss ↦ rw (miss) (decayed-id ms r)
  ]

  aged-live :
      (gone archived : Bool) (d : DecayDecision) (m : Memory)
      → is_live m ≡ true
      → is_live (
          if gone
          then soft_delete now m
          else if archived
          then retired w now median d m
          else rescored w now median d m)
        ≡ false
      → gone ≡ true
  aged-live true archived d m h k = refl
  aged-live false true d m h k = absurd cc (sym h ∙ k)
  aged-live false false d m h k = absurd cc (sym h ∙ k)

  outcome-live :
      (m : Memory)
      → is_live m ≡ true
      → is_live (outcome w now median m) ≡ false
      → IsForgotten w now median m
  unfolding outcome
  outcome-live m h k =
      let d : DecayDecision = decided w now median m in
      evaluate-IsForgotten w now median m (aged-live d.should_hard_delete d.should_archive d m h k)

map-row :
    (f : Memory → Memory) (t : Table) (x : Memory)
    → In x (map f t)
    → (r : Memory) × (In r t × (x ≡ f r))
map-row f [] x i = elim i [ ]
map-row f (r ∷ t) x (inl e) = (r, (inl refl, e))
map-row f (r ∷ t) x (inr i) = let k = map-row f t x i in (k.0, (inr k.1.0, k.1.1))

-- what lets a tick delete a memory, with a median that it was given
pub record IsDeleted (w : DecayWorld) (now org : ℕ) (m : Memory) : Type 0 where
  pub median : ℕ
  pub given : median_access_count (w.median_answer org) ≡ some median
  pub own : m.org_id ≡ org
  pub forgotten : IsForgotten w now median m

module _ (w : DecayWorld) (now org : ℕ) (t : Table) (ordered : IsOrdered 0 t) where
  visited-All : All (λ m. In m t × (m.org_id ≡ org)) (visited w now org t ordered)
  unfolding iter_for_decay
  visited-All =
      let test : Memory → Bool =
        λ m. in_tenant (superuser w org) m && m.org_id == org && is_live m && not m.pinned in
      take-All (λ m. In m t × (m.org_id ≡ org)) 500 (keep test t)
        (All-map (keep test t)
          (λ m k.
            let free = and-both _ (not m.pinned) k.1 in
            let live = and-both _ (is_live m) free.0 in
            let own = and-both (in_tenant (superuser w org) m) (m.org_id == org) live.0 in
            (k.0, (==_iff m.org_id org).0 own.1))
          (keep-All test t))

  module _ (m m' : Memory) (stands : In m t) (same : m'.id ≡ m.id) (live : is_live m ≡ true)
      (dead : is_live m' ≡ false) where
    still_there : In m' t → ⊥
    still_there i =
        let e : m' ≡ m = same_row 0 t m' m ordered i stands same in
        absurd cc (sym live ∙ (sym (ap is_live e) ∙ dead))

    passed-IsDeleted :
        (median : ℕ)
        → median_access_count (w.median_answer org) ≡ some median
        → In m' (map (decayed w now median (visited w now org t ordered)) t)
        → IsDeleted w now org m
    passed-IsDeleted median given i =
        let ms : List Memory = visited w now org t ordered in
        let k = map-row (decayed w now median ms) t m' i in
        let id : k.0.id ≡ m.id =
          sym (ap (λ (x : Memory). x.id) k.1.1 ∙ decayed-id w now median ms k.0) ∙ same in
        let r : k.0 ≡ m = same_row 0 t k.0 m ordered k.1.0 stands id in
        let made : m' ≡ decayed w now median ms m = k.1.1 ∙ ap (decayed w now median ms) r in
        from_row made (decayed-cases w now median ms m)
      where
        from_row :
            m' ≡ decayed w now median (visited w now org t ordered) m
            → (decayed w now median (visited w now org t ordered) m ≡ m)
              ⊎ ((decayed w now median (visited w now org t ordered) m ≡ outcome w now median m)
                  × ((x : Memory) × (In x (visited w now org t ordered) × (m.id ≡ x.id))))
            → IsDeleted w now org m
        from_row made (inl kept) =
            absurd (still_there (subst (λ x. In x t) (sym (made ∙ kept)) stands))
        from_row made (inr (gone, (x, (j, e)))) =
            let seen =
              All-In (λ y. In y t × (y.org_id ≡ org)) (visited w now org t ordered) x visited-All
                j in
            let it : m ≡ x = same_row 0 t m x ordered stands seen.0 e in
            record {
              median = median;
              given = given;
              own = ap (λ (y : Memory). y.org_id) it ∙ seen.1;
              forgotten = outcome-live w now median m live (ap is_live (sym (made ∙ gone)) ∙ dead);
            }

    ticked-IsDeleted :
        (a : MedianAnswer) (r : Option Counts × Table)
        → w.median_answer org ≡ a
        → IsTicked w now org t ordered a r
        → In m' r.1
        → IsDeleted w now org m
    ticked-IsDeleted refused r e k i = absurd (still_there (subst (In m') k.1 i))
    ticked-IsDeleted no_row r e k i =
        passed-IsDeleted 1 (ap median_access_count e) (subst (In m') k.0 i)
    ticked-IsDeleted (answer zero false) r e k i =
        passed-IsDeleted 1 (ap median_access_count e) (subst (In m') k.0 i)
    ticked-IsDeleted (answer zero true) r e k i =
        passed-IsDeleted 0 (ap median_access_count e) (subst (In m') k.0 i)
    ticked-IsDeleted (answer (suc n) fraction) r e k i =
        passed-IsDeleted (suc n) (ap median_access_count e) (subst (In m') k.0 i)

  -- If a decay tick over an org deletes a memory, so that a row that was not deleted stands in the table as
  -- a deleted one afterwards, then Postgres gave a median, and the row belongs to the org, is not pinned, is
  -- of the short tier, has reached the age of deletion, and its score has faded below the threshold. The ids
  -- of the memories grow along the table.
  pub tick_one_org-IsDeleted :
      (m m' : Memory)
      → In m t
      → In m' (tick_one_org w now org t).1
      → m'.id ≡ m.id
      → is_live m ≡ true
      → is_live m' ≡ false
      → IsDeleted w now org m
  tick_one_org-IsDeleted m m' stands i same live dead =
      ticked-IsDeleted m m' stands same live dead (w.median_answer org) (tick_one_org w now org t)
        refl (tick_one_org-map w now org t ordered) i
