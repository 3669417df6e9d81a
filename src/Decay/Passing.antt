-- ===== src/Decay/Passing.antt =====
-- The turns of a decay tick add up to one pass over the table.
use kortex_memory.Prelude.{
  ℕ, ◌<◌, ◌≡◌, refl, sym, ◌∙◌, ap, subst, Bool, true, false, ◌||◌, List, [], ◌∷◌, map, ◌==◌, All,
  All-map, In, if◌then◌else◌, Bool-cases, inl, inr, arith,
}
use kortex_memory.Types.{MemoryTier}
use kortex_memory.Memories.{Memory, Table, replace_row}
use kortex_memory.Memories.Rows.{IsOrdered, IsOrdered-above}
use kortex_memory.Memories.Writes.{soft_delete, apply_decay, or_old}
use kortex_memory.Memories.Ids.{same_row}
use kortex_memory.Decay.{
  DecayDecision, DecayWorld, inputs_of, evaluate, carry_out, tick_rows, Counts, count,
}

module _ (w : DecayWorld) (now median : ℕ) where
  abbrev pub decided : Memory → DecayDecision
  decided m = evaluate w (inputs_of w m) now median

  abbrev pub retired : DecayDecision → Memory → Memory
  retired d m = record m { decay_score = d.new_decay_score; tier = MemoryTier.long }

  abbrev pub rescored : DecayDecision → Memory → Memory
  rescored d m = record m { decay_score = d.new_decay_score; tier = or_old d.new_tier m.tier }

  abbrev pub aged : DecayDecision → Memory → Memory
  aged d m =
      if d.should_hard_delete
      then soft_delete now m
      else if d.should_archive
      then retired d m
      else rescored d m

  -- what a tick makes of a memory that it visits
  unfoldable pub outcome : Memory → Memory
  unfolding evaluate soft_delete
  outcome m = aged (decided m) m

  -- what it makes of every row, when it visits some
  abbrev pub decayed : List Memory → Memory → Memory
  decayed [] r = r
  decayed (m ∷ ms) r = if r.id == m.id then outcome r else decayed ms r

  map-In : (f g : Memory → Memory) (t : Table) → All (λ r. f r ≡ g r) t → map f t ≡ map g t
  map-In f g [] h = refl
  map-In f g (r ∷ t) h = λ i. h.0 i ∷ map-In f g t h.1 i

  replace_row-map :
      (m : Memory) (t : Table)
      → replace_row m t ≡ map (λ (r : Memory). if r.id == m.id then m else r) t
  unfolding replace_row
  replace_row-map m [] = refl
  replace_row-map m (r ∷ t) = ap (λ l. (if r.id == m.id then m else r) ∷ l) (replace_row-map m t)

  abbrev only : Memory → Memory → Memory
  only m r = if r.id == m.id then outcome r else r

  id_eq : (a b : ℕ) → (a == b) ≡ true → a ≡ b
  id_eq a b h = ground (arith, h)

  In-All : (t : Table) → All (λ r. In r t) t
  In-All [] = tt
  In-All (r ∷ t) = (inl refl, All-map t (λ x i. inr i) (In-All t))

  -- a row that has the id of `m` is `m`
  carried :
      (m : Memory) (d : DecayDecision) (r : Memory) (t : Table)
      → IsOrdered 0 t
      → In m t
      → In r t
      → (r.id == m.id) ≡ true
      → r ≡ m
  carried m d r t o i j h = same_row 0 t r m o j i (id_eq r.id m.id h)

  -- what a decision does is done to the row alone
  carry_out-map :
      (m : Memory) (d : DecayDecision) (t : Table)
      → IsOrdered 0 t
      → In m t
      → carry_out w now m d t ≡ map (λ (r : Memory). if r.id == m.id then aged d r else r) t
  unfolding soft_delete apply_decay
  carry_out-map m d t o i = elim (Bool-cases d.should_hard_delete) [
    | inl gone ↦ rw (gone) (
        replace_row-map (soft_delete now m) t
        ∙ map-In _ _ t (All-map t (λ r j. deleted r j) (In-All t)))
    | inr stays ↦ elim (Bool-cases d.should_archive) [
      | inl archive ↦
          rw (stays, archive) (map-In _ _ t (All-map t (λ r j. updated r (retired d)) (In-All t)))
      | inr keep_tier ↦
          rw (stays, keep_tier)
            (map-In _ _ t (All-map t (λ r j. updated r (rescored d)) (In-All t)))
    ]
  ]
    where
      updated :
          (r : Memory) (f : Memory → Memory)
          → (if (r.id == m.id) || false then f r else r) ≡ (if r.id == m.id then f r else r)
      updated r f = same_test (r.id == m.id)
        where
          same_test : (b : Bool) → (if b || false then f r else r) ≡ (if b then f r else r)
          same_test true = refl
          same_test false = refl

      deleted :
          (r : Memory)
          → In r t
          → (if r.id == m.id then soft_delete now m else r)
            ≡ (if r.id == m.id then soft_delete now r else r)
      deleted r j = elim (Bool-cases (r.id == m.id)) [
        | inl hit ↦ rw (hit) (ap (soft_delete now) (sym (carried m d r t o i j hit)))
        | inr miss ↦ rw (miss) refl
      ]

  -- one turn of the loop
  turn-map :
      (m : Memory) (t : Table)
      → IsOrdered 0 t
      → In m t
      → carry_out w now m (decided m) t ≡ map (only m) t
  unfolding outcome
  turn-map m t o i =
      carry_out-map m (decided m) t o i
      ∙ map-In _ _ t (All-map t (λ r j. decided_alike r j) (In-All t))
    where
      decided_alike :
          (r : Memory) → In r t → (if r.id == m.id then aged (decided m) r else r) ≡ only m r
      decided_alike r j = elim (Bool-cases (r.id == m.id)) [
        | inl hit ↦
            rw (hit)
              (ap (λ (x : Memory). aged (decided x) r) (sym (carried m (decided m) r t o i j hit)))
        | inr miss ↦ rw (miss) refl
      ]

  pub outcome-id : (m : Memory) → (outcome m).id ≡ m.id
  unfolding outcome
  outcome-id m = aged-id (decided m) m
    where
      aged-id : (d : DecayDecision) (m : Memory) → (aged d m).id ≡ m.id
      aged-id d m = same_id d.should_hard_delete d.should_archive
        where
          same_id :
              (a b : Bool)
              → (if a then soft_delete now m else if b then retired d m else rescored d m).id ≡ m.id
          same_id true b = refl
          same_id false true = refl
          same_id false false = refl

  only-id : (m r : Memory) → (only m r).id ≡ r.id
  only-id m r = elim (Bool-cases (r.id == m.id)) [
    | inl hit ↦ rw (hit) (outcome-id r)
    | inr miss ↦ rw (miss) refl
  ]

  only-IsOrdered :
      (m : Memory) (lo : ℕ) (t : Table) → IsOrdered lo t → IsOrdered lo (map (only m) t)
  only-IsOrdered m lo [] o = tt
  only-IsOrdered m lo (r ∷ t) o = (
    subst (λ n. lo < n) (sym (only-id m r)) o.0,
    subst (λ n. IsOrdered n (map (only m) t)) (sym (only-id m r)) (only-IsOrdered m r.id t o.1),
  )

  only-In : (m r : Memory) (t : Table) → (r.id == m.id) ≡ false → In r t → In r (map (only m) t)
  only-In m r [] h i = elim i [ ]
  only-In m r (x ∷ t) h (inl e) =
      let same : only m r ≡ r = rw (h) refl in inl (sym same ∙ ap (only m) e)
  only-In m r (x ∷ t) h (inr i) = inr (only-In m r t h i)

  decayed-miss :
      (ms : List Memory) (lo : ℕ) (r : Memory)
      → All (λ (x : Memory). lo < x.id) ms
      → r.id ≡ lo
      → decayed ms r ≡ r
  decayed-miss [] lo r h e = refl
  decayed-miss (m ∷ ms) lo r h e =
      let miss : (r.id == m.id) ≡ false = ground (arith, h.0, e) in
      rw (miss) (decayed-miss ms lo r h.1 e)

  decayed-only :
      (m : Memory) (ms : List Memory) (r : Memory)
      → All (λ (x : Memory). m.id < x.id) ms
      → decayed ms (only m r) ≡ decayed (m ∷ ms) r
  decayed-only m ms r h = elim (Bool-cases (r.id == m.id)) [
    | inl hit ↦ rw (hit) (decayed-miss ms m.id (outcome r) h (outcome-id r ∙ id_eq r.id m.id hit))
    | inr miss ↦ rw (miss) refl
  ]

  map-only :
      (m : Memory) (ms : List Memory) (t : Table)
      → All (λ (x : Memory). m.id < x.id) ms
      → map (decayed ms) (map (only m) t) ≡ map (decayed (m ∷ ms)) t
  map-only m ms [] h = refl
  map-only m ms (r ∷ t) h = λ i. decayed-only m ms r h i ∷ map-only m ms t h i

  map-same : (t : Table) → t ≡ map (decayed []) t
  map-same [] = refl
  map-same (r ∷ t) = ap (λ l. r ∷ l) (map-same t)

  pub tick_rows-map :
      (ms : List Memory) (lo : ℕ) (t : Table) (c : Counts)
      → IsOrdered 0 t
      → IsOrdered lo ms
      → All (λ m. In m t) ms
      → (tick_rows w now median ms t c).0 ≡ map (decayed ms) t
  unfolding tick_rows
  tick_rows-map [] lo t c o p h = map-same t
  tick_rows-map (m ∷ ms) lo t c o p h =
      let behind : All (λ (x : Memory). m.id < x.id) ms = IsOrdered-above m.id ms p.1 in
      let still : All (λ x. In x (map (only m) t)) ms = standing ms behind h.1 in
      ap (λ u. (tick_rows w now median ms u (count (decided m) c)).0) (turn-map m t o h.0)
      ∙ tick_rows-map ms m.id (map (only m) t) (count (decided m) c) (only-IsOrdered m 0 t o) p.1
          still
      ∙ map-only m ms t behind
    where
      standing :
          (xs : List Memory)
          → All (λ (x : Memory). m.id < x.id) xs
          → All (λ x. In x t) xs
          → All (λ x. In x (map (only m) t)) xs
      standing [] a b = tt
      standing (x ∷ xs) a b = (only-In m x t (ground (arith, a.0)) b.0, standing xs a.1 b.1)
