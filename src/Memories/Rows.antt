-- ===== src/Memories/Rows.antt =====
-- A flush changes the row that was read and no other: the ids of a table grow along it.
use kortex_memory.Prelude.{
  ℕ, ◌≤◌, ◌<◌, sym, ◌∙◌, ◌≡◌, refl, ap, Bool, true, false, none, some, [], ◌∷◌, ◌++◌, length, All,
  All-map, subst, inl, inr, Bool-cases, arith,
}
use kortex_memory.Memories.{Memory, Table, find, replace_row}

-- the ids grow along the table, from `lo` on
abbrev pub IsOrdered : ℕ → Table → Type 0
IsOrdered lo [] = Unit
IsOrdered lo (m ∷ ms) = (lo < m.id) × IsOrdered m.id ms

-- the row at which a query found `m`, and what a flush of it does
pub record Found (test : Memory → Bool) (rows : Table) (m : Memory) : Type 0 where
  pub before : Table
  pub after : Table
  pub parts : rows ≡ before ++ m ∷ after
  pub passes : test m ≡ true
  pub first : All (λ (r : Memory). test r ≡ false) before
  pub replaced : (m' : Memory) → m'.id ≡ m.id → replace_row m' rows ≡ before ++ m' ∷ after

replace_row-above :
    (m : Memory) (lo : ℕ) (rows : Table) → m.id ≤ lo → IsOrdered lo rows → replace_row m rows ≡ rows
unfolding replace_row
replace_row-above m lo [] h o = refl
replace_row-above m lo (r ∷ rs) h o = ground (arith, replace_row-above m r.id rs)

-- `replace_row` at the row itself and past another one
replace_row-here :
    (r m m' : Memory) (rs : Table)
    → r ≡ m
    → m'.id ≡ m.id
    → IsOrdered r.id rs
    → replace_row m' (r ∷ rs) ≡ m' ∷ rs
unfolding replace_row
replace_row-here r m m' rs e i o =
    ground (arith, ap (λ (x : Memory). x.id) e, replace_row-above m' r.id rs)

replace_row-past :
    (r m' : Memory) (rs : Table) → r.id < m'.id → replace_row m' (r ∷ rs) ≡ r ∷ replace_row m' rs
unfolding replace_row
replace_row-past r m' rs h = ground arith

find-hit :
    (test : Memory → Bool) (r : Memory) (rs : Table) {m : Memory}
    → test r ≡ true
    → find test (r ∷ rs) ≡ some m
    → r ≡ m
unfolding find
find-hit test r rs t h = ground arith

find-miss :
    (test : Memory → Bool) (r : Memory) (rs : Table) {m : Memory}
    → test r ≡ false
    → find test (r ∷ rs) ≡ some m
    → find test rs ≡ some m
unfolding find
find-miss test r rs t h = ground arith

find-empty : (test : Memory → Bool) {m : Memory} → find test [] ≡ some m → ⊥
unfolding find
find-empty test h = cc h

lt-Found :
    (test : Memory → Bool) (lo : ℕ) (rows : Table) {m : Memory}
    → IsOrdered lo rows
    → find test rows ≡ some m
    → lo < m.id
lt-Found test lo [] o h = absurd (find-empty test h)
lt-Found test lo (r ∷ rs) o h = elim (Bool-cases (test r)) [
  | inl hit ↦ omega (arith, ap (λ (x : Memory). x.id) (find-hit test r rs hit h), o.0)
  | inr miss ↦ omega (arith, lt-Found test r.id rs o.1 (find-miss test r rs miss h), o.0)
]

pub found :
    (test : Memory → Bool) (lo : ℕ) (rows : Table) {m : Memory}
    → IsOrdered lo rows
    → find test rows ≡ some m
    → Found test rows m
found test lo [] o h = absurd (find-empty test h)
found test lo (r ∷ rs) {m} o h = elim (Bool-cases (test r)) [
  | inl hit ↦
      let e = find-hit test r rs hit h in
      record {
        before = [];
        after = rs;
        parts = ap (λ x. x ∷ rs) e;
        passes = ap test (sym e) ∙ hit;
        first = tt;
        replaced = λ m' i. replace_row-here r m m' rs e i o.1;
      }
  | inr miss ↦
      let rest = found test r.id rs o.1 (find-miss test r rs miss h) in
      let above : r.id < m.id = lt-Found test r.id rs o.1 (find-miss test r rs miss h) in
      record {
        before = r ∷ rest.before;
        after = rest.after;
        parts = ap (λ l. r ∷ l) rest.parts;
        passes = rest.passes;
        first = (miss, rest.first);
        replaced = λ m' i.
            replace_row-past r m' rs (omega (arith, above, i))
            ∙ ap (λ l. r ∷ l) (rest.replaced m' i);
      }
]

find-past :
    (test : Memory → Bool) (xs : Table) (m : Memory) (ys : Table)
    → All (λ (r : Memory). test r ≡ false) xs
    → find test (xs ++ m ∷ ys) ≡ find test (m ∷ ys)
unfolding find
find-past test [] m ys h = refl
find-past test (x ∷ xs) m ys h = ground (arith, h.0, find-past test xs m ys h.1)

-- after the flush the same query finds the new content
pub find-replaced :
    (test : Memory → Bool) (t : Table) (m m' : Memory)
    → Found test t m
    → m'.id ≡ m.id
    → test m' ≡ true
    → find test (replace_row m' t) ≡ some m'
unfolding find
find-replaced test t m m' f i passes =
    ap (find test) (f.replaced m' i)
    ∙ find-past test f.before m' f.after f.first
    ∙ ground (arith, passes)

find-nowhere :
    (test : Memory → Bool) (xs : Table)
    → All (λ (r : Memory). test r ≡ false) xs
    → find test xs ≡ none
unfolding find
find-nowhere test [] h = refl
find-nowhere test (x ∷ xs) h = ground (arith, h.0, find-nowhere test xs h.1)

-- after the flush the query finds nothing, when no later row passes
pub find-removed :
    (test : Memory → Bool) (t : Table) (m m' : Memory) (f : Found test t m)
    → m'.id ≡ m.id
    → test m' ≡ false
    → All (λ (r : Memory). test r ≡ false) f.after
    → find test (replace_row m' t) ≡ none
unfolding find
find-removed test t m m' f i fails rest =
    ap (find test) (f.replaced m' i)
    ∙ find-past test f.before m' f.after f.first
    ∙ find-nowhere test (m' ∷ f.after) (fails, rest)

-- the rows that stand behind a row have larger ids
IsOrdered-after :
    (lo : ℕ) (xs : Table) (m : Memory) (ys : Table)
    → IsOrdered lo (xs ++ m ∷ ys)
    → IsOrdered m.id ys
IsOrdered-after lo [] m ys o = o.1
IsOrdered-after lo (x ∷ xs) m ys o = IsOrdered-after x.id xs m ys o.1

pub IsOrdered-above : (lo : ℕ) (ys : Table) → IsOrdered lo ys → All (λ (r : Memory). lo < r.id) ys
IsOrdered-above lo [] o = tt
IsOrdered-above lo (y ∷ ys) o =
    (o.0, All-map ys (λ r h. omega (arith, h, o.0)) (IsOrdered-above y.id ys o.1))

pub Found-after :
    (test : Memory → Bool) (t : Table) (m : Memory) (f : Found test t m)
    → IsOrdered 0 t
    → All (λ (r : Memory). m.id < r.id) f.after
Found-after test t m f o =
    IsOrdered-above m.id f.after
      (IsOrdered-after 0 f.before m f.after (subst (IsOrdered 0) f.parts o))

pub length-replace_row : (m : Memory) (t : Table) → length (replace_row m t) ≡ length t
unfolding replace_row
length-replace_row m [] = refl
length-replace_row m (r ∷ t) = rw (length-replace_row m t)
