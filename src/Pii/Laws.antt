-- ===== src/Pii/Laws.antt =====
-- What the redaction of skills/pii_detector.py leaves of a text.
use kortex_memory.Prelude.{
  append_assoc, ℕ, zero, suc, ◌+◌, ◌-◌, ◌≤◌, ◌<◌, ◌≡◌, refl, sym, ◌∙◌, ap, subst, List, [], ◌∷◌,
  ◌++◌, Text, take, drop, length, length-append, length-take, length-drop, take-append-drop,
  sort_desc, sort_desc-All, insert_desc, All, Bool-cases, inl, inr, ltb, arith,
}
use kortex_memory.Pii.{
  PiiMatch, label, replace_one, replace_each, start_of, redact, dedupe_overlaps, keep_disjoint,
  order_matches, insert_match, before,
}

-- the matches stand one after the other, from `pos` to `end`
abbrev pub IsDisjoint : ℕ → ℕ → List PiiMatch → Type 0
IsDisjoint pos end [] = Unit
IsDisjoint pos end (m ∷ ms) =
    (pos ≤ m.start) × (m.start < m.stop) × (m.stop ≤ end) × IsDisjoint m.stop end ms

-- the text from `pos` on: what lies between the matches, and a label for each match
abbrev pub pieces : ℕ → List PiiMatch → Text → Text
pieces pos [] rest = rest
pieces pos (m ∷ ms) rest =
    take (m.start - pos) rest ++ label m.kind ++ pieces m.stop ms (drop (m.stop - pos) rest)

module _ {ℓ} {A : Type ℓ} where
  take-front :
      (n : ℕ) (xs ys : List A) → length xs ≤ n → take n (xs ++ ys) ≡ xs ++ take (n - length xs) ys
  take-front n [] ys h = ap (λ k. take k ys) (omega arith)
  take-front zero (x ∷ xs) ys h = absurd omega (arith, h)
  take-front (suc n) (x ∷ xs) ys h =
      ap (λ l. x ∷ l)
        (take-front n xs ys (omega (arith, h)) ∙ ap (λ k. xs ++ take k ys) (omega arith))

  take-within : (n : ℕ) (xs ys : List A) → n ≤ length xs → take n (xs ++ ys) ≡ take n xs
  take-within zero xs ys h = refl
  take-within (suc n) [] ys h = absurd omega (arith, h)
  take-within (suc n) (x ∷ xs) ys h = ap (λ l. x ∷ l) (take-within n xs ys (omega (arith, h)))

  drop-front : (n : ℕ) (xs ys : List A) → length xs ≡ n → drop n (xs ++ ys) ≡ ys
  drop-front zero [] ys h = refl
  drop-front zero (x ∷ xs) ys h = absurd omega (arith, h)
  drop-front (suc n) [] ys h = absurd omega (arith, h)
  drop-front (suc n) (x ∷ xs) ys h = drop-front n xs ys (omega (arith, h))

  take-take : (n k : ℕ) (xs : List A) → n ≤ k → take n (take k xs) ≡ take n xs
  take-take zero k xs h = refl
  take-take (suc n) zero xs h = absurd omega (arith, h)
  take-take (suc n) (suc k) [] h = refl
  take-take (suc n) (suc k) (x ∷ xs) h = ap (λ l. x ∷ l) (take-take n k xs (omega (arith, h)))

-- the first match is replaced last
insert_desc-last :
    (m : PiiMatch) (xs : List PiiMatch)
    → All (λ (y : PiiMatch). m.start < y.start) xs
    → insert_desc start_of m xs ≡ xs ++ m ∷ []
unfolding insert_desc
insert_desc-last m [] h = refl
insert_desc-last m (y ∷ xs) h = ground (arith, h.0, insert_desc-last m xs h.1)

replace_each-last :
    (xs : List PiiMatch) (m : PiiMatch) (t : Text)
    → replace_each (xs ++ m ∷ []) t ≡ replace_one m (replace_each xs t)
unfolding replace_each
replace_each-last [] m t = refl
replace_each-last (x ∷ xs) m t = replace_each-last xs m (replace_one x t)

IsDisjoint-above :
    (lo pos end : ℕ) (ms : List PiiMatch)
    → lo < pos
    → IsDisjoint pos end ms
    → All (λ (y : PiiMatch). lo < y.start) ms
IsDisjoint-above lo pos end [] h d = tt
IsDisjoint-above lo pos end (m ∷ ms) h d =
    (omega (arith, h, d.0), IsDisjoint-above lo m.stop end ms (omega (arith, h, d.0, d.1)) d.3)

replaced-pieces :
    (pos : ℕ) (ms : List PiiMatch) (pre rest : Text)
    → length pre ≡ pos
    → IsDisjoint pos (pos + length rest) ms
    → replace_each (sort_desc start_of ms) (pre ++ rest) ≡ pre ++ pieces pos ms rest
unfolding sort_desc replace_each
replaced-pieces pos [] pre rest h d = refl
replaced-pieces pos (m ∷ ms) pre rest h d =
    let sorted : List PiiMatch = sort_desc start_of ms in
    let a : Text = take (m.stop - pos) rest in
    let b : Text = drop (m.stop - pos) rest in
    let x : Text = pieces m.stop ms b in
    let size : length (pre ++ a) ≡ m.stop =
      length-append pre a ∙ omega (arith, h, length-take (m.stop - pos) rest, d.0, d.1, d.2) in
    let width : pos + length rest ≡ m.stop + length b =
      omega (arith, length-drop (m.stop - pos) rest, d.0, d.1, d.2) in
    let later : replace_each sorted ((pre ++ a) ++ b) ≡ (pre ++ a) ++ x =
      replaced-pieces m.stop ms (pre ++ a) b size (subst (λ e. IsDisjoint m.stop e ms) width d.3) in
    let whole : pre ++ rest ≡ (pre ++ a) ++ b =
      ap (λ l. pre ++ l) (sym (take-append-drop (m.stop - pos) rest))
      ∙ sym (append_assoc pre a b) in
    let front : take m.start ((pre ++ a) ++ x) ≡ pre ++ take (m.start - pos) rest =
      take-within m.start (pre ++ a) x (omega (arith, size, d.1))
      ∙ take-front m.start pre a (omega (arith, h, d.0))
      ∙ ap (λ k. pre ++ take (m.start - k) a) h
      ∙ ap (λ l. pre ++ l) (take-take (m.start - pos) (m.stop - pos) rest (omega (arith, d.1))) in
    ap (λ l. replace_each l (pre ++ rest))
      (insert_desc-last m sorted (
        sort_desc-All start_of (λ (y : PiiMatch). m.start < y.start) ms
          (IsDisjoint-above m.start m.stop (pos + length rest) ms d.1 d.3)))
    ∙ replace_each-last sorted m (pre ++ rest)
    ∙ ap (λ t. replace_one m (replace_each sorted t)) whole
    ∙ ap (replace_one m) later
    ∙ ap (λ l. l ++ label m.kind ++ drop m.stop ((pre ++ a) ++ x)) front
    ∙ ap (λ l. (pre ++ take (m.start - pos) rest) ++ label m.kind ++ l)
        (drop-front m.stop (pre ++ a) x size)
    ∙ ap (λ l. l ++ x) (append_assoc pre (take (m.start - pos) rest) (label m.kind))
    ∙ append_assoc pre (take (m.start - pos) rest ++ label m.kind) x

redact-pieces :
    (t : Text) (ms : List PiiMatch) → IsDisjoint 0 (length t) ms → redact t ms ≡ pieces 0 ms t
unfolding redact
redact-pieces t ms d =
    replaced-pieces 0 ms [] t refl (subst (λ e. IsDisjoint 0 e ms) (omega arith) d)

-- a match of a part of a text of the length `end` that is not empty
abbrev pub IsWithin : ℕ → PiiMatch → Type 0
IsWithin end m = (m.start < m.stop) × (m.stop ≤ end)

module _ {κ} (P : PiiMatch → Type κ) where
  insert_match-All :
      (x : PiiMatch) (xs : List PiiMatch) → P x → All P xs → All P (insert_match x xs)
  unfolding insert_match
  insert_match-All x [] p h = (p, tt)
  insert_match-All x (y ∷ ys) p h = elim (Bool-cases (before x y)) [
    | inl earlier ↦ rw (earlier, insert_match) (p, h)
    | inr later ↦ rw (later, insert_match) (h.0, insert_match-All x ys p h.1)
  ]

  order_matches-All : (xs : List PiiMatch) → All P xs → All P (order_matches xs)
  unfolding order_matches
  order_matches-All [] h = tt
  order_matches-All (x ∷ xs) h =
      insert_match-All x (order_matches xs) h.0 (order_matches-All xs h.1)

keep_disjoint-IsDisjoint :
    (reached end : ℕ) (ms : List PiiMatch)
    → All (IsWithin end) ms
    → IsDisjoint reached end (keep_disjoint reached ms)
unfolding keep_disjoint
keep_disjoint-IsDisjoint reached end [] h = tt
keep_disjoint-IsDisjoint reached end (m ∷ ms) h = elim (Bool-cases (ltb m.start reached)) [
  | inl overlaps ↦ rw (overlaps, keep_disjoint) (keep_disjoint-IsDisjoint reached end ms h.1)
  | inr clear ↦
      rw (clear, keep_disjoint)
        (ground (arith, clear), h.0.0, h.0.1, keep_disjoint-IsDisjoint m.stop end ms h.1)
]

-- The matches of a text, whatever their order and overlaps, are redacted after the overlaps are
-- resolved: then the result is what lies between the matches that were kept, unchanged and in order,
-- with the label of its kind for each of them, and these do not overlap.
pub redact-dedupe_overlaps :
    (t : Text) (ms : List PiiMatch)
    → All (IsWithin (length t)) ms
    → (redact t (dedupe_overlaps ms) ≡ pieces 0 (dedupe_overlaps ms) t)
      × IsDisjoint 0 (length t) (dedupe_overlaps ms)
unfolding dedupe_overlaps
redact-dedupe_overlaps t ms h =
    let d =
      keep_disjoint-IsDisjoint 0 (length t) (order_matches ms)
        (order_matches-All (IsWithin (length t)) ms h) in
    (redact-pieces t (dedupe_overlaps ms) d, d)
