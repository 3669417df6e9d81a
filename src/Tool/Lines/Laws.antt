-- ===== src/Tool/Lines/Laws.antt =====
-- What a view shows and what an insertion leaves, line by line.
use kortex_memory.Prelude.{
  ℕ, zero, suc, ◌+◌, ◌-◌, ◌≤◌, ◌≡◌, refl, sym, ◌∙◌, ap, Option, none, some, List, [], ◌∷◌, Text,
  ltb, All, take-All, drop-All, length, take, drop, length-take, length-drop, Bool-cases, inl, inr,
  arith,
}
use kortex_memory.Tool.{ℤ, pos, negsuc, Value, item, seq}
use kortex_memory.Tool.Texts.Splitting.{IsFree, split-join, split-All}
use kortex_memory.Tool.Lines.{
  newline, lines_of, unlines, first_line, last_line, window_from, windowed, int_of, slice, shown,
}

-- a text and the number of its first line are lines of the body at their own numbers
pub record IsWindow (body : Text) (r : Text × ℕ) : Type 0 where
  pub start : 1 ≤ r.1
  pub end : r.1 + length (lines_of r.0) ≤ suc (length (lines_of body))
  pub lines : lines_of r.0 ≡ take (length (lines_of r.0)) (drop (r.1 - 1) (lines_of body))

take-length : {A : Type 0} (xs : List A) → take (length xs) xs ≡ xs
take-length [] = refl
take-length (x ∷ xs) = ap (λ l. x ∷ l) (take-length xs)

whole-IsWindow : (body : Text) → IsWindow body (body, 1)
whole-IsWindow body = record {
  start = omega arith;
  end = omega arith;
  lines = sym (take-length (lines_of body));
}

take_nothing : {A : Type 0} (n : ℕ) → [] ≡ take {A = A} n []
take_nothing zero = refl
take_nothing (suc n) = refl

drop-take : {A : Type 0} (n k : ℕ) (xs : List A) → drop n (take k xs) ≡ take (k - n) (drop n xs)
drop-take zero k xs = let same : k ≡ k - 0 = omega arith in ap (λ j. take j xs) same
drop-take (suc n) zero xs =
    let same : 0 ≡ 0 - suc n = omega arith in ap (λ j. take j (drop (suc n) xs)) same
drop-take (suc n) (suc k) [] = take_nothing (suc k - suc n)
drop-take (suc n) (suc k) (x ∷ xs) =
    let same : k - n ≡ suc k - suc n = omega arith in
    drop-take n k xs ∙ ap (λ j. take j (drop n xs)) same

-- lines that hold no newline come back from their text
pub lines_of-unlines :
    (ts : List Text) → 1 ≤ length ts → All (IsFree newline) ts → lines_of (unlines ts) ≡ ts
lines_of-unlines [] h f = absurd omega (arith, h)
lines_of-unlines (t ∷ ts) h f = split-join newline t ts f

between-IsWindow :
    (body : Text) (start end : ℕ)
    → 1 ≤ start
    → start ≤ end
    → end ≤ length (lines_of body)
    → IsWindow body (unlines (drop (start - 1) (take end (lines_of body))), start)
between-IsWindow body start end s w e =
    let all : List Text = lines_of body in
    let ts : List Text = drop (start - 1) (take end all) in
    let size : length ts ≡ end - (start - 1) =
      omega (arith, length-drop (start - 1) (take end all), length-take end all, e) in
    let same : lines_of (unlines ts) ≡ ts = lines_of-unlines ts (omega (arith, size, s, w)) (
      drop-All (IsFree newline) (start - 1) (take end all)
        (take-All (IsFree newline) end all (split-All newline body))) in
    record {
      start = s;
      end = omega (arith, ap length same, size, s, w, e);
      lines =
          same
          ∙ drop-take (start - 1) end all
          ∙ ap (λ k. take k (drop (start - 1) all)) (sym (ap length same ∙ size));
    }

window_from-IsWindow :
    (body : Text) (start end : ℕ)
    → 1 ≤ start
    → end ≤ length (lines_of body)
    → IsWindow body (window_from body start end)
window_from-IsWindow body start end s e = elim (Bool-cases (ltb end start)) [
  | inl empty ↦ rw (empty) (whole-IsWindow body)
  | inr full ↦ rw (full) (between-IsWindow body start end s (ground (arith, full)) e)
]

last_line-bound : (total : ℕ) (z : ℤ) → last_line total z ≤ total
last_line-bound total (pos n) = omega arith
last_line-bound total (negsuc zero) = omega arith
last_line-bound total (negsuc (suc n)) = omega arith

first_line-bound : (z : ℤ) → 1 ≤ first_line z
first_line-bound (pos n) = omega arith
first_line-bound (negsuc n) = omega arith

module _ (int_of_text : Text → Option ℤ) where
  windowed-IsWindow : (body : Text) (a b : Option ℤ) → IsWindow body (windowed int_of_text body a b)
  windowed-IsWindow body (some a) (some b) =
      window_from-IsWindow body (first_line a) (last_line (length (lines_of body)) b)
        (first_line-bound a) (last_line-bound (length (lines_of body)) b)
  windowed-IsWindow body (some a) none = whole-IsWindow body
  windowed-IsWindow body none b = whole-IsWindow body

  -- Whatever `view_range` is, the lines that a view shows are lines of the file that follow one another,
  -- and each stands in the file at the number that the view gives it; they end within the file.
  pub shown-IsWindow : (body : Text) (v : Value) → IsWindow body (shown int_of_text body v)
  unfolding shown slice
  shown-IsWindow body (item v) = whole-IsWindow body
  shown-IsWindow body (seq []) = whole-IsWindow body
  shown-IsWindow body (seq (a ∷ [])) = whole-IsWindow body
  shown-IsWindow body (seq (a ∷ b ∷ [])) =
      windowed-IsWindow body (int_of int_of_text a) (int_of int_of_text b)
  shown-IsWindow body (seq (a ∷ b ∷ c ∷ vs)) = whole-IsWindow body
