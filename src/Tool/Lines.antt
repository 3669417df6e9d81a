-- ===== src/Tool/Lines.antt =====
-- The lines of a file of packages/kortex-core/src/kortex_core/memory_tool.py: the window of a view, the
-- numbers, the insertion and the replacement. What Python's `int` reads in a text is the parameter
-- `int_of_text`.
pub mod Laws
pub mod Inserting
use kortex_memory.Prelude.{
  ℕ, zero, suc, ◌+◌, ◌-◌, ◌*◌, ◌/◌, ◌%◌, min, max, Bool, true, false, ◌&&◌, ◌||◌, Option, none,
  some, List, [], ◌∷◌, ◌++◌, Text, ltb, leb, ◌==◌, length, take, drop, if◌then◌else◌,
}
use kortex_memory.Tool.{
  ℤ, pos, negsuc, Value, Item, item, seq, null, object, flag, number, real, text, max_lines,
}
use kortex_memory.Tool.Texts.{split_on, join_with, count_from, contains, rstrip_of}

abbrev pub newline : ℕ
newline = 10

abbrev pub lines_of : Text → List Text
lines_of = split_on newline

abbrev pub unlines : List Text → Text
unlines = join_with newline

-- `max(1, start)`
abbrev pub first_line : ℤ → ℕ
first_line (pos n) = max 1 n
first_line (negsuc n) = 1

-- `len(lines) if end == -1 else min(end, len(lines))`; another negative end is below every start
abbrev pub last_line : ℕ → ℤ → ℕ
last_line total (pos n) = min n total
last_line total (negsuc zero) = total
last_line total (negsuc (suc n)) = 0

abbrev pub window_from : Text → ℕ → ℕ → Text × ℕ
window_from body start end =
    if ltb end start
    then (body, 1)
    else (unlines (drop (start - 1) (take end (lines_of body))), start)

module _ (int_of_text : Text → Option ℤ) where
  -- `int(value)`, or the `TypeError` or `ValueError` that `_slice` catches; that of an infinity, which it
  -- does not catch, has no model
  abbrev pub int_of : Item → Option ℤ
  int_of null = none
  int_of object = none
  int_of (flag true) = some (pos 1)
  int_of (flag false) = some (pos 0)
  int_of (number n) = some n
  int_of (real n) = n
  int_of (text t) = int_of_text t

  abbrev pub windowed : Text → Option ℤ → Option ℤ → Text × ℕ
  windowed body (some start) (some end) =
      window_from body (first_line start) (last_line (length (lines_of body)) end)
  windowed body (some start) none = (body, 1)
  windowed body none end = (body, 1)

  -- `_slice`
  unfoldable pub slice : Text → Item → Item → Text × ℕ
  unfolding split_on join_with
  slice body start end = windowed body (int_of start) (int_of end)

  -- the window of a view: only a list of two is one
  unfoldable pub shown : Text → Value → Text × ℕ
  unfolding slice
  shown body (item v) = (body, 1)
  shown body (seq []) = (body, 1)
  shown body (seq (a ∷ [])) = (body, 1)
  shown body (seq (a ∷ b ∷ [])) = slice body a b
  shown body (seq (a ∷ b ∷ c ∷ vs)) = (body, 1)

-- `body.count("\n") + 1 > MAX_LINES`
abbrev pub is_too_long : Text → Bool
is_too_long body = ltb max_lines (count_from 0 (newline ∷ []) body + 1)

-- `lines.insert(line_no, text.rstrip("\n"))`
unfoldable pub insert_line : ℕ → Text → Text → Text
unfolding split_on join_with rstrip_of
insert_line n t body =
    unlines (take n (lines_of body) ++ rstrip_of newline t ∷ drop n (lines_of body))

-- the numbers of the lines that hold a text, from `n` on
unfoldable pub lines_with : Text → ℕ → List Text → List ℕ
unfolding contains
lines_with old n [] = []
lines_with old n (t ∷ ts) =
    let rest = lines_with old (suc n) ts in if contains old t then n ∷ rest else rest

-- the decimal digits of a number; the number itself is enough fuel
unfoldable pub digits : ℕ → ℕ → Text
digits zero n = []
digits (suc fuel) n =
    let last = (48 + n % 10) ∷ [] in
    let front = digits fuel (n / 10) in if ltb n 10 then last else front ++ last

unfoldable pub decimal : ℕ → Text
unfolding digits
decimal n = digits (suc n) n

abbrev pub spaces : ℕ → Text
spaces zero = []
spaces (suc n) = 32 ∷ spaces n

-- `f"{i:6d}"`
unfoldable pub padded : ℕ → Text
unfolding decimal
padded n = spaces (6 - length (decimal n)) ++ decimal n

unfoldable pub number_lines : ℕ → List Text → List Text
unfolding padded
number_lines n [] = []
number_lines n (t ∷ ts) = (padded n ++ 9 ∷ t) ∷ number_lines (suc n) ts

-- `_numbered`
unfoldable pub numbered : ℕ → Text → Text
unfolding number_lines split_on join_with
numbered first body = unlines (number_lines first (lines_of body))
