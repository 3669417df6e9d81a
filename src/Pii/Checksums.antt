-- ===== src/Pii/Checksums.antt =====
-- The checks of packages/kortex-core/src/kortex_core/skills/pii_detector.py that a match has to pass. The
-- tables of Unicode are a parameter: `isdigit`, the class `\d`, `int` of one digit, and `upper`. `int`
-- raises for a digit outside `\d`, such as a superscript; the patterns of the callers match none.
pub mod Laws
pub mod Meaning
use kortex_memory.Prelude.{
  ℕ, suc, ◌+◌, ◌-◌, ◌*◌, ◌%◌, Bool, true, false, not, ◌&&◌, ◌||◌, List, [], ◌∷◌, ◌++◌, Text, codes,
  take, drop, keep, length, ltb, leb, ◌==◌, text_eq, if◌then◌else◌,
}

pub record Unicode : Type 0 where
  pub is_digit : ℕ → Bool
  pub is_decimal : ℕ → Bool
  pub int_of : ℕ → ℕ
  pub upper : Text → Text

abbrev pub every : (ℕ → Bool) → Text → Bool
every f [] = true
every f (c ∷ cs) = f c && every f cs

-- `t.replace(c, "")`
abbrev pub without : ℕ → Text → Text
without c t = keep (λ d. not (d == c)) t

-- the value that a digit adds to the sum, doubled at every second place
abbrev pub weighed : Bool → ℕ → ℕ
weighed false v = v
weighed true v = if ltb 9 (v * 2) then v * 2 - 9 else v * 2

module _ (u : Unicode) where
  unfoldable pub luhn_sum : ℕ → ℕ → Text → ℕ
  luhn_sum parity index [] = 0
  luhn_sum parity index (c ∷ cs) =
      weighed (index % 2 == parity) (u.int_of c) + luhn_sum parity (suc index) cs

  unfoldable pub luhn_valid : Text → Bool
  unfolding luhn_sum
  luhn_valid digits =
      if not (every u.is_digit digits) || not (leb 12 (length digits) && leb (length digits) 19)
      then false
      else luhn_sum (length digits % 2) 0 digits % 10 == 0

  abbrev pub is_letter : ℕ → Bool
  is_letter c = leb 65 c && leb c 90

  -- `[A-Z0-9]`
  abbrev pub is_letter_or_digit : ℕ → Bool
  is_letter_or_digit c = is_letter c || leb 48 c && leb c 57

  -- `[A-Z]{2}\d{2}[A-Z0-9]{10,30}`
  abbrev pub has_iban_shape : Text → Bool
  has_iban_shape t =
      leb 14 (length t)
      && leb (length t) 34
      && every is_letter (take 2 t)
      && every u.is_decimal (take 2 (drop 2 t))
      && every is_letter_or_digit (drop 4 t)

  -- `int(c, 36)`
  abbrev base36 : ℕ → ℕ
  base36 c = if is_letter c then c - 55 else u.int_of c

  -- the number whose decimals are those of `n` and then those of `v`
  abbrev join_decimals : ℕ → ℕ → ℕ
  join_decimals n v = if ltb v 10 then n * 10 + v else n * 100 + v

  abbrev pub numeric : ℕ → Text → ℕ
  numeric n [] = n
  numeric n (c ∷ cs) = numeric (join_decimals n (base36 c)) cs

  unfoldable pub iban_valid : Text → Bool
  iban_valid candidate =
      let compact = u.upper (without 32 candidate) in
      if has_iban_shape compact
      then numeric 0 (drop 4 compact ++ take 4 compact) % 97 == 1
      else false

  abbrev pub starts_with_nine : Text → Bool
  starts_with_nine [] = false
  starts_with_nine (c ∷ cs) = c == 57

  unfoldable pub ssn_plausible : Text → Bool
  unfolding text_eq
  ssn_plausible candidate =
      let digits = without 32 (without 45 candidate) in
      let area = take 3 digits in
      if not (length digits == 9) || not (every u.is_digit digits)
      then false
      else if text_eq area (codes "000") || text_eq area (codes "666") || starts_with_nine area
      then false
      else not (text_eq (take 2 (drop 3 digits)) (codes "00"))
        && not (text_eq (drop 5 digits) (codes "0000"))

  -- `int` of a text of decimals
  abbrev pub decimal_number : ℕ → Text → ℕ
  decimal_number n [] = n
  decimal_number n (c ∷ cs) = decimal_number (n * 10 + u.int_of c) cs
