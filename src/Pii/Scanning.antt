-- ===== src/Pii/Scanning.antt =====
-- `RegexPiiDetector` of packages/kortex-core/src/kortex_core/skills/pii_detector.py. What the regular
-- expressions find is a parameter.
pub mod Laws
mod Tests
use kortex_memory.Prelude.{
  ℕ, ◌-◌, Bool, true, false, not, ◌&&◌, ◌||◌, List, [], ◌∷◌, ◌++◌, Text, take, drop, length, ltb,
  leb, if◌then◌else◌,
}
use kortex_memory.Memories.{PiiKind}
use kortex_memory.Tool.Texts.{split_on}
use kortex_memory.Pii.{PiiMatch, dedupe_overlaps}
use kortex_memory.Pii.Checksums.{
  Unicode, without, luhn_valid, iban_valid, ssn_plausible, decimal_number,
}

-- a match of a regular expression
pub record Span : Type 0 where
  pub start : ℕ
  pub stop : ℕ
  pub group : Text

pub record Patterns : Type 0 where
  pub email : Text → List Span
  pub secret_prefixes : Text → List Span
  pub card : Text → List Span
  pub iban : Text → List Span
  pub ssn : Text → List Span
  pub phone : Text → List Span
  pub ipv4 : Text → List Span
  pub private_v4 : Text → Bool

abbrev stars : Text → Text
stars [] = []
stars (c ∷ cs) = 42 ∷ stars cs

unfoldable pub preview : PiiMatch → Text
preview m =
    if leb (length m.value) 4
    then stars m.value
    else take 2 m.value ++ 8230 ∷ drop (length m.value - 2) m.value

abbrev pub match_of : PiiKind → Span → PiiMatch
match_of kind x = record { kind = kind; start = x.start; stop = x.stop; value = x.group }

-- the matches of a kind that pass its test
abbrev pub passing : PiiKind → (Text → Bool) → List Span → List PiiMatch
passing kind test [] = []
passing kind test (x ∷ xs) =
    let rest = passing kind test xs in if test x.group then match_of kind x ∷ rest else rest

module _ (u : Unicode) (patterns : Patterns) where
  abbrev pub any_test : Text → Bool
  any_test t = true

  abbrev pub card_test : Text → Bool
  card_test raw = luhn_valid u (without 45 (without 32 raw))

  abbrev pub any_above : List Text → Bool
  any_above [] = false
  any_above (o ∷ os) = ltb 255 (decimal_number u 0 o) || any_above os

  -- a well-formed address outside the private ranges
  abbrev pub ip_test : Text → Bool
  ip_test raw = not (any_above (split_on 46 raw)) && not (patterns.private_v4 raw)

  -- the loops of `scan`, one kind after the other
  abbrev pub all_matches : Text → List PiiMatch
  all_matches text =
      passing PiiKind.email any_test (patterns.email text)
      ++ (passing PiiKind.secret any_test (patterns.secret_prefixes text)
          ++ (passing PiiKind.card card_test (patterns.card text)
              ++ (passing PiiKind.iban (iban_valid u) (patterns.iban text)
                  ++ (passing PiiKind.ssn (ssn_plausible u) (patterns.ssn text)
                      ++ (passing PiiKind.phone any_test (patterns.phone text)
                          ++ passing PiiKind.ip ip_test (patterns.ipv4 text))))))

  unfoldable pub scan : Text → List PiiMatch
  unfolding luhn_valid iban_valid ssn_plausible split_on dedupe_overlaps
  scan [] = []
  scan (c ∷ cs) = dedupe_overlaps (all_matches (c ∷ cs))
