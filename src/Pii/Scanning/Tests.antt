-- ===== src/Pii/Scanning/Tests.antt =====
-- The checks on ASCII texts, and a scan with patterns that find fixed spans.
use kortex_memory.Prelude.{
  ℕ, ◌-◌, ◌<◌, ◌≡◌, refl, true, false, ◌&&◌, [], ◌∷◌, Text, codes, map, All, leb, if◌then◌else◌,
  arith, leb→le,
}
use kortex_memory.Memories.{PiiKind}
use kortex_memory.Service.Reads.{and-both}
use kortex_memory.Pii.{PiiMatch}
use kortex_memory.Pii.Checksums.{Unicode, luhn_valid, iban_valid, ssn_plausible}
use kortex_memory.Pii.Checksums.Meaning.{IsUnicode}
use kortex_memory.Pii.Checksums.Laws.{luhn_valid-one_digit}
use kortex_memory.Pii.Scanning.{Patterns, scan, preview}
use kortex_memory.Pii.Scanning.Laws.{IsChecked, scan-IsChecked}

abbrev raised : ℕ → ℕ
raised c = if leb 97 c && leb c 122 then c - 32 else c

abbrev ascii : Unicode
ascii = record {
  is_digit = λ c. leb 48 c && leb c 57;
  is_decimal = λ c. leb 48 c && leb c 57;
  int_of = λ c. c - 48;
  upper = map raised;
}

abbrev patterns : Patterns
patterns = record {
  email = λ t. [];
  secret_prefixes = λ t. [];
  card = λ t.
      record { start = 0; stop = 16; group = codes "4111111111111111" }
      ∷ record { start = 17; stop = 33; group = codes "4111111111111112" }
      ∷ [];
  iban = λ t. [];
  ssn = λ t. [];
  phone = λ t. [];
  ipv4 = λ t.
      record { start = 34; stop = 41; group = codes "8.8.8.8" }
      ∷ record { start = 42; stop = 51; group = codes "8.8.8.256" }
      ∷ [];
  private_v4 = λ t. false;
}

abbrev page : Text
page = codes "4111111111111111 4111111111111112 8.8.8.8 8.8.8.256"

card_checks :
    (luhn_valid ascii (codes "4111111111111111") ≡ true)
    × (luhn_valid ascii (codes "4111111111111112") ≡ false)
unfolding luhn_valid
card_checks = (refl, refl)

iban_checks :
    (iban_valid ascii (codes "gb82 WEST 1234 5698 7654 32") ≡ true)
    × (iban_valid ascii (codes "GB82 WEST 1234 5698 7654 33") ≡ false)
unfolding iban_valid
iban_checks = (refl, refl)

ssn_checks :
    (ssn_plausible ascii (codes "123-45-6789") ≡ true)
    × (ssn_plausible ascii (codes "666-45-6789") ≡ false)
unfolding ssn_plausible
ssn_checks = (refl, refl)

scanned : map (λ (m : PiiMatch). m.start) (scan ascii patterns page) ≡ 0 ∷ 34 ∷ []
unfolding scan
scanned = refl

previewed :
    preview (record { kind = PiiKind.email; start = 0; stop = 7; value = codes "abc@d.e" })
    ≡ codes "ab….e"
unfolding preview
previewed = refl

small : (c : ℕ) → ascii.is_digit c ≡ true → ascii.int_of c < 10
small c h = omega (arith, leb→le c 57 (and-both (leb 48 c) (leb c 57) h).1)

valid : luhn_valid ascii (codes "4111111111111111") ≡ true
unfolding luhn_valid
valid = refl

luhn_valid-one_digit_example : ascii.int_of 52 ≡ ascii.int_of 52
luhn_valid-one_digit_example =
    luhn_valid-one_digit ascii small [] (codes "111111111111111") 52 52 valid valid

ascii-IsUnicode : IsUnicode ascii
ascii-IsUnicode = record {
  digit = small;
  decimal = small;
  ascii = λ c low high. omega (arith, low, high);
}

scan-IsChecked_example : All (IsChecked ascii patterns page) (scan ascii patterns page)
scan-IsChecked_example = scan-IsChecked ascii ascii-IsUnicode patterns page
