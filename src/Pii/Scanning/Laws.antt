-- ===== src/Pii/Scanning/Laws.antt =====
-- The matches that a scan reports.
use kortex_memory.Prelude.{
  ℕ, ◌+◌, ◌*◌, ◌≤◌, ◌≡◌, refl, Bool, true, false, not, List, [], ◌∷◌, ◌++◌, Text, map, All, All-map,
  In, append-All, Bool-cases, inl, inr, ltb, arith,
}
use kortex_memory.Memories.{PiiKind}
use kortex_memory.Pii.{
  PiiMatch, before, insert_match, order_matches, keep_disjoint, dedupe_overlaps,
}
use kortex_memory.Service.Reads.{and-both}
use kortex_memory.Tool.Texts.{split_on}
use kortex_memory.Tool.Texts.Splitting.{or-neither}
use kortex_memory.Pii.Checksums.{Unicode, without, iban_valid, ssn_plausible, decimal_number}
use kortex_memory.Pii.Checksums.Meaning.{
  IsUnicode, IsCard, IsIban, IsSsn, number_of, luhn_valid-IsCard, iban_valid-IsIban,
  ssn_plausible-IsSsn,
}
use kortex_memory.Pii.Scanning.{
  Span, Patterns, passing, match_of, any_test, any_above, card_test, ip_test, all_matches, scan,
}

-- what holds of every match holds of those that are kept
module _ (P : PiiMatch → Type 0) where
  insert_match-All :
      (x : PiiMatch) (xs : List PiiMatch) → P x → All P xs → All P (insert_match x xs)
  unfolding insert_match
  insert_match-All x [] h k = (h, tt)
  insert_match-All x (y ∷ ys) h k = elim (Bool-cases (before x y)) [
    | inl first ↦ rw (first) (h, k)
    | inr later ↦ rw (later) (k.0, insert_match-All x ys h k.1)
  ]

  order_matches-All : (xs : List PiiMatch) → All P xs → All P (order_matches xs)
  unfolding order_matches
  order_matches-All [] h = tt
  order_matches-All (x ∷ xs) h =
      insert_match-All x (order_matches xs) h.0 (order_matches-All xs h.1)

  keep_disjoint-All :
      (reached : ℕ) (xs : List PiiMatch) → All P xs → All P (keep_disjoint reached xs)
  unfolding keep_disjoint
  keep_disjoint-All reached [] h = tt
  keep_disjoint-All reached (x ∷ xs) h = elim (Bool-cases (ltb x.start reached)) [
    | inl skipped ↦ rw (skipped) (keep_disjoint-All reached xs h.1)
    | inr kept ↦ rw (kept) (h.0, keep_disjoint-All x.stop xs h.1)
  ]

  passing-All :
      (kind : PiiKind) (test : Text → Bool) (all : List Span)
      → ((x : Span) → In x all → test x.group ≡ true → P (match_of kind x))
      → (xs : List Span) → All (λ x. In x all) xs
      → All P (passing kind test xs)
  passing-All kind test all h [] k = tt
  passing-All kind test all h (x ∷ xs) k = elim (Bool-cases (test x.group)) [
    | inl passes ↦ rw (passes) (h x k.0 passes, passing-All kind test all h xs k.1)
    | inr fails ↦ rw (fails) (passing-All kind test all h xs k.1)
  ]

In-All : (xs : List Span) → All (λ x. In x xs) xs
In-All [] = tt
In-All (x ∷ xs) = (inl refl, All-map xs (λ y i. inr i) (In-All xs))

-- no part is more than 255, and the address lies outside the private ranges
pub record IsAddress (u : Unicode) (patterns : Patterns) (t : Text) : Type 0 where
  pub parts : All (λ part. number_of 0 (map u.int_of part) ≤ 255) (split_on 46 t)
  pub public : patterns.private_v4 t ≡ false

module _ (u : Unicode) (patterns : Patterns) where
  -- what the text of a match is, by its kind
  abbrev pub IsOfKind : PiiKind → Text → Type 0
  IsOfKind PiiKind.email t = Unit
  IsOfKind PiiKind.secret t = Unit
  IsOfKind PiiKind.card t = IsCard u (without 45 (without 32 t))
  IsOfKind PiiKind.iban t = IsIban u (u.upper (without 32 t))
  IsOfKind PiiKind.ssn t = IsSsn u (without 32 (without 45 t))
  IsOfKind PiiKind.phone t = Unit
  IsOfKind PiiKind.ip t = IsAddress u patterns t

  -- the spans that the expression of a kind finds
  abbrev pub spans_of : PiiKind → Text → List Span
  spans_of PiiKind.email = patterns.email
  spans_of PiiKind.secret = patterns.secret_prefixes
  spans_of PiiKind.card = patterns.card
  spans_of PiiKind.iban = patterns.iban
  spans_of PiiKind.ssn = patterns.ssn
  spans_of PiiKind.phone = patterns.phone
  spans_of PiiKind.ip = patterns.ipv4

  -- a match is a span that the expression of its kind finds, and what its kind says
  pub record IsChecked (text : Text) (m : PiiMatch) : Type 0 where
    pub span : Span
    pub is : m ≡ match_of m.kind span
    pub found : In span (spans_of m.kind text)
    pub of_kind : IsOfKind m.kind m.value

module _ (u : Unicode) (laws : IsUnicode u) (patterns : Patterns) where
  abbrev test_of : PiiKind → Text → Bool
  test_of PiiKind.email = any_test u patterns
  test_of PiiKind.secret = any_test u patterns
  test_of PiiKind.card = card_test u patterns
  test_of PiiKind.iban = iban_valid u
  test_of PiiKind.ssn = ssn_plausible u
  test_of PiiKind.phone = any_test u patterns
  test_of PiiKind.ip = ip_test u patterns

  decimal_number-number_of :
      (n : ℕ) (t : Text) → decimal_number u n t ≡ number_of n (map u.int_of t)
  decimal_number-number_of n [] = refl
  decimal_number-number_of n (c ∷ cs) = decimal_number-number_of (n * 10 + u.int_of c) cs

  parts_small :
      (ts : List Text)
      → any_above u patterns ts ≡ false
      → All (λ part. number_of 0 (map u.int_of part) ≤ 255) ts
  parts_small [] h = tt
  parts_small (t ∷ ts) h =
      let r = or-neither (ltb 255 (decimal_number u 0 t)) _ h in
      let same = decimal_number-number_of 0 t in (ground (arith, r.0, same), parts_small ts r.1)

  ip_test-IsAddress : (t : Text) → ip_test u patterns t ≡ true → IsAddress u patterns t
  ip_test-IsAddress t h =
      let r = and-both (not (any_above u patterns (split_on 46 t))) _ h in
      record {
        parts = parts_small (split_on 46 t) (ground (arith, r.0));
        public = ground (arith, r.1);
      }

  test_of-IsOfKind : (k : PiiKind) (t : Text) → test_of k t ≡ true → IsOfKind u patterns k t
  test_of-IsOfKind PiiKind.email t h = tt
  test_of-IsOfKind PiiKind.secret t h = tt
  test_of-IsOfKind PiiKind.card t h = luhn_valid-IsCard u laws (without 45 (without 32 t)) h
  test_of-IsOfKind PiiKind.iban t h = iban_valid-IsIban u laws t h
  test_of-IsOfKind PiiKind.ssn t h = ssn_plausible-IsSsn u laws t h
  test_of-IsOfKind PiiKind.phone t h = tt
  test_of-IsOfKind PiiKind.ip t h = ip_test-IsAddress t h

  abbrev of_kind : PiiKind → List Span → List PiiMatch
  of_kind k xs = passing k (test_of k) xs

  of_kind-All :
      (text : Text) (k : PiiKind)
      → All (IsChecked u patterns text) (of_kind k (spans_of u patterns k text))
  of_kind-All text k =
      let xs : List Span = spans_of u patterns k text in
      passing-All (IsChecked u patterns text) k (test_of k) xs
        (λ x i e. record { span = x; is = refl; found = i; of_kind = test_of-IsOfKind k x.group e })
        xs (In-All xs)

  before-All :
      (text : Text) (k : PiiKind) (ms : List PiiMatch)
      → All (IsChecked u patterns text) ms
      → All (IsChecked u patterns text) (of_kind k (spans_of u patterns k text) ++ ms)
  before-All text k ms h =
      append-All (IsChecked u patterns text) (of_kind k (spans_of u patterns k text)) ms
        (of_kind-All text k) h

  all_matches-All : (text : Text) → All (IsChecked u patterns text) (all_matches u patterns text)
  all_matches-All text =
      let ips : List PiiMatch = of_kind PiiKind.ip (patterns.ipv4 text) in
      let phones : List PiiMatch = of_kind PiiKind.phone (patterns.phone text) ++ ips in
      let ssns : List PiiMatch = of_kind PiiKind.ssn (patterns.ssn text) ++ phones in
      let ibans : List PiiMatch = of_kind PiiKind.iban (patterns.iban text) ++ ssns in
      let cards : List PiiMatch = of_kind PiiKind.card (patterns.card text) ++ ibans in
      let secrets : List PiiMatch =
        of_kind PiiKind.secret (patterns.secret_prefixes text) ++ cards in
      let ip_checked = of_kind-All text PiiKind.ip in
      let phone_checked = before-All text PiiKind.phone ips ip_checked in
      let ssn_checked = before-All text PiiKind.ssn phones phone_checked in
      let iban_checked = before-All text PiiKind.iban ssns ssn_checked in
      let card_checked = before-All text PiiKind.card ibans iban_checked in
      let secret_checked = before-All text PiiKind.secret cards card_checked in
      before-All text PiiKind.email secrets secret_checked

  -- Whatever the regular expressions find: each match that a scan reports is a span that the expression of
  -- its kind finds. The digits of a card are 12 to 19, and their sum, every second one from the right
  -- doubled and its decimals added, is a multiple of ten. An IBAN has the shape of its standard, and the
  -- number that it spells, its first four characters moved to the end, leaves 1 when divided by 97. A social
  -- security number has nine digits and keeps the structural rules. An address has no part above 255 and is
  -- not in a private range. The digits have values below ten.
  pub scan-IsChecked : (text : Text) → All (IsChecked u patterns text) (scan u patterns text)
  unfolding scan dedupe_overlaps
  scan-IsChecked [] = tt
  scan-IsChecked (c ∷ cs) =
      keep_disjoint-All (IsChecked u patterns (c ∷ cs)) 0 _
        (order_matches-All (IsChecked u patterns (c ∷ cs)) _ (all_matches-All (c ∷ cs)))
