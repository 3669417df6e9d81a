-- ===== src/Pii.antt =====
-- packages/kortex-core/src/kortex_core/skills/pii_detector.py: here, what is done with the matches of a
-- detector. The detector is a swappable skill, a parameter of the write path; Scanning models the default.
pub mod Checksums
pub mod Scanning
pub mod Laws
mod Tests
use kortex_memory.Prelude.{
  ℕ, ◌+◌, ◌-◌, Bool, true, false, ◌&&◌, Option, none, some, List, [], ◌∷◌, ◌++◌, Text, codes, take,
  drop, sort_desc, ltb, leb, ◌==◌, if◌then◌else◌,
}
use kortex_memory.Memories.{PiiKind}

pub record PiiMatch : Type 0 where
  pub kind : PiiKind
  pub start : ℕ
  pub stop : ℕ
  pub value : Text

-- `REDACTION.format(kind=…)`
abbrev pub label : PiiKind → Text
label PiiKind.email = codes "[redacted:email]"
label PiiKind.secret = codes "[redacted:secret]"
label PiiKind.card = codes "[redacted:card]"
label PiiKind.iban = codes "[redacted:iban]"
label PiiKind.ssn = codes "[redacted:ssn]"
label PiiKind.phone = codes "[redacted:phone]"
label PiiKind.ip = codes "[redacted:ip]"

abbrev pub kind_code : PiiKind → ℕ
kind_code PiiKind.email = 0
kind_code PiiKind.secret = 1
kind_code PiiKind.card = 2
kind_code PiiKind.iban = 3
kind_code PiiKind.ssn = 4
kind_code PiiKind.phone = 5
kind_code PiiKind.ip = 6

-- the key `(m.start, -(m.end - m.start))` of `_dedupe_overlaps`: earlier first, and then longer first
abbrev pub before : PiiMatch → PiiMatch → Bool
before a b =
    if ltb a.start b.start
    then true
    else a.start == b.start && leb (b.stop - b.start) (a.stop - a.start)

unfoldable pub insert_match : PiiMatch → List PiiMatch → List PiiMatch
insert_match x [] = x ∷ []
insert_match x (y ∷ ys) = if before x y then x ∷ y ∷ ys else y ∷ insert_match x ys

unfoldable pub order_matches : List PiiMatch → List PiiMatch
unfolding insert_match
order_matches [] = []
order_matches (x ∷ xs) = insert_match x (order_matches xs)

-- the loop: a match that begins before the end of the last kept one is dropped
unfoldable pub keep_disjoint : ℕ → List PiiMatch → List PiiMatch
keep_disjoint reached [] = []
keep_disjoint reached (m ∷ ms) =
    let skip = keep_disjoint reached ms in
    let kept = m ∷ keep_disjoint m.stop ms in if ltb m.start reached then skip else kept

unfoldable pub dedupe_overlaps : List PiiMatch → List PiiMatch
unfolding order_matches keep_disjoint
dedupe_overlaps ms = keep_disjoint 0 (order_matches ms)

-- `out[:start] + label + out[end:]`
abbrev pub replace_one : PiiMatch → Text → Text
replace_one m out = take m.start out ++ label m.kind ++ drop m.stop out

unfoldable pub replace_each : List PiiMatch → Text → Text
replace_each [] out = out
replace_each (m ∷ ms) out = replace_each ms (replace_one m out)

abbrev pub start_of : PiiMatch → ℕ
start_of m = m.start

unfoldable pub redact : Text → List PiiMatch → Text
unfolding replace_each sort_desc
redact t ms = replace_each (sort_desc start_of ms) t

unfoldable pub count_kind : PiiKind → List (PiiKind × ℕ) → List (PiiKind × ℕ)
count_kind k [] = (k, 1) ∷ []
count_kind k ((j, n) ∷ rest) =
    if kind_code j == kind_code k then (j, n + 1) ∷ rest else (j, n) ∷ count_kind k rest

abbrev tally : List (PiiKind × ℕ) → List PiiMatch → List (PiiKind × ℕ)
tally counts [] = counts
tally counts (m ∷ ms) = tally (count_kind m.kind counts) ms

unfoldable pub summarise : List PiiMatch → List (PiiKind × ℕ)
unfolding count_kind
summarise ms = tally [] ms
