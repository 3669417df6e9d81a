-- ===== src/Pii/Tests.antt =====
-- Runs of the redaction.
use kortex_memory.Prelude.{◌≡◌, refl, List, [], ◌∷◌, Text, codes, length, arith}
use kortex_memory.Memories.{PiiKind}
use kortex_memory.Pii.{PiiMatch, redact, dedupe_overlaps}
use kortex_memory.Pii.Laws.{IsDisjoint, pieces, redact-dedupe_overlaps}

abbrev sentence : Text
sentence = codes "ask a@b.c now"

-- the second overlaps the first
abbrev matches : List PiiMatch
matches =
    record { kind = PiiKind.phone; start = 6; stop = 8; value = codes "b." }
    ∷ record { kind = PiiKind.email; start = 4; stop = 9; value = codes "a@b.c" }
    ∷ []

redacted : redact sentence (dedupe_overlaps matches) ≡ codes "ask [redacted:email] now"
unfolding redact dedupe_overlaps
redacted = refl

redact-dedupe_overlaps_example :
    (redact sentence (dedupe_overlaps matches) ≡ pieces 0 (dedupe_overlaps matches) sentence)
    × IsDisjoint 0 (length sentence) (dedupe_overlaps matches)
redact-dedupe_overlaps_example = redact-dedupe_overlaps sentence matches (omega arith)
