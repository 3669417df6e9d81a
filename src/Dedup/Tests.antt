-- ===== src/Dedup/Tests.antt =====
-- Runs of the fingerprint, with no Unicode normalisation.
use kortex_memory.Prelude.{◌≡◌, refl, Text, codes}
use kortex_memory.Dedup.{normalize_content, payload}
use kortex_memory.Dedup.Laws.{payload-eq}

abbrev plain : Text → Text
plain t = t

-- Runs of spaces count as one space, and those at the ends as none.
normalised : normalize_content plain (codes "  a \t b\n") ≡ codes "a b"
unfolding normalize_content
normalised = refl

payload-eq_example :
    (normalize_content plain (codes "a  b") ≡ normalize_content plain (codes " a b"))
    × (normalize_content plain (codes "c") ≡ normalize_content plain (codes "c "))
unfolding payload
payload-eq_example = payload-eq plain (codes "a  b") (codes " a b") (codes "c") (codes "c ") refl
