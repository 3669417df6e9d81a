-- ===== src/Chunker/Tests.antt =====
-- Runs of the chunker, on a split that the test gives.
use kortex_memory.Prelude.{ℕ, ◌+◌, ◌*◌, ◌≤◌, ◌≡◌, refl, List, [], ◌∷◌, Text, codes, length, All}
use kortex_memory.Chunker.{chunk_text}
use kortex_memory.Chunker.Flushing.{IsNumbered}
use kortex_memory.Chunker.Laws.{chunk_text-bounds}

abbrev three : Text → List Text
three t = codes "One two." ∷ codes "  " ∷ codes "Three." ∷ codes "A long one." ∷ []

-- at most eight characters and no overlap: the last sentence is cut
cut_run :
    chunk_text three 2 0 (codes "x")
    ≡ (0, codes "One two.") ∷ (1, codes "Three.") ∷ (2, codes "A long o") ∷ (3, codes "ne.") ∷ []
unfolding chunk_text
cut_run = refl

chunk_text-bounds_example :
    let cs = chunk_text three 2 1 (codes "x") in
    IsNumbered 0 cs × All (λ (q : ℕ × Text). length q.1 ≤ 2 * 4 + 1 * 4 + 1) cs
chunk_text-bounds_example = chunk_text-bounds three 2 1 (codes "x")
