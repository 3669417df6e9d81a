-- ===== src/Retrieval/Similar/Tests.antt =====
-- What a reviewer is shown beside a memory of the agent loop's tests.
use kortex_memory.Prelude.{ℕ, ◌≡◌, refl, some, List, [], ◌∷◌, codes, map, All}
use kortex_memory.Types.{ReviewStatus}
use kortex_memory.Memories.{Memory}
use kortex_memory.Service.Samples.{user_of, row}
use kortex_memory.Retrieval.Loop.Tests.{around, linked, linked-IsOrdered}
use kortex_memory.Retrieval.Similar.{find_similar_for_review}
use kortex_memory.Retrieval.Similar.Laws.{IsSimilar, find_similar_for_review-IsSimilar}

abbrev pending_row : Memory
pending_row = row ReviewStatus.pending 9 1 (codes "one more")

abbrev shown : Memory → List ℕ
shown memory =
    map (λ (m : Memory). m.id)
      (find_similar_for_review around.floats around.db around.settings (λ d. d) 0 (user_of 1) []
        linked.memories memory 3)

-- the words of a memory that has no vector yet
by_words : shown pending_row ≡ 1 ∷ []
unfolding find_similar_for_review
by_words = refl

-- no row has a vector to be near
by_vector : shown (record pending_row { embedding = some (5 ∷ []) }) ≡ []
unfolding find_similar_for_review
by_vector = refl

find_similar_for_review-IsSimilar_example :
    All (IsSimilar (user_of 1) linked.memories pending_row) (
      find_similar_for_review around.floats around.db around.settings
        (λ d. d)
        0
        (user_of 1)
        []
        linked.memories
        pending_row
        3)
find_similar_for_review-IsSimilar_example =
    find_similar_for_review-IsSimilar around.floats around.db around.settings (λ d. d) 0 (user_of 1)
      [] linked.memories linked-IsOrdered pending_row 3
