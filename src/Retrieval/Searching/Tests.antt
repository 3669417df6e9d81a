-- ===== src/Retrieval/Searching/Tests.antt =====
-- A search over the rows of the agent loop's tests.
use kortex_memory.Prelude.{◌≡◌, ◌≤◌, refl, true, [], ◌∷◌, codes, length, All}
use kortex_memory.Service.Samples.{user_of}
use kortex_memory.Retrieval.Loop.Tests.{around, linked, linked-IsOrdered}
use kortex_memory.Retrieval.Searching.{SearchRequest, ids_of_hits, search_memories}
use kortex_memory.Retrieval.Searching.Laws.{IsShowing, search_memories-IsShowing}

abbrev request : SearchRequest
request = record { query = codes "one"; scopes = []; limit = 5; embed_query = true }

shown : ids_of_hits (search_memories around (user_of 1) request linked).0.hits ≡ 1 ∷ []
unfolding search_memories
shown = refl

search_memories-IsShowing_example :
    All
      (IsShowing (user_of 1) linked.memories)
      (search_memories around (user_of 1) request linked).0.hits
    × (length (search_memories around (user_of 1) request linked).0.hits ≤ 5)
search_memories-IsShowing_example =
    search_memories-IsShowing around (user_of 1) request linked linked-IsOrdered
