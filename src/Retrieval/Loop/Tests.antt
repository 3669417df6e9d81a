-- ===== src/Retrieval/Loop/Tests.antt =====
-- The agent loop on three rows, and where its theorems apply.
use kortex_memory.Prelude.{ℕ, ◌≡◌, ◌+◌, ◌/◌, refl, true, none, List, [], ◌∷◌, codes, map, arith}
use kortex_memory.Types.{MemoryLinkType, Sensitivity, ReviewStatus}
use kortex_memory.Memories.Rows.{IsOrdered}
use kortex_memory.Memories.Queries.{get_by_id}
use kortex_memory.Memories.Links.{neighbors}
use kortex_memory.Service.Samples.{user_of, three_rows, row, first, second}
use kortex_memory.Service.State.{State}
use kortex_memory.Retrieval.Conflicts.{HybridSearchHit}
use kortex_memory.Retrieval.Hybrid.{Floats, Postgres, Settings, hybrid_search}
use kortex_memory.Retrieval.Plan.{QueryPlan, semantic_search, link_expand, stop_and_answer}
use kortex_memory.Retrieval.Loop.{World, Stop, run}
use kortex_memory.Retrieval.Loop.Collecting.{IsSound}
use kortex_memory.Retrieval.Loop.Laws.{IsCandidate, run-IsSound}
use kortex_memory.Retrieval.Loop.Bounds.{IsBounded, run-IsBounded}

abbrev floats : Floats
floats = record {
  nought = 0;
  one = 1000;
  plus = λ a b. a + b;
  reciprocal = λ n. 1000 / n;
  weighed = λ x d. x;
}

-- every text matches
abbrev postgres : Postgres
postgres = record { distance = λ v q. 0; matches = λ config q m. true; rank = λ config q m. m.id }

abbrev settings : Settings
settings = record {
  top_k_vector = 50;
  top_k_bm25 = 50;
  rrf_k = 60;
  trust_filtering = true;
  conflict_detection = true;
  max_hops = 3;
  max_candidates = 200;
  hop_reserve_ms = 250;
}

abbrev pub around : World
around = record {
  floats = floats;
  db = postgres;
  settings = settings;
  embed = λ t. none;
  clock = λ n. 0;
  listed = λ is. is;
}

-- a secret row behind a link of the first one
abbrev pub linked : State
linked = record three_rows {
  db = record three_rows.db {
    memories =
        first
        ∷ second
        ∷ record (row ReviewStatus.pending 3 1 (codes "hidden")) {
          sensitivity = Sensitivity.secret;
        }
        ∷ [];
    links =
        record {
          from_memory_id = 1;
          to_memory_id = 3;
          link_type = MemoryLinkType.related;
          weight = 1;
          created_at = 0;
        }
        ∷ [];
  };
}

abbrev plan : QueryPlan
plan = record {
  rationale = [];
  steps =
      semantic_search (codes "one") 20
      ∷ link_expand (MemoryLinkType.related ∷ []) 1
      ∷ stop_and_answer (codes "done")
      ∷ [];
}

abbrev ids : List HybridSearchHit → List ℕ
ids = map (λ (h : HybridSearchHit). h.memory_id)

searched :
    ids (
      hybrid_search floats postgres settings
        (user_of 1)
        (codes "one")
        none
        []
        Sensitivity.confidential
        20
        []
        linked.memories)
    ≡ 1 ∷ []
unfolding hybrid_search
searched = refl

-- The row that the expansion adds is secret and has not passed review, though the caller's cap is
-- confidential and the search itself leaves such rows out.
expanded : ids (run around (user_of 1) [] none linked true plan).0.seen ≡ 1 ∷ 3 ∷ []
unfolding run get_by_id neighbors
expanded = refl

ended : (run around (user_of 1) [] none linked true plan).1 ≡ Stop.stopped (codes "done")
unfolding run
ended = refl

pub linked-IsOrdered : IsOrdered 0 linked.memories
linked-IsOrdered = (omega arith, (omega arith, (omega arith, tt)))

run-IsSound_example :
    IsSound
      (IsCandidate (user_of 1) linked.memories)
      (run around (user_of 1) [] none linked true plan).0.seen
run-IsSound_example = run-IsSound around (user_of 1) [] none linked linked-IsOrdered true plan

run-IsBounded_example :
    IsBounded around
      (user_of 1)
      []
      none
      linked
      plan.steps
      0
      (run around (user_of 1) [] none linked true plan)
run-IsBounded_example = run-IsBounded around (user_of 1) [] none linked true plan
