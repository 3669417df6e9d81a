-- ===== src/Memories/Embedding/Tests.antt =====
-- Runs of the queue of embeddings on the rows of the small service.
use kortex_memory.Prelude.{◌≡◌, refl, false, codes}
use kortex_memory.Policies.{decide_retry}
use kortex_memory.Memories.Embedding.{awaits_embedding, failed_with, decision_for}
use kortex_memory.Service.Samples.{user_of, first}

-- the delay of 60 is not over
not_yet :
    awaits_embedding
      (user_of 1)
      (codes "small")
      130
      (failed_with (decision_for 3 60 100 first) (codes "timeout") 100 first)
    ≡ false
unfolding decide_retry
not_yet = refl
