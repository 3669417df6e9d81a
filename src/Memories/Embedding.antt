-- ===== src/Memories/Embedding.antt =====
-- The embedding maintenance of packages/kortex-core/src/kortex_core/repositories/memory_repo.py.
pub mod Laws
mod Tests
use kortex_memory.Prelude.{
  false, ℕ, ◌+◌, ◌-◌, max, Bool, true, not, ◌&&◌, ◌||◌, Option, none, some, List, [], ◌∷◌, Text,
  keep, take, length, map, sort_asc, sort_desc, text_eq, ◌==◌, leb, if◌then◌else◌,
}
use kortex_memory.Access.{Principal}
use kortex_memory.Policies.{RetryDecision, decide_retry}
use kortex_memory.Memories.{Memory, Table, Vector, is_none, is_live, in_tenant}
use kortex_memory.Memories.Queries.{created, list_by_ids}
use kortex_memory.Memories.Writes.{update_ids}

abbrev pub due : ℕ → Option ℕ → Bool
due now none = true
due now (some t) = leb t now

-- `embedding_model != model`, which is NULL for a NULL
abbrev pub other_model : Text → Option Text → Bool
other_model model none = false
other_model model (some m) = not (text_eq m model)

-- eligible for an attempt at `now`, under the embedder model of the settings
abbrev pub awaits_embedding : Principal → Text → ℕ → Memory → Bool
awaits_embedding p model now m =
    in_tenant p m
    && is_live m
    && (is_none m.embedding || other_model model m.embedding_model)
    && is_none m.embed_failed_at
    && due now m.embed_next_attempt_at

unfoldable pub list_pending_embedding : Principal → Text → ℕ → ℕ → Table → Table
unfolding sort_asc text_eq
list_pending_embedding p model now limit t =
    take limit (sort_asc created (keep (awaits_embedding p model now) t))

abbrev pub embedded : Vector → Text → Memory → Memory
embedded vector model m = record m {
  embedding = some vector;
  embedding_model = some model;
  embed_attempts = 0;
  embed_error = none;
  embed_failed_at = none;
  embed_next_attempt_at = none;
}

unfoldable pub set_embedding : ℕ → Vector → Text → Table → Table
set_embedding memory_id vector model = update_ids (memory_id ∷ []) (embedded vector model)

-- the columns that one failure sets; `embed_failed_at` is set only when the memory is parked
abbrev pub failed_with : RetryDecision → Text → ℕ → Memory → Memory
failed_with d error now m = record m {
  embed_attempts = d.attempts;
  embed_error = some (take 2000 error);
  embed_next_attempt_at = d.next_attempt_at;
  embed_failed_at = if d.parked then some now else m.embed_failed_at;
}

abbrev pub decision_for : ℕ → ℕ → ℕ → Memory → RetryDecision
decision_for max_attempts base now m = decide_retry m.embed_attempts max_attempts base now

-- the loop over the rows that were read, with the number that were parked
unfoldable pub fail_each : Text → ℕ → ℕ → ℕ → Table → Table → Table × ℕ
unfolding decide_retry
fail_each error max_attempts base now [] t = (t, 0)
fail_each error max_attempts base now (m ∷ ms) t =
    let d = decision_for max_attempts base now m in
    let (t', failed) =
      fail_each error max_attempts base now ms
        (update_ids (m.id ∷ []) (failed_with d error now) t) in
    (t', (if d.parked then 1 else 0) + failed)

unfoldable pub record_embed_failure : Principal → List ℕ → Text → ℕ → ℕ → ℕ → Table → Table × ℕ
unfolding fail_each list_by_ids
record_embed_failure p [] error max_attempts base now t = (t, 0)
record_embed_failure p (i ∷ ids) error max_attempts base now t =
    fail_each error max_attempts base now (list_by_ids p (i ∷ ids) t) t

abbrev org_ok : Option ℕ → Memory → Bool
org_ok none m = true
org_ok (some org) m = m.org_id == org

abbrev pub is_parked : Principal → Option ℕ → Memory → Bool
is_parked p org m = in_tenant p m && is_live m && not (is_none m.embed_failed_at) && org_ok org m

abbrev pub requeued : Memory → Memory
requeued m = record m {
  embed_attempts = 0;
  embed_error = none;
  embed_failed_at = none;
  embed_next_attempt_at = none;
}

abbrev ids_of : Table → List ℕ
ids_of = map (λ m. m.id)

unfoldable pub reset_embed_failures : Principal → Option ℕ → Table → Table × ℕ
reset_embed_failures p org t =
    let ids = ids_of (keep (is_parked p org) t) in (update_ids ids requeued t, length ids)

-- `list_embed_failures` orders by the time of the failure, newest first
abbrev failed_at : Memory → ℕ
failed_at m = elim m.embed_failed_at [ none ↦ 0 | some t ↦ t ]

unfoldable pub list_embed_failures : Principal → ℕ → Table → Table
unfolding sort_desc
list_embed_failures p limit t = take limit (sort_desc failed_at (keep (is_parked p none) t))

-- the oldest pending row is so old, in the unit of the clock
pub record EmbedStatus : Type 0 where
  pub pending : ℕ
  pub failed : ℕ
  pub ok : ℕ
  pub oldest_pending : ℕ

abbrev has_model : Text → Option Text → Bool
has_model model none = false
has_model model (some m) = text_eq m model

abbrev pub is_unembedded : Memory → Bool
is_unembedded m = is_none m.embedding && is_none m.embed_failed_at

-- how far the oldest row lies back, and 0 without rows; no row is younger than `now`
abbrev pub oldest_from : ℕ → Table → ℕ
oldest_from now [] = 0
oldest_from now (m ∷ ms) = max (now - m.created_at) (oldest_from now ms)

unfoldable pub embed_status_counts : Principal → Text → ℕ → Table → EmbedStatus
unfolding text_eq
embed_status_counts p model now t =
    let rows = keep (λ m. is_live m && in_tenant p m) t in
    record {
      pending = length (keep is_unembedded rows);
      failed = length (keep (λ m. not (is_none m.embed_failed_at)) rows);
      ok = length (keep (λ m. not (is_none m.embedding) && has_model model m.embedding_model) rows);
      oldest_pending = oldest_from now (keep is_unembedded rows);
    }
