-- ===== src/Memories/Writes.antt =====
-- The writes of packages/kortex-core/src/kortex_core/repositories/memory_repo.py: what becomes of a row
-- (the clock is the argument `now`), and the updates that name their rows by id.
use Prim.Native.String.{String}
use kortex_memory.Prelude.{
  ℕ, ◌+◌, Bool, ◌&&◌, Option, none, some, List, [], ◌∷◌, Text, any, map, ◌==◌, if◌then◌else◌,
}
use kortex_memory.Types.{
  ScopeType, MemoryKind, MemorySource, MemoryTier, Sensitivity, ReviewStatus, Metadata,
}
use kortex_memory.Policies.{Trust, Reason}
use kortex_memory.Access.{Principal}
use kortex_memory.Memories.{Memory, Table, Vector, PiiKind, meta_merge, in_scope, is_live}

-- the arguments of `create`, and the org of the principal
pub record NewMemory : Type 0 where
  pub org_id : ℕ
  pub scope_type : ScopeType
  pub scope_id : ℕ
  pub body : Text
  pub title : Text
  pub kind : MemoryKind
  pub sensitivity : Sensitivity
  pub source_type : MemorySource
  pub source_ref : Option Metadata
  pub importance : ℕ
  pub pinned : Bool
  pub metadata : Option Metadata
  pub expires_at : Option ℕ
  pub embedding : Option Vector
  pub embedding_model : Option Text
  pub created_by : Option ℕ
  pub content_hash : Option Text
  pub trust : Trust
  pub pii_flags : List (PiiKind × ℕ)
  pub review_status : ReviewStatus
  pub review_reason : Option Reason
  pub confidence : Option ℕ
  pub ts_config : String

abbrev or_empty : Option Metadata → Metadata
or_empty none = []
or_empty (some m) = m

-- `create`: the row, with the defaults of the columns that the code does not set; `one` is 1.0
unfoldable pub new_row : ℕ → ℕ → NewMemory → Memory
new_row id now n = record {
  id = id;
  public_id = id;
  org_id = n.org_id;
  scope_type = n.scope_type;
  scope_id = n.scope_id;
  created_by = n.created_by;
  source_type = n.source_type;
  source_ref = n.source_ref;
  kind = n.kind;
  title = n.title;
  body = n.body;
  tier = MemoryTier.short;
  sensitivity = n.sensitivity;
  importance = n.importance;
  pinned = n.pinned;
  access_count = 0;
  last_accessed_at = none;
  decay_score = 1_000_000;
  embedding = n.embedding;
  embedding_model = n.embedding_model;
  ts_config = n.ts_config;
  trust = n.trust;
  pii_flags = n.pii_flags;
  review_status = n.review_status;
  review_reason = n.review_reason;
  reviewed_at = none;
  reviewed_by = none;
  confidence = n.confidence;
  content_hash = n.content_hash;
  conflict_checked_at = none;
  embed_attempts = 0;
  embed_error = none;
  embed_failed_at = none;
  embed_next_attempt_at = none;
  metadata = or_empty n.metadata;
  expires_at = n.expires_at;
  created_at = now;
  deleted_at = none;
}

unfoldable pub soft_delete : ℕ → Memory → Memory
soft_delete now m = record m { deleted_at = some now }

unfoldable pub set_pinned : Bool → Memory → Memory
set_pinned pinned m = record m { pinned = pinned }

-- the keyword arguments of `update_fields`; `none` leaves a field alone
pub record Changes : Type 0 where
  pub title : Option Text
  pub body : Option Text
  pub kind : Option MemoryKind
  pub sensitivity : Option Sensitivity
  pub importance : Option ℕ
  pub metadata : Option Metadata

abbrev pub or_old {ℓ} : {A : Type ℓ} → Option A → A → A
or_old none old = old
or_old (some new) old = new

-- a new body makes the embedding stale
abbrev pub cleared {ℓ κ} : {A : Type ℓ} {B : Type κ} → Option A → Option B → Option B
cleared none old = old
cleared (some new) old = none

unfoldable pub update_fields : Changes → Memory → Memory
update_fields c m = record m {
  title = or_old c.title m.title;
  body = or_old c.body m.body;
  embedding = cleared c.body m.embedding;
  embedding_model = cleared c.body m.embedding_model;
  kind = or_old c.kind m.kind;
  sensitivity = or_old c.sensitivity m.sensitivity;
  importance = or_old c.importance m.importance;
  metadata = or_old c.metadata m.metadata;
}

unfoldable pub set_review_status : ℕ → ReviewStatus → Option ℕ → Memory → Memory
set_review_status now status reviewer m = record m {
  review_status = status;
  reviewed_at = some now;
  reviewed_by = reviewer;
}

-- `if metadata`: an empty dict changes nothing, and neither would its merge
abbrev merged : Option Metadata → Metadata → Metadata
merged none old = old
merged (some new) old = meta_merge old new

unfoldable pub record_duplicate : ℕ → Option Metadata → Memory → Memory
unfolding meta_merge
record_duplicate now metadata m = record m {
  access_count = m.access_count + 1;
  last_accessed_at = some now;
  metadata = merged metadata m.metadata;
}

-- `UPDATE memories SET … WHERE id IN ids`
abbrev pub update_ids : List ℕ → (Memory → Memory) → Table → Table
update_ids ids f = map (λ m. if any (λ i. m.id == i) ids then f m else m)

unfoldable pub record_access : ℕ → List ℕ → Table → Table
record_access now ids =
    update_ids ids
      (λ m. record m { access_count = m.access_count + 1; last_accessed_at = some now })

unfoldable pub mark_conflict_checked : ℕ → List ℕ → Table → Table
mark_conflict_checked now ids = update_ids ids (λ m. record m { conflict_checked_at = some now })

unfoldable pub apply_decay : ℕ → ℕ → Option MemoryTier → Table → Table
apply_decay memory_id score tier =
    update_ids (memory_id ∷ []) (λ m. record m { decay_score = score; tier = or_old tier m.tier })

-- a new analyser for the live rows of a scope
unfoldable pub reanalyse_scope : Principal → ScopeType → ℕ → String → Table → Table
reanalyse_scope p scope_type scope_id ts_config [] = []
reanalyse_scope p scope_type scope_id ts_config (m ∷ ms) =
    (if m.org_id == p.org_id && in_scope scope_type scope_id m && is_live m
      then record m { ts_config = ts_config }
      else m)
    ∷ reanalyse_scope p scope_type scope_id ts_config ms
