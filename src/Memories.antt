-- ===== src/Memories.antt =====
-- packages/kortex-core/src/kortex_core/models/memory.py (the rows of a memory and of a link), the
-- tenancy filter of repositories/base.py, and repositories/memory_repo.py. A table is the list of its
-- rows in the order of the ids. A vector is opaque, a float is a number of millionths, a time is a
-- number, and a UUID is the number of the row that it was drawn for.
pub mod Rows
pub mod Ids
pub mod Queries
pub mod Writes
pub mod Embedding
pub mod Links
use Prim.Native.String.{String}
use kortex_memory.Prelude.{
  ℕ, Bool, true, false, ◌&&◌, ◌||◌, Option, none, some, List, [], ◌∷◌, Text, text_eq, ◌==◌,
  if◌then◌else◌,
}
use kortex_memory.Types.{
  ScopeType, MemorySource, MemoryKind, MemoryTier, Sensitivity, ReviewStatus, MemoryLinkType, Json,
  null, flag, text, other, Metadata, scope_type_eq,
}
use kortex_memory.Access.{Principal}
use kortex_memory.Policies.{Trust, Reason}

abbrev pub Vector : Type 0
Vector = List ℕ

-- the kinds that the PII detector reports
pub data PiiKind : Type 0 where
  email secret card iban ssn phone ip : PiiKind

pub record Memory : Type 0 where
  pub id : ℕ
  pub public_id : ℕ
  pub org_id : ℕ
  pub scope_type : ScopeType
  pub scope_id : ℕ
  pub created_by : Option ℕ
  pub source_type : MemorySource
  pub source_ref : Option Metadata
  pub kind : MemoryKind
  pub title : Text
  pub body : Text
  pub tier : MemoryTier
  pub sensitivity : Sensitivity
  pub importance : ℕ
  pub pinned : Bool
  pub access_count : ℕ
  pub last_accessed_at : Option ℕ
  pub decay_score : ℕ
  pub embedding : Option Vector
  pub embedding_model : Option Text
  pub ts_config : String
  pub trust : Trust
  pub pii_flags : List (PiiKind × ℕ)
  pub review_status : ReviewStatus
  pub review_reason : Option Reason
  pub reviewed_at : Option ℕ
  pub reviewed_by : Option ℕ
  pub confidence : Option ℕ
  pub content_hash : Option Text
  pub conflict_checked_at : Option ℕ
  pub embed_attempts : ℕ
  pub embed_error : Option Text
  pub embed_failed_at : Option ℕ
  pub embed_next_attempt_at : Option ℕ
  pub metadata : Metadata
  pub expires_at : Option ℕ
  pub created_at : ℕ
  pub deleted_at : Option ℕ

pub record MemoryLink : Type 0 where
  pub from_memory_id : ℕ
  pub to_memory_id : ℕ
  pub link_type : MemoryLinkType
  pub weight : ℕ
  pub created_at : ℕ

abbrev pub Table : Type 0
Table = List Memory

abbrev pub is_none {ℓ} : {A : Type ℓ} → Option A → Bool
is_none none = true
is_none (some a) = false

-- `deleted_at IS NULL`
abbrev pub is_live : Memory → Bool
is_live m = is_none m.deleted_at

-- the filter that `tenant_query` adds: a superuser reads every org
abbrev pub in_tenant : Principal → Memory → Bool
in_tenant p m = p.is_superuser || m.org_id == p.org_id

abbrev pub in_scope : ScopeType → ℕ → Memory → Bool
in_scope t i m = scope_type_eq m.scope_type t && m.scope_id == i

-- the value of a key of a JSONB object
unfoldable pub meta_get : Text → Metadata → Option Json
meta_get k [] = none
meta_get k ((j, v) ∷ rest) = if text_eq j k then some v else meta_get k rest

unfoldable pub meta_set : Text → Json → Metadata → Metadata
meta_set k v [] = (k, v) ∷ []
meta_set k v ((j, w) ∷ rest) = if text_eq j k then (j, v) ∷ rest else (j, w) ∷ meta_set k v rest

-- `{**old, **new}`
unfoldable pub meta_merge : Metadata → Metadata → Metadata
unfolding meta_set
meta_merge old [] = old
meta_merge old ((k, v) ∷ new) = meta_merge (meta_set k v old) new

-- `metadata[key].astext`: the `->>` of Postgres, which is NULL for a JSON null
abbrev pub as_text : Option Json → Option Text
as_text none = none
as_text (some null) = none
as_text (some (flag true)) = some (116 ∷ 114 ∷ 117 ∷ 101 ∷ [])
as_text (some (flag false)) = some (102 ∷ 97 ∷ 108 ∷ 115 ∷ 101 ∷ [])
as_text (some (text t)) = some t
as_text (some (other sql py)) = some sql

-- the first row that a query finds
unfoldable pub find : (Memory → Bool) → Table → Option Memory
find test [] = none
find test (m ∷ ms) = if test m then some m else find test ms

-- what a flush writes: the row with the primary key of `m`
unfoldable pub replace_row : Memory → Table → Table
replace_row m [] = []
replace_row m (r ∷ rs) = (if r.id == m.id then m else r) ∷ replace_row m rs
