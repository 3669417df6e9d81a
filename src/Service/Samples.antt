-- ===== src/Service/Samples.antt =====
-- A small service: functions in the place of the code outside, two tenants, and three rows.
use kortex_memory.Prelude.{ℕ, true, false, none, some, [], ◌∷◌, Text, codes, length}
use kortex_memory.Types.{
  ScopeType, Role, Sensitivity, ActorKind, MemoryKind, MemorySource, MemoryTier, ReviewStatus,
}
use kortex_memory.Access.{Principal}
use kortex_memory.Policies.{Trust}
use kortex_memory.Memories.{Memory}
use kortex_memory.Service.Governance.{CreateMemoryInput}
use kortex_memory.Service.State.{State, Environment, flag_only}

abbrev pub world : Environment
world = record {
  pii_detection = false;
  pii_policy = flag_only;
  injection_quarantine = false;
  review_confidence_threshold = 0;
  dedup_on_write = true;
  origin_ip = none;
  origin_agent = none;
  scan = λ t. [];
  search = λ q t. false;
  nfkc = λ t. t;
  sha256 = λ t. t;
  audit_hash = λ v. 1 ∷ v.prev_hash;
  embed = λ t. some (length t ∷ []);
  embedder_model = codes "small";
}

abbrev pub user_of : ℕ → Principal
user_of org = record {
  actor_id = 4;
  actor_kind = ActorKind.user;
  org_id = org;
  scope = none;
  roles = (record { type = ScopeType.project; id = 7 }, Role.member) ∷ [];
  key_scopes = [];
  max_sensitivity = Sensitivity.confidential;
  is_superuser = false;
}

abbrev pub note_in : Sensitivity → Text → CreateMemoryInput
note_in sensitivity body = record {
  scope_type = ScopeType.project;
  scope_id = 7;
  body = body;
  title = codes "note";
  kind = MemoryKind.fact;
  sensitivity = sensitivity;
  source_type = MemorySource.manual;
  source_ref = none;
  importance = 500_000;
  pinned = false;
  metadata = none;
  expires_at = none;
  confidence = none;
}

abbrev pub note : Text → CreateMemoryInput
note = note_in Sensitivity.internal

abbrev pub empty : State
empty = record {
  db = record {
    memories = [];
    links = [];
    audit = [];
    next_id = 1;
    next_audit_id = 1;
    now = 100;
    orgs = [];
    projects = [];
  };
  org_plan = none;
  mem_count = none;
  project_settings = [];
}

-- a row that waits for its review, or has a verdict
abbrev pub row : ReviewStatus → ℕ → ℕ → Text → Memory
row status id org body = record {
  id = id;
  public_id = id;
  org_id = org;
  scope_type = ScopeType.project;
  scope_id = 7;
  created_by = some 4;
  source_type = MemorySource.manual;
  source_ref = none;
  kind = MemoryKind.fact;
  title = codes "note";
  body = body;
  tier = MemoryTier.short;
  sensitivity = Sensitivity.internal;
  importance = 500_000;
  pinned = false;
  access_count = 0;
  last_accessed_at = none;
  decay_score = 1_000_000;
  embedding = none;
  embedding_model = none;
  ts_config = "english";
  trust = Trust.high;
  pii_flags = [];
  review_status = status;
  review_reason = none;
  reviewed_at = none;
  reviewed_by = none;
  confidence = none;
  content_hash = none;
  conflict_checked_at = none;
  embed_attempts = 0;
  embed_error = none;
  embed_failed_at = none;
  embed_next_attempt_at = none;
  metadata = [];
  expires_at = none;
  created_at = id;
  deleted_at = none;
}

abbrev pub first : Memory
first = row ReviewStatus.approved 1 1 (codes "one")

abbrev pub second : Memory
second = row ReviewStatus.pending 2 1 (codes "two")

-- two rows of org 1 and one of org 2
abbrev pub three_rows : State
three_rows = record empty {
  db = record empty.db {
    memories = first ∷ second ∷ row ReviewStatus.approved 3 2 (codes "three") ∷ [];
    next_id = 4;
  };
}
