-- ===== src/Service/Write.antt =====
-- `MemoryService.write` of services/memory_service.py, in the steps that it takes.
use Prim.Native.String.{String}
use kortex_memory.Prelude.{
  ℕ, ◌+◌, Bool, true, false, ◌&&◌, ◌||◌, Option, none, some, List, [], ◌∷◌, ◌++◌, Text, leb, ◌==◌,
  if◌then◌else◌,
}
use kortex_memory.Types.{ScopeType, ReviewMode, ActorKind, scope_type_eq}
use kortex_memory.Access.{Principal, ResourceRef, can_write, has_key_scope}
use kortex_memory.Policies.{Reason, unheld, ReviewDecision, trust_for_source, held, max_memories}
use kortex_memory.Dedup.{strip}
use kortex_memory.Memories.{Memory, Vector, replace_row}
use kortex_memory.Memories.Queries.{find_by_content_hash, count_for_org}
use kortex_memory.Memories.Writes.{NewMemory, new_row, record_duplicate}
use kortex_memory.Service.Exec.{
  ok, err, Exec, pure, gets, raise_unless, ◌>>=◌, ◌>>◌, access_denied, quota_exceeded,
  embedding_failed,
}
use kortex_memory.Service.Governance.{
  CreateMemoryInput, MemoryWrite, Governed, joined, govern, review_of, digest_of,
}
use kortex_memory.Service.State.{Org, Project, State, Environment}

abbrev pub Config : Type 0
Config = ReviewMode × String

-- `DEFAULT_TS_CONFIG`
abbrev pub default_config : Config
default_config = (ReviewMode.off, "english")

module _ (env : Environment) (p : Principal) where
  unfoldable pub require_scope : String → Exec State (Unit {0})
  unfolding has_key_scope
  require_scope name = raise_unless (has_key_scope p name) access_denied

  -- `OrgRepository.get_by_id(self._principal.org_id)`
  abbrev find_plan : ℕ → List Org → String
  find_plan i [] = "free"
  find_plan i (o ∷ os) = if o.id == i then o.plan else find_plan i os

  abbrev pub plan_of : State → String
  plan_of s = elim s.org_plan [ none ↦ find_plan p.org_id s.orgs | some plan ↦ plan ]

  abbrev pub count_of : State → ℕ
  count_of s = elim s.mem_count [ none ↦ count_for_org p.org_id s.memories | some n ↦ n ]

  abbrev pub counted_in : Bool → String → ℕ → Exec State (Unit {0})
  counted_in true plan n s =
      (err quota_exceeded, record s { org_plan = some plan; mem_count = some n })
  counted_in false plan n s = (ok tt, record s { org_plan = some plan; mem_count = some (n + 1) })

  abbrev pub within_cap : Option ℕ → String → Exec State (Unit {0})
  within_cap none plan s = (ok tt, record s { org_plan = some plan })
  within_cap (some cap) plan s = counted_in (leb cap (count_of s)) plan (count_of s) s

  unfoldable pub enforce_memory_quota : Exec State (Unit {0})
  unfolding max_memories count_for_org
  enforce_memory_quota s = within_cap (max_memories (plan_of s)) (plan_of s) s

  abbrev pub cached_config : ℕ → List (ℕ × Config) → Option Config
  cached_config i [] = none
  cached_config i ((j, c) ∷ rest) = if j == i then some c else cached_config i rest

  -- `ProjectRepository.get_by_id`, behind the tenancy filter
  abbrev pub project_config_of : ℕ → List Project → Config
  project_config_of i [] = default_config
  project_config_of i (q ∷ qs) =
      if (p.is_superuser || q.org_id == p.org_id) && q.id == i
      then (q.review_mode, q.text_search_config)
      else project_config_of i qs

  abbrev pub remembered : ℕ → Option Config → Exec State Config
  remembered i (some c) s = (ok c, s)
  remembered i none s =
      let c = project_config_of i s.projects in
      (ok c, record s { project_settings = (i, c) ∷ s.project_settings })

  abbrev pub config_for : Bool → ℕ → Exec State Config
  config_for true i s = remembered i (cached_config i s.project_settings) s
  config_for false i s = (ok default_config, s)

  unfoldable pub project_config : CreateMemoryInput → Exec State Config
  project_config x = config_for (scope_type_eq x.scope_type ScopeType.project) x.scope_id

  -- `self._principal.actor_id if self._principal.actor_kind.value == "user" else None`
  abbrev pub acting_user : ActorKind → Option ℕ
  acting_user ActorKind.user = some p.actor_id
  acting_user ActorKind.api_key = none
  acting_user ActorKind.system = none

  abbrev or_body : Text → Text → Text
  or_body [] body = body
  or_body (c ∷ cs) body = c ∷ cs

  -- the text that is embedded: that of the payload, not the governed one
  abbrev pub embedded_text : CreateMemoryInput → Text
  embedded_text x = or_body (strip (joined x.title x.body)) x.body

  abbrev pub embedded_with : Option Vector → Exec State (Option Vector)
  embedded_with none s = (err embedding_failed, s)
  embedded_with (some v) s = (ok (some v), s)

  unfoldable pub inline_embedding : Bool → CreateMemoryInput → Exec State (Option Vector)
  unfolding strip
  inline_embedding false x s = (ok none, s)
  inline_embedding true x s = embedded_with (env.embed (embedded_text x)) s

  abbrev model_of : Option Vector → Option Text
  model_of none = none
  model_of (some v) = some env.embedder_model

  abbrev reason_or_none : ReviewDecision → Option Reason
  reason_or_none d = elim d.reason [
    | unheld ↦ none
    | Reason.injection ps ↦ some (Reason.injection ps)
    | Reason.every_write ↦ some Reason.every_write
    | Reason.below_threshold c t ↦ some (Reason.below_threshold c t)
  ]

  abbrev pub new_memory :
      CreateMemoryInput → Governed → ReviewDecision → String → Option Vector → NewMemory
  new_memory x g d ts_config vector = record {
    org_id = p.org_id;
    scope_type = x.scope_type;
    scope_id = x.scope_id;
    body = g.body;
    title = g.title;
    kind = x.kind;
    sensitivity = g.sensitivity;
    source_type = x.source_type;
    source_ref = x.source_ref;
    importance = x.importance;
    pinned = x.pinned;
    metadata = x.metadata;
    expires_at = x.expires_at;
    embedding = vector;
    embedding_model = model_of vector;
    created_by = acting_user p.actor_kind;
    content_hash = digest_of env g;
    trust = trust_for_source x.source_type;
    pii_flags = g.findings;
    review_status = d.status;
    review_reason = reason_or_none d;
    confidence = x.confidence;
    ts_config = ts_config;
  }

  -- `MemoryRepository.create`: the row gets the next id of the sequence
  unfoldable pub create_row : NewMemory → Exec State Memory
  unfolding new_row
  create_row n s =
      let m = new_row s.next_id s.now n in
      (
        ok m,
        record s { db = record s.db { memories = s.memories ++ m ∷ []; next_id = s.next_id + 1 } },
      )

  -- the existing memory with the fingerprint, unless the write is forced
  abbrev pub existing : Bool → CreateMemoryInput → Option Text → State → Option Memory
  existing true x digest s = none
  existing false x none s = none
  existing false x (some h) s = find_by_content_hash p x.scope_type x.scope_id h s.memories

  abbrev pub folded : Memory → MemoryWrite
  folded m = record {
    memory = m;
    deduped = true;
    pii_flags = [];
    redacted = false;
    pending_review = false;
    review_reason = unheld;
  }

  abbrev pub stored : Memory → Governed → ReviewDecision → MemoryWrite
  stored m g d = record {
    memory = m;
    deduped = false;
    pii_flags = g.findings;
    redacted = g.redacted;
    pending_review = held d;
    review_reason = d.reason;
  }

  -- folding a repeat into the memory that holds it
  unfoldable pub fold_into : Memory → CreateMemoryInput → Exec State MemoryWrite
  unfolding record_duplicate
  fold_into m x s =
      let m' = record_duplicate s.now x.metadata m in
      (ok (folded m'), record s { db = record s.db { memories = replace_row m' s.memories } })

  -- the quota, the embedding and the insert
  unfoldable pub store :
      Bool → CreateMemoryInput → Governed → ReviewDecision → String → Exec State MemoryWrite
  unfolding enforce_memory_quota inline_embedding create_row ◌>>=◌
  store embed_inline x g d ts_config = do
    enforce_memory_quota
    vector ← inline_embedding embed_inline x
    created ← create_row (new_memory x g d ts_config vector)
    pure (stored created g d)

  abbrev pub fold_or_store :
      Option Memory
      → Bool
      → CreateMemoryInput
      → Governed
      → ReviewDecision
      → String
      → Exec State MemoryWrite
  fold_or_store (some m) embed_inline x g d ts_config = fold_into m x
  fold_or_store none embed_inline x g d ts_config = store embed_inline x g d ts_config

  -- what a write does once the review mode and the search configuration of its project are known
  abbrev pub governed_write : CreateMemoryInput → Bool → Bool → Config → Exec State MemoryWrite
  governed_write x embed_inline force config = do
    old ← gets (existing force x (digest_of env (govern env x)))
    fold_or_store old embed_inline x (govern env x) (review_of env config.0 x (govern env x))
        config.1

  abbrev pub target_of : CreateMemoryInput → ResourceRef
  target_of x = record {
    scope = record { type = x.scope_type; id = x.scope_id };
    sensitivity = x.sensitivity;
  }

  unfoldable pub write : CreateMemoryInput → Bool → Bool → Exec State MemoryWrite
  unfolding require_scope can_write govern project_config review_of digest_of fold_into store ◌>>=◌
  write x embed_inline force = do
    require_scope "write:memory"
    raise_unless (can_write p (target_of x)) access_denied
    config ← project_config x
    governed_write x embed_inline force config
