-- ===== src/Service/Methods.antt =====
-- The other methods of `MemoryService` of services/memory_service.py.
use kortex_memory.Prelude.{
  ℕ, ◌+◌, Bool, true, false, Option, none, some, List, [], ◌∷◌, codes, take, if◌then◌else◌,
}
use kortex_memory.Types.{MemoryTier, MemoryKind, Sensitivity, ReviewStatus, status_eq}
use kortex_memory.Access.{Principal, ResourceRef, can_read, can_write}
use kortex_memory.Audit
use kortex_memory.Audit.{
  AuditLog, AuditAction, Event, Details, deleted_memory, reviewed_memory, Context,
}
use kortex_memory.Memories.{Memory, replace_row}
use kortex_memory.Memories.Queries.{
  ScopeFilter, get_by_public_id, list_rows, list_pending_review, count_pending_review,
}
use kortex_memory.Memories.Writes.{
  Changes, soft_delete, set_pinned, update_fields, set_review_status, record_access,
}
use kortex_memory.Service.Exec.{
  ok, err, Exec, pure, gets, raise_unless, raise, ◌>>=◌, ◌>>◌, access_denied, no_audit_org,
  unknown_action,
}
use kortex_memory.Service.State.{State, Environment}
use kortex_memory.Service.Write.{require_scope, acting_user}

abbrev pub resource_of : Memory → Sensitivity → ResourceRef
resource_of m s = record {
  scope = record { type = m.scope_type; id = m.scope_id };
  sensitivity = s;
}

-- a flush of one row
unfoldable pub flush : Memory → Exec State (Unit {0})
unfolding replace_row
flush m s = (ok tt, record s { db = record s.db { memories = replace_row m s.memories } })

-- what a bulk action does to one memory
pub data BulkAction : Type 0 where
  pin unpin delete : BulkAction
  unknown : BulkAction

module _ (env : Environment) (p : Principal) where
  -- `_repo.get_by_public_id`
  abbrev pub lookup : ℕ → Exec State (Option Memory)
  lookup public_id = gets (λ s. get_by_public_id p public_id s.memories)

  -- `_require_write`
  abbrev pub require_write : Memory → Sensitivity → Exec State (Unit {0})
  require_write m sensitivity = raise_unless (can_write p (resource_of m sensitivity)) access_denied

  abbrev pub event : AuditAction → Memory → Details → Event
  event action m details = record {
    actor_kind = p.actor_kind;
    actor_id = some p.actor_id;
    action = action;
    target_type = some (codes "memory");
    target_id = some m.id;
    metadata = details;
    ip = none;
    user_agent = none;
    org_id = none;
  }

  abbrev pub context : State → Context
  context s = record {
    next_id = s.next_audit_id;
    now = s.now;
    origin_ip = env.origin_ip;
    origin_agent = env.origin_agent;
    principal_org = some p.org_id;
  }

  -- `AuditRepository.append`
  abbrev pub filed : Option (AuditLog × Audit.Table) → Exec State (Unit {0})
  filed none s = (err no_audit_org, s)
  filed (some (e, t)) s =
      (ok tt, record s { db = record s.db { audit = t; next_audit_id = s.next_audit_id + 1 } })

  unfoldable pub audit : Event → Exec State (Unit {0})
  unfolding Audit.append
  audit v s = filed (Audit.append env.audit_hash (context s) v s.audit) s

  abbrev pub verdict : Bool → ReviewStatus
  verdict approve = if approve then ReviewStatus.approved else ReviewStatus.rejected

  abbrev pub verdict_action : Bool → AuditAction
  verdict_action approve =
      if approve then AuditAction.memory_review_approved else AuditAction.memory_review_rejected

  abbrev pub decide : Bool → Memory → Exec State (Option Memory)
  decide approve m = do
    now ← gets (λ s. s.now)
    let m' = set_review_status now (verdict approve) (acting_user env p p.actor_kind) m
    flush m'
    audit (event (verdict_action approve) m' (reviewed_memory m'.review_reason m'.scope_id))
    pure (some m')

  abbrev pub review_found : Bool → Option Memory → Exec State (Option Memory)
  review_found approve none = pure none
  review_found approve (some m) = do
    require_write m m.sensitivity
    if status_eq m.review_status ReviewStatus.pending then decide approve m else pure (some m)

  unfoldable pub review : ℕ → Bool → Exec State (Option Memory)
  unfolding require_scope get_by_public_id can_write set_review_status flush audit ◌>>=◌
  review public_id approve = do
    require_scope env p "write:memory"
    found ← lookup public_id
    review_found approve found

  abbrev pub readable : Option Memory → Option Memory
  readable none = none
  readable (some m) = if can_read p (resource_of m m.sensitivity) then some m else none

  unfoldable pub get : ℕ → Exec State (Option Memory)
  unfolding require_scope get_by_public_id can_read ◌>>=◌
  get public_id = do
    require_scope env p "read:memory"
    found ← lookup public_id
    pure (readable found)

  -- the cap on what the caller may read; a superuser has none
  abbrev pub read_cap : Option Sensitivity
  read_cap = if p.is_superuser then none else some p.max_sensitivity

  unfoldable pub list_memories :
      Option ScopeFilter → Option MemoryTier → Option MemoryKind → ℕ → ℕ → Exec State (List Memory)
  unfolding require_scope list_rows ◌>>=◌
  list_memories scope tier kind limit offset = do
    require_scope env p "read:memory"
    gets (λ s. list_rows p scope tier kind read_cap limit offset s.memories)

  unfoldable pub pending_review : ℕ → ℕ → Exec State (List Memory)
  unfolding require_scope list_pending_review ◌>>=◌
  pending_review limit offset = do
    require_scope env p "read:memory"
    gets (λ s. list_pending_review p limit offset s.memories)

  unfoldable pub pending_review_count : Exec State ℕ
  unfolding require_scope count_pending_review ◌>>=◌
  pending_review_count = do
    require_scope env p "read:memory"
    gets (λ s. count_pending_review p s.memories)

  -- a higher tier wants write access at that tier too
  abbrev pub reclassify : Option Sensitivity → Memory → Exec State (Unit {0})
  reclassify none m = pure tt
  reclassify (some s) m = require_write m s

  abbrev pub update_found : Changes → Option Memory → Exec State (Option Memory)
  update_found c none = pure none
  update_found c (some m) = do
    require_write m m.sensitivity
    reclassify c.sensitivity m
    flush (update_fields c m)
    pure (some (update_fields c m))

  unfoldable pub update : ℕ → Changes → Exec State (Option Memory)
  unfolding require_scope get_by_public_id can_write update_fields flush ◌>>=◌
  update public_id c = do
    require_scope env p "write:memory"
    found ← lookup public_id
    update_found c found

  abbrev pub deletion : Memory → Event
  deletion m = event AuditAction.memory_deleted m (deleted_memory m.public_id (take 200 m.title))

  abbrev pub carry_out_deletion : Memory → Exec State Bool
  carry_out_deletion m = do
    now ← gets (λ s. s.now)
    flush (soft_delete now m)
    audit (deletion m)
    pure true

  abbrev pub delete_found : Option Memory → Exec State Bool
  delete_found none = pure false
  delete_found (some m) = do require_write m m.sensitivity; carry_out_deletion m

  unfoldable pub delete_memory : ℕ → Exec State Bool
  unfolding require_scope get_by_public_id can_write soft_delete flush audit ◌>>=◌
  delete_memory public_id = do
    require_scope env p "write:memory"
    found ← lookup public_id
    delete_found found

  abbrev pub pin_found : Bool → Option Memory → Exec State (Option Memory)
  pin_found pinned none = pure none
  pin_found pinned (some m) = do
    require_write m m.sensitivity
    flush (set_pinned pinned m)
    pure (some (set_pinned pinned m))

  unfoldable pub pin_memory : ℕ → Bool → Exec State (Option Memory)
  unfolding require_scope get_by_public_id can_write set_pinned flush ◌>>=◌
  pin_memory public_id pinned = do
    require_scope env p "write:memory"
    found ← lookup public_id
    pin_found pinned found

  abbrev pub is_some : Option Memory → Bool
  is_some none = false
  is_some (some m) = true

  unfoldable pub bulk_one : BulkAction → ℕ → Exec State Bool
  unfolding pin_memory delete_memory ◌>>=◌
  bulk_one pin public_id = do pinned ← pin_memory public_id true; pure (is_some pinned)
  bulk_one unpin public_id = do pinned ← pin_memory public_id false; pure (is_some pinned)
  bulk_one delete public_id = delete_memory public_id
  bulk_one unknown public_id = raise unknown_action

  -- `bulk_apply`, from a number of changes on
  unfoldable pub bulk_from : BulkAction → List ℕ → ℕ → Exec State ℕ
  unfolding bulk_one ◌>>=◌
  bulk_from action [] changed = pure changed
  bulk_from action (i ∷ ids) changed = do
    done ← bulk_one action i
    bulk_from action ids (changed + (if done then 1 else 0))

  unfoldable pub bulk_apply : BulkAction → List ℕ → Exec State ℕ
  unfolding bulk_from
  bulk_apply action ids = bulk_from action ids 0

  unfoldable pub touch : List ℕ → Exec State (Unit {0})
  unfolding record_access
  touch ids s =
      (ok tt, record s { db = record s.db { memories = record_access s.now ids s.memories } })
