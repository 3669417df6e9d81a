-- ===== src/Audit.antt =====
-- packages/kortex-core/src/kortex_core/repositories/audit_repo.py: the hash-chained audit log, and
-- the action names of audit.py. SHA-256 over the canonical JSON is the parameter `hash`, from the
-- fields that go into the JSON to the hex digest.
pub mod Verify
pub mod Pages
pub mod Chain
pub mod Segments
pub mod Appending
pub mod Purging
pub mod Tests
use kortex_memory.Prelude.{
  ℕ, zero, suc, ◌+◌, ◌<◌, Bool, true, false, not, ◌&&◌, ◌||◌, Option, none, some, List, [], ◌∷◌,
  ◌++◌, Text, keep, take, length, ltb, leb, ◌==◌, if◌then◌else◌,
}
use kortex_memory.Types.{ActorKind}
use kortex_memory.Policies.{Reason}

-- the members of `AuditAction` that the modelled services write
pub data AuditAction : Type 0 where
  memory_deleted memory_review_approved memory_review_rejected audit_purged : AuditAction

-- the metadata of an entry: a constructor for each dict that a caller builds
pub data Details : Type 0 where
  no_details : Details
  deleted_memory : ℕ → Text → Details
  reviewed_memory : Option Reason → ℕ → Details

pub record AuditLog : Type 0 where
  pub id : ℕ
  pub org_id : ℕ
  pub actor_kind : ActorKind
  pub actor_id : Option ℕ
  pub action : AuditAction
  pub target_type : Option Text
  pub target_id : Option ℕ
  pub metadata : Details
  pub ip : Option Text
  pub user_agent : Option Text
  pub created_at : ℕ
  pub prev_hash : Option Text
  pub entry_hash : Option Text

-- the dict that `digest` dumps
pub record Payload : Type 0 where
  pub org_id : ℕ
  pub actor_kind : ActorKind
  pub actor_id : Option ℕ
  pub action : AuditAction
  pub target_type : Option Text
  pub target_id : Option ℕ
  pub metadata : Details
  pub ip : Option Text
  pub user_agent : Option Text
  pub created_at : ℕ
  pub prev_hash : Text

-- `x or y` for a text that may be missing: an empty text counts as missing
abbrev pub or_else : Option Text → Option Text → Option Text
or_else none y = y
or_else (some []) y = y
or_else (some (c ∷ cs)) y = some (c ∷ cs)

-- `"0" * 64`
abbrev zeros : ℕ → Text
zeros zero = []
zeros (suc n) = 48 ∷ zeros n

abbrev pub genesis : Text
genesis = zeros 64

-- `h or GENESIS`
abbrev pub or_genesis : Option Text → Text
or_genesis none = genesis
or_genesis (some []) = genesis
or_genesis (some (c ∷ cs)) = c ∷ cs

unfoldable pub payload : AuditLog → Text → Payload
payload e prev = record {
  org_id = e.org_id;
  actor_kind = e.actor_kind;
  actor_id = e.actor_id;
  action = e.action;
  target_type = e.target_type;
  target_id = e.target_id;
  metadata = e.metadata;
  ip = or_else e.ip none;
  user_agent = e.user_agent;
  created_at = e.created_at;
  prev_hash = prev;
}

-- The table, in the order of the ids.
abbrev pub Table : Type 0
Table = List AuditLog

-- the entries of one org
abbrev pub of_org : ℕ → Table → Table
of_org org = keep (λ e. e.org_id == org)

abbrev pub last_hash : Option Text → Table → Option Text
last_hash h [] = h
last_hash h (e ∷ es) = last_hash e.entry_hash es

-- `head`, and `_lock_head`: the hash of the last entry of the org, or `GENESIS`
unfoldable pub head : ℕ → Table → Text
head org t = or_genesis (last_hash none (of_org org t))

-- what a caller of `append` passes
pub record Event : Type 0 where
  pub actor_kind : ActorKind
  pub actor_id : Option ℕ
  pub action : AuditAction
  pub target_type : Option Text
  pub target_id : Option ℕ
  pub metadata : Details
  pub ip : Option Text
  pub user_agent : Option Text
  pub org_id : Option ℕ

-- what surrounds a call: the id that the sequence gives next, the clock, the origin of the request,
-- and the org of the principal (0 for a superuser bound to none)
pub record Context : Type 0 where
  pub next_id : ℕ
  pub now : ℕ
  pub origin_ip : Option Text
  pub origin_agent : Option Text
  pub principal_org : Option ℕ

-- `org_id if org_id is not None else self._principal_org()`, where 0 counts as no org
abbrev nonzero : Option ℕ → Option ℕ
nonzero none = none
nonzero (some zero) = none
nonzero (some (suc n)) = some (suc n)

unfoldable pub effective_org : Option ℕ → Option ℕ → Option ℕ
effective_org none principal = nonzero principal
effective_org (some org) principal = nonzero (some org)

unfoldable pub entry_of : Context → Event → ℕ → Text → AuditLog
entry_of c v org prev = record {
  id = c.next_id;
  org_id = org;
  actor_kind = v.actor_kind;
  actor_id = v.actor_id;
  action = v.action;
  target_type = v.target_type;
  target_id = v.target_id;
  metadata = v.metadata;
  ip = or_else v.ip c.origin_ip;
  user_agent = or_else v.user_agent c.origin_agent;
  created_at = c.now;
  prev_hash = some prev;
  entry_hash = none;
}

module _ (hash : Payload → Text) where
  unfoldable pub digest : AuditLog → Text → Text
  digest e prev = hash (payload e prev)

  abbrev pub stamped : AuditLog → Text → AuditLog
  stamped e prev = record e { entry_hash = some (digest e prev) }

  abbrev pub new_entry : Context → Event → ℕ → Table → AuditLog
  new_entry c v org t = stamped (entry_of c v org (head org t)) (head org t)

  abbrev pub file_under : Option ℕ → Context → Event → Table → Option (AuditLog × Table)
  file_under none c v t = none
  file_under (some org) c v t = some (new_entry c v org t, t ++ new_entry c v org t ∷ [])

  -- `append`; `none` is the `ValueError` for a call with no org to file the entry under
  unfoldable pub append : Context → Event → Table → Option (AuditLog × Table)
  unfolding effective_org entry_of head digest
  append c v t = file_under (effective_org v.org_id c.principal_org) c v t

abbrev since_ok : Option ℕ → ℕ → Bool
since_ok none t = true
since_ok (some since) t = leb since t

abbrev until_ok : Option ℕ → ℕ → Bool
until_ok none t = true
until_ok (some until) t = ltb t until

abbrev pub page_test : ℕ → Option ℕ → Option ℕ → ℕ → AuditLog → Bool
page_test org since until after_id e =
    e.org_id == org
    && ltb after_id e.id
    && since_ok since e.created_at
    && until_ok until e.created_at

-- `read`: a page of one org in the order of the ids
unfoldable pub read : ℕ → Option ℕ → Option ℕ → ℕ → ℕ → Table → Table
read org since until after_id limit t = take limit (keep (page_test org since until after_id) t)

-- `purge_before`: the table that is left, and how many entries went
unfoldable pub purge_before : ℕ → ℕ → Table → Table × ℕ
purge_before org cutoff t =
    let gone : AuditLog → Bool = λ e. e.org_id == org && ltb e.created_at cutoff in
    (keep (λ e. not (gone e)) t, length (keep gone t))
