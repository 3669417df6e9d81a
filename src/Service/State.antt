-- ===== src/Service/State.antt =====
-- The state of a `MemoryService`, and what surrounds its calls.
use Prim.Native.String.{String}
use kortex_memory.Prelude.{ℕ, Bool, Option, List, Text}
use kortex_memory.Types.{ReviewMode}
use kortex_memory.Policies.{Pattern}
use kortex_memory.Audit
use kortex_memory.Audit.{Payload}
use kortex_memory.Memories
use kortex_memory.Memories.{MemoryLink, Vector}
use kortex_memory.Pii.{PiiMatch}

pub record Org : Type 0 where
  pub id : ℕ
  pub plan : String

pub record Project : Type 0 where
  pub id : ℕ
  pub org_id : ℕ
  pub review_mode : ReviewMode
  pub text_search_config : String

-- the tables, the sequences of their ids, and the clock
pub record Database : Type 0 where
  pub memories : Memories.Table
  pub links : List MemoryLink
  pub audit : Audit.Table
  pub next_id : ℕ
  pub next_audit_id : ℕ
  pub now : ℕ
  pub orgs : List Org
  pub projects : List Project

-- the session, and `_org_plan`, `_mem_count` and `_project_settings`
pub record State : Type 0 where
  pub db : Database
  pub open db use *
  pub org_plan : Option String
  pub mem_count : Option ℕ
  pub project_settings : List (ℕ × (ReviewMode × String))

-- `settings.pii_policy`: any other value only records what was found
pub data PiiPolicy : Type 0 where
  flag_only redact escalate : PiiPolicy

-- the settings, the origin of the request, and the functions that stand for code outside: the PII
-- detector, the regular expressions of the trust policy, Unicode normalisation, the hashes, and the
-- embedder, which may fail
pub record Environment : Type 0 where
  pub pii_detection : Bool
  pub pii_policy : PiiPolicy
  pub injection_quarantine : Bool
  pub review_confidence_threshold : ℕ
  pub dedup_on_write : Bool
  pub origin_ip : Option Text
  pub origin_agent : Option Text
  pub scan : Text → List PiiMatch
  pub search : Pattern → Text → Bool
  pub nfkc : Text → Text
  pub sha256 : Text → Text
  pub audit_hash : Payload → Text
  pub embed : Text → Option Vector
  pub embedder_model : Text
