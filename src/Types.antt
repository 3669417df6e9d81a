-- ===== src/Types.antt =====
-- packages/kortex-core/src/kortex_core/db/types.py: the enums that the rows and the policies share,
-- and the equality of the ones that the code compares. An enum compares by identity; `code` numbers
-- the members, so that equality is a test on numbers.
use kortex_memory.Prelude.{ℕ, Bool, true, List, Text, ◌≡◌, ◌↔◌, ◌==◌, arith}

pub data ScopeType : Type 0 where
  org workspace project session : ScopeType

pub data Role : Type 0 where
  owner admin member viewer : Role

pub data Sensitivity : Type 0 where
  public internal confidential secret : Sensitivity

pub data MemoryTier : Type 0 where
  short mid long : MemoryTier

pub data MemoryKind : Type 0 where
  fact preference decision procedure code_artifact event summary : MemoryKind

pub data MemorySource : Type 0 where
  message document derived manual tool_output : MemorySource

pub data ReviewStatus : Type 0 where
  approved pending rejected : ReviewStatus

pub data ReviewMode : Type 0 where
  off low_confidence all : ReviewMode

pub data MemoryLinkType : Type 0 where
  related derived_from supersedes contradicts part_of : MemoryLinkType

pub data ActorKind : Type 0 where
  user api_key system : ActorKind

abbrev pub scope_code : ScopeType → ℕ
scope_code ScopeType.org = 0
scope_code ScopeType.workspace = 1
scope_code ScopeType.project = 2
scope_code ScopeType.session = 3

abbrev pub tier_code : MemoryTier → ℕ
tier_code MemoryTier.short = 0
tier_code MemoryTier.mid = 1
tier_code MemoryTier.long = 2

abbrev pub kind_code : MemoryKind → ℕ
kind_code MemoryKind.fact = 0
kind_code MemoryKind.preference = 1
kind_code MemoryKind.decision = 2
kind_code MemoryKind.procedure = 3
kind_code MemoryKind.code_artifact = 4
kind_code MemoryKind.event = 5
kind_code MemoryKind.summary = 6

abbrev pub link_code : MemoryLinkType → ℕ
link_code MemoryLinkType.related = 0
link_code MemoryLinkType.derived_from = 1
link_code MemoryLinkType.supersedes = 2
link_code MemoryLinkType.contradicts = 3
link_code MemoryLinkType.part_of = 4

abbrev pub status_code : ReviewStatus → ℕ
status_code ReviewStatus.approved = 0
status_code ReviewStatus.pending = 1
status_code ReviewStatus.rejected = 2

abbrev pub scope_type_eq : ScopeType → ScopeType → Bool
scope_type_eq a b = scope_code a == scope_code b

abbrev pub tier_eq : MemoryTier → MemoryTier → Bool
tier_eq a b = tier_code a == tier_code b

abbrev pub kind_eq : MemoryKind → MemoryKind → Bool
kind_eq a b = kind_code a == kind_code b

abbrev pub link_eq : MemoryLinkType → MemoryLinkType → Bool
link_eq a b = link_code a == link_code b

abbrev pub status_eq : ReviewStatus → ReviewStatus → Bool
status_eq a b = status_code a == status_code b

pub scope_type_eq_iff : (a b : ScopeType) → (scope_type_eq a b ≡ true) ↔ (a ≡ b)
scope_type_eq_iff a b = ground arith

pub kind_eq_iff : (a b : MemoryKind) → (kind_eq a b ≡ true) ↔ (a ≡ b)
kind_eq_iff a b = ground arith

-- A value of a JSONB object. `other` carries a number, an array or an object by its two texts: what
-- Postgres' `->>` shows, and what Python's `str` shows.
pub data Json : Type 0 where
  null : Json
  flag : Bool → Json
  text : Text → Json
  other : Text → Text → Json

-- `Memory.metadata_` and the metadata of an audit entry: a dict with text keys
abbrev pub Metadata : Type 0
Metadata = List (Text × Json)
