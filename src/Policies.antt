-- ===== src/Policies.antt =====
-- The pure rules of packages/kortex-core/src/kortex_core: skills/trust_policy.py,
-- skills/review_policy.py, embeddings/retry.py, security/plan_limits.py and the sensitivity caps of
-- repositories/memory_repo.py. The five regular expressions of the trust policy are run by Python's
-- `re`: whether one of them occurs in a text is the parameter `search`. A confidence is a number of
-- millionths, since the code only compares it. Times are seconds.
pub mod Laws
pub mod Retrying
pub mod Tests
use Prim.Native.String.{String}
use text.Mathlib.Text.{◌==◌ as str_eq}
use kortex_memory.Prelude.{
  ℕ, ◌+◌, ◌-◌, ◌*◌, ◌^◌, min, Bool, true, false, ◌||◌, Option, none, some, List, [], ◌∷◌, Text,
  keep, any, ltb, leb, ◌==◌, if◌then◌else◌,
}
use kortex_memory.Types.{MemorySource, Sensitivity, ReviewMode, ReviewStatus}
use kortex_memory.Access.{sensitivity_rank}

pub data Trust : Type 0 where
  high medium low : Trust

-- `_BY_SOURCE.get(source, Trust.LOW)`: every source has an entry
unfoldable pub trust_for_source : MemorySource → Trust
trust_for_source MemorySource.manual = Trust.high
trust_for_source MemorySource.message = Trust.medium
trust_for_source MemorySource.derived = Trust.medium
trust_for_source MemorySource.tool_output = Trust.low
trust_for_source MemorySource.document = Trust.low

-- the names in `_PATTERNS`
pub data Pattern : Type 0 where
  override_instructions role_reassignment system_prompt_probe exfiltration concealment : Pattern

abbrev pub patterns : List Pattern
patterns =
    Pattern.override_instructions ∷ Pattern.role_reassignment ∷ Pattern.system_prompt_probe
    ∷ Pattern.exfiltration ∷ Pattern.concealment ∷ []

pub record InjectionVerdict : Type 0 where
  pub suspicious : Bool
  pub patterns : List Pattern

abbrev nonempty {ℓ} : {A : Type ℓ} → List A → Bool
nonempty [] = false
nonempty (x ∷ xs) = true

abbrev pub innocent : InjectionVerdict
innocent = record { suspicious = false; patterns = [] }

unfoldable pub scan_for_injection : (Pattern → Text → Bool) → Text → InjectionVerdict
scan_for_injection search [] = innocent
scan_for_injection search (c ∷ cs) =
    let hits = keep (λ p. search p (c ∷ cs)) patterns in
    record { suspicious = nonempty hits; patterns = hits }

unfoldable pub should_quarantine : (Pattern → Text → Bool) → Trust → Text → InjectionVerdict
unfolding scan_for_injection
should_quarantine search Trust.low text = scan_for_injection search text
should_quarantine search Trust.medium text = innocent
should_quarantine search Trust.high text = innocent

-- `None` means every trust level
unfoldable pub trusts_allowed_for : Sensitivity → Option (List Trust)
trusts_allowed_for Sensitivity.confidential = some (Trust.high ∷ Trust.medium ∷ [])
trusts_allowed_for Sensitivity.secret = some (Trust.high ∷ Trust.medium ∷ [])
trusts_allowed_for Sensitivity.public = none
trusts_allowed_for Sensitivity.internal = none

-- The reason that a reviewer is shown, a constructor for each text that the code builds.
pub data Reason : Type 0 where
  unheld : Reason
  injection : List Pattern → Reason
  every_write : Reason
  below_threshold : ℕ → ℕ → Reason

pub record ReviewDecision : Type 0 where
  pub status : ReviewStatus
  pub reason : Reason

-- `self.status is ReviewStatus.PENDING`
abbrev pub is_pending : ReviewStatus → Bool
is_pending ReviewStatus.pending = true
is_pending ReviewStatus.approved = false
is_pending ReviewStatus.rejected = false

abbrev pub held : ReviewDecision → Bool
held d = is_pending d.status

abbrev hold : Reason → ReviewDecision
hold r = record { status = ReviewStatus.pending; reason = r }

abbrev pub approve : ReviewDecision
approve = record { status = ReviewStatus.approved; reason = unheld }

abbrev by_confidence : Option ℕ → ℕ → ReviewDecision
by_confidence none threshold = approve
by_confidence (some c) threshold =
    if ltb c threshold then hold (below_threshold c threshold) else approve

abbrev by_mode : ReviewMode → Option ℕ → ℕ → ReviewDecision
by_mode ReviewMode.all confidence threshold = hold every_write
by_mode ReviewMode.low_confidence confidence threshold = by_confidence confidence threshold
by_mode ReviewMode.off confidence threshold = approve

-- The reason of a suspicious write is the list of the patterns; it is empty if there is none.
unfoldable pub decide_review : ReviewMode → Option ℕ → ℕ → List Pattern → ReviewDecision
decide_review mode confidence threshold [] = by_mode mode confidence threshold
decide_review mode confidence threshold (p ∷ ps) = hold (injection (p ∷ ps))

-- `MAX_BACKOFF_SECONDS`
abbrev pub max_backoff_seconds : ℕ
max_backoff_seconds = 3600

pub record RetryDecision : Type 0 where
  pub attempts : ℕ
  pub next_attempt_at : Option ℕ
  pub parked : Bool

unfoldable pub decide_retry : ℕ → ℕ → ℕ → ℕ → RetryDecision
decide_retry attempts_before max_attempts retry_base_seconds now =
    let attempts = attempts_before + 1 in
    if leb max_attempts attempts
    then record { attempts = attempts; next_attempt_at = none; parked = true }
    else record {
      attempts = attempts;
      next_attempt_at =
          some (now + min (retry_base_seconds * 2 ^ (attempts - 1)) max_backoff_seconds);
      parked = false;
    }

-- `-1`, no limit, is `none`
pub record PlanLimits : Type 0 where
  pub max_memories : Option ℕ
  pub max_workspaces : Option ℕ

abbrev free_limits : PlanLimits
free_limits = record { max_memories = some 25_000; max_workspaces = some 1 }

-- `PLAN_LIMITS.get(plan, _DEFAULT)`
unfoldable pub limits_for : String → PlanLimits
limits_for plan =
    if str_eq plan "free"
    then free_limits
    else if str_eq plan "pro"
    then record { max_memories = some 100_000; max_workspaces = none }
    else if str_eq plan "team"
    then record { max_memories = some 1_000_000; max_workspaces = none }
    else free_limits

unfoldable pub max_memories : String → Option ℕ
unfolding limits_for
max_memories plan = (limits_for plan).max_memories

unfoldable pub max_workspaces : String → Option ℕ
unfolding limits_for
max_workspaces plan = (limits_for plan).max_workspaces

abbrev all_sensitivities : List Sensitivity
all_sensitivities =
    Sensitivity.public ∷ Sensitivity.internal ∷ Sensitivity.confidential ∷ Sensitivity.secret ∷ []

-- `_sensitivities_up_to` of the repository
unfoldable pub sensitivities_up_to : Sensitivity → List Sensitivity
sensitivities_up_to cap =
    keep (λ s. leb (sensitivity_rank s) (sensitivity_rank cap)) all_sensitivities

-- `sensitivity IN (...)`
abbrev pub sensitivity_in : Sensitivity → List Sensitivity → Bool
sensitivity_in s = any (λ x. sensitivity_rank s == sensitivity_rank x)
