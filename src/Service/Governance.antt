-- ===== src/Service/Governance.antt =====
-- What `MemoryService.write` of services/memory_service.py decides before it stores anything: the PII
-- policy, the suspicion, the review and the fingerprint.
use kortex_memory.Prelude.{
  ℕ, Bool, true, false, Option, none, some, List, [], ◌∷◌, ◌++◌, Text, if◌then◌else◌,
}
use kortex_memory.Types.{ScopeType, MemoryKind, MemorySource, Sensitivity, ReviewMode, Metadata}
use kortex_memory.Policies.{
  Pattern, Reason, ReviewDecision, trust_for_source, should_quarantine, decide_review,
}
use kortex_memory.Dedup.{content_hash}
use kortex_memory.Memories.{Memory, PiiKind}
use kortex_memory.Pii.{PiiMatch, redact, summarise}
use kortex_memory.Service.State.{PiiPolicy, flag_only, escalate, Environment}

pub record CreateMemoryInput : Type 0 where
  pub scope_type : ScopeType
  pub scope_id : ℕ
  pub body : Text
  pub title : Text
  pub kind : MemoryKind
  pub sensitivity : Sensitivity
  pub source_type : MemorySource
  pub source_ref : Option Metadata
  pub importance : ℕ
  pub pinned : Bool
  pub metadata : Option Metadata
  pub expires_at : Option ℕ
  pub confidence : Option ℕ

pub record MemoryWrite : Type 0 where
  pub memory : Memory
  pub deduped : Bool
  pub pii_flags : List (PiiKind × ℕ)
  pub redacted : Bool
  pub pending_review : Bool
  pub review_reason : Reason

-- `f"{title}\n{body}"`
abbrev pub joined : Text → Text → Text
joined title body = title ++ 10 ∷ body

-- what governance makes of a payload
pub record Governed : Type 0 where
  pub title : Text
  pub body : Text
  pub sensitivity : Sensitivity
  pub findings : List (PiiKind × ℕ)
  pub redacted : Bool

-- the two lowest tiers become confidential
abbrev pub escalated : Sensitivity → Sensitivity
escalated Sensitivity.public = Sensitivity.confidential
escalated Sensitivity.internal = Sensitivity.confidential
escalated Sensitivity.confidential = Sensitivity.confidential
escalated Sensitivity.secret = Sensitivity.secret

module _ (env : Environment) where
  abbrev untouched : CreateMemoryInput → List (PiiKind × ℕ) → Governed
  untouched x findings = record {
    title = x.title;
    body = x.body;
    sensitivity = x.sensitivity;
    findings = findings;
    redacted = false;
  }

  abbrev under_policy : PiiPolicy → CreateMemoryInput → List (PiiKind × ℕ) → Governed
  under_policy PiiPolicy.redact x findings = record {
    title = redact x.title (env.scan x.title);
    body = redact x.body (env.scan x.body);
    sensitivity = x.sensitivity;
    findings = findings;
    redacted = true;
  }
  under_policy escalate x findings = record (untouched x findings) {
    sensitivity = escalated x.sensitivity;
  }
  under_policy flag_only x findings = untouched x findings

  abbrev on_matches : CreateMemoryInput → List PiiMatch → Governed
  on_matches x [] = untouched x []
  on_matches x (m ∷ ms) = under_policy env.pii_policy x (summarise (m ∷ ms))

  -- the PII scan, and what `pii_policy` does with its matches
  unfoldable pub govern : CreateMemoryInput → Governed
  unfolding redact summarise
  govern x =
      if env.pii_detection then on_matches x (env.scan (joined x.title x.body)) else untouched x []

  -- the patterns that `decide_review` is given as the reason for suspicion
  unfoldable pub suspicion_of : CreateMemoryInput → Governed → List Pattern
  unfolding should_quarantine trust_for_source
  suspicion_of x g =
      if env.injection_quarantine
      then (should_quarantine env.search (trust_for_source x.source_type)
          (joined g.title g.body)).patterns
      else []

  unfoldable pub review_of : ReviewMode → CreateMemoryInput → Governed → ReviewDecision
  unfolding decide_review suspicion_of
  review_of mode x g =
      decide_review mode x.confidence env.review_confidence_threshold (suspicion_of x g)

  -- `settings.dedup_on_write` is on: the fingerprint of what will be stored
  unfoldable pub digest_of : Governed → Option Text
  unfolding content_hash
  digest_of g =
      if env.dedup_on_write then some (content_hash env.nfkc env.sha256 g.title g.body) else none
