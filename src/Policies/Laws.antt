-- ===== src/Policies/Laws.antt =====
-- What the rules of skills/trust_policy.py and skills/review_policy.py decide.
use kortex_memory.Prelude.{
  ℕ, ◌≤◌, ◌<◌, ◌≡◌, ◌≢◌, ◌⊎◌, ◌↔◌, inl, inr, Bool, true, some, none, Option, List, [], ◌∷◌, Text,
  arith, refl,
}
use kortex_memory.Types.{MemorySource, Sensitivity, ReviewMode, ReviewStatus}
use kortex_memory.Access.{sensitivity_rank}
use kortex_memory.Policies.{
  trust_for_source, Pattern, should_quarantine, decide_review, sensitivities_up_to, sensitivity_in,
}

-- the patterns that a write of this source is held for
abbrev pub suspicion : (Pattern → Text → Bool) → MemorySource → Text → List Pattern
suspicion search source text = (should_quarantine search (trust_for_source source) text).patterns

-- one of the patterns occurs in the text, and the source is a document or the output of a tool
abbrev pub IsSuspect : (Pattern → Text → Bool) → MemorySource → Text → Type 0
IsSuspect search source text =
    ((source ≡ MemorySource.document) ⊎ (source ≡ MemorySource.tool_output))
    × (text ≢ [])
    × ((search Pattern.override_instructions text ≡ true)
        ⊎ (search Pattern.role_reassignment text ≡ true)
        ⊎ (search Pattern.system_prompt_probe text ≡ true)
        ⊎ (search Pattern.exfiltration text ≡ true)
        ⊎ (search Pattern.concealment text ≡ true))

-- the writer reported a confidence below the threshold
abbrev pub IsUnsure : Option ℕ → ℕ → Type 0
IsUnsure none threshold = ⊥
IsUnsure (some c) threshold = c < threshold

suspicion_iff :
    (search : Pattern → Text → Bool) (source : MemorySource) (text : Text)
    → (suspicion search source text ≢ []) ↔ IsSuspect search source text
unfolding should_quarantine trust_for_source
suspicion_iff search source [] = (λ h. ground arith, λ h. ground arith)
suspicion_iff search source (c ∷ cs) = (λ h. ground arith, λ h. ground arith)

abbrev Held : ReviewMode → Option ℕ → ℕ → List Pattern → Type 0
Held mode confidence threshold ps =
    (ps ≢ [])
    ⊎ (mode ≡ ReviewMode.all)
    ⊎ ((mode ≡ ReviewMode.low_confidence) × IsUnsure confidence threshold)

pending_iff :
    (mode : ReviewMode) (confidence : Option ℕ) (threshold : ℕ) (ps : List Pattern)
    → ((decide_review mode confidence threshold ps).status ≡ ReviewStatus.pending)
      ↔ Held mode confidence threshold ps
unfolding decide_review
pending_iff mode c t (p ∷ ps) = (λ h. inl (λ e. cc e), λ h. refl)
pending_iff ReviewMode.all c t [] = (λ h. inr (inl refl), λ h. refl)
pending_iff ReviewMode.off c t [] = (λ h. ground arith, λ h. ground arith)
pending_iff ReviewMode.low_confidence none t [] = (λ h. ground arith, λ h. ground arith)
pending_iff ReviewMode.low_confidence (some c) t [] = (λ h. ground arith, λ h. ground arith)

pending_or_approved :
    (mode : ReviewMode) (confidence : Option ℕ) (threshold : ℕ) (ps : List Pattern)
    → let d = decide_review mode confidence threshold ps in
      (d.status ≡ ReviewStatus.pending) ⊎ (d.status ≡ ReviewStatus.approved)
unfolding decide_review
pending_or_approved mode c t ps = ground arith

-- A write is held exactly if it is a document or tool output, not empty, in which a pattern occurs,
-- or the project reviews every write, or it reviews unsure writes and the confidence lies below the
-- threshold; otherwise it is approved at once.
pub decide_review-held :
    (search : Pattern → Text → Bool) (source : MemorySource) (text : Text) (mode : ReviewMode)
    (confidence : Option ℕ) (threshold : ℕ)
    → let d = decide_review mode confidence threshold (suspicion search source text) in
      ((d.status ≡ ReviewStatus.pending) ↔ (
        IsSuspect search source text
        ⊎ (mode ≡ ReviewMode.all)
        ⊎ ((mode ≡ ReviewMode.low_confidence) × IsUnsure confidence threshold)))
      × ((d.status ≡ ReviewStatus.pending) ⊎ (d.status ≡ ReviewStatus.approved))
decide_review-held search source text mode confidence threshold =
    let ps = suspicion search source text in
    let p = pending_iff mode confidence threshold ps in
    let q = suspicion_iff search source text in
    (
      (λ h. first q.0 (p.0 h), λ h. p.1 (first q.1 h)),
      pending_or_approved mode confidence threshold ps,
    )
  where
    first : {A B C : Type 0} → (A → B) → A ⊎ C → B ⊎ C
    first f (inl a) = inl (f a)
    first f (inr c) = inr c

-- A recall capped at `cap` reads exactly the sensitivities whose rank is at most that of `cap`.
pub sensitivities_up_to_iff :
    (cap s : Sensitivity)
    → (sensitivity_in s (sensitivities_up_to cap) ≡ true)
      ↔ (sensitivity_rank s ≤ sensitivity_rank cap)
unfolding sensitivities_up_to
sensitivities_up_to_iff cap s = (λ h. ground arith, λ h. ground arith)
