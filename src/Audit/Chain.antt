-- ===== src/Audit/Chain.antt =====
-- What `verify` of repositories/audit_repo.py accepts, against an independent description of a chain.
use kortex_memory.Prelude.{
  ℕ, ◌≡◌, ◌≢◌, ◌⊎◌, inl, inr, ◌↔◌, refl, sym, ◌∙◌, ap, true, false, Option, none, some, [], ◌∷◌,
  Text, All, Bool-cases, text_eq, text_eq_iff, option_text_eq, option_text_eq_iff,
}
use kortex_memory.Audit.{AuditLog, Payload, Table, genesis, or_genesis, payload, digest, of_org}
use kortex_memory.Audit.Verify.{
  Walk, Outcome, ChainStatus, going, broken, start, anchored, anchor_with, counted, step_on,
  check_entry, step, walk, status, intact_status, broken_status, altered_or_removed,
  content_differs, verify,
}
use kortex_memory.Audit.Pages.{IsOrdered, verify-walk}

some_inj : {s t : Text} → some s ≡ some t → s ≡ t
some_inj p = cc p

-- an entry written since chaining exists
abbrev pub IsChained : AuditLog → Type 0
IsChained e = (h : Text) × (e.entry_hash ≡ some h)

-- what the first entry points at
abbrev pub anchor_of : Table → Text
anchor_of [] = genesis
anchor_of (e ∷ es) = or_genesis e.prev_hash

module _ (hash : Payload → Text) where
  -- Every entry points at the digest of the entry before it, the first at `p`, and holds its own.
  abbrev pub Linked : Text → Table → Type 0
  Linked p [] = Unit
  Linked p (e ∷ es) =
      (e.prev_hash ≡ some p) × (e.entry_hash ≡ some (digest hash e p)) × Linked (digest hash e p) es

module _ (hash : Payload → Text) (org : ℕ) where
  abbrev Checked : Walk → AuditLog → Text → Text → Type 0
  Checked w e h p =
      (check_entry hash org w e h ≡ going (record w { expected = some h }))
      × (e.prev_hash ≡ some p)
      × (h ≡ digest hash e p)

  abbrev Refused : Walk → AuditLog → Text → Text → Type 0
  Refused w e h p =
      (s : ChainStatus) × (check_entry hash org w e h ≡ broken s)
      × (s.intact ≡ false)
      × ¬ ((e.prev_hash ≡ some p) × (h ≡ digest hash e p))

  or_genesis-some : (p : Text) → p ≢ [] → or_genesis (some p) ≡ p
  or_genesis-some [] h = absurd (h refl)
  or_genesis-some (c ∷ cs) h = refl

  check_entry-cases :
      (w : Walk) (e : AuditLog) (h p : Text)
      → w.expected ≡ some p
      → p ≢ []
      → Checked w e h p ⊎ Refused w e h p
  unfolding check_entry
  check_entry-cases w e h p x ne = elim (Bool-cases (option_text_eq e.prev_hash w.expected)) [
    | inr differ ↦ inr (
      broken_status org w e (altered_or_removed w.expected e.prev_hash),
      rw (differ, check_entry),
      refl,
      λ q. cc (differ, (option_text_eq_iff e.prev_hash w.expected).1 (q.0 ∙ sym x)),
    )
    | inl same ↦
        let q : e.prev_hash ≡ some p = (option_text_eq_iff e.prev_hash w.expected).0 same ∙ x in
        let d : digest hash e (or_genesis e.prev_hash) ≡ digest hash e p =
          ap (digest hash e) (ap or_genesis q ∙ or_genesis-some p ne) in
        elim (Bool-cases (text_eq (digest hash e (or_genesis e.prev_hash)) h)) [
          | inr differ ↦ inr (
            broken_status org w e content_differs,
            rw (same, differ, check_entry),
            refl,
            λ r.
                cc (
                  differ,
                  (text_eq_iff (digest hash e (or_genesis e.prev_hash)) h).1 (d ∙ sym r.1),
                ),
          )
          | inl equal ↦ inl (
            rw (same, equal, check_entry),
            q,
            sym ((text_eq_iff (digest hash e (or_genesis e.prev_hash)) h).0 equal) ∙ d,
          )
        ]
  ]

  step-check :
      (w : Walk) (e : AuditLog) (h : Text)
      → e.entry_hash ≡ some h
      → step hash org w e ≡ check_entry hash org (anchored (counted w) e) e h
  unfolding step
  step-check w e h x = ap (λ o. step_on hash org o w e) x

  anchored_already :
      (w : Walk) (e : AuditLog) (p : Text)
      → w.expected ≡ some p
      → anchored (counted w) e ≡ counted w
  anchored_already w e p x = ap (λ o. anchor_with o (counted w) e) x

  abbrev proceed : Outcome → Table → Outcome
  proceed o es = elim o [ broken s ↦ broken s | going w' ↦ walk hash org w' es ]

  walk-proceed :
      (w : Walk) (e : AuditLog) (es : Table) {o : Outcome}
      → step hash org w e ≡ o
      → walk hash org w (e ∷ es) ≡ proceed o es
  unfolding walk
  walk-proceed w e es x = ap (λ o. proceed o es) x

  module _ (solid : (x : Payload) → hash x ≢ []) where
    -- one entry of the walk, and the rest of it
    verdict-entry :
        (w v : Walk) (p h : Text) (e : AuditLog) (es : Table)
        → v.expected ≡ some p
        → p ≢ []
        → e.entry_hash ≡ some h
        → step hash org w e ≡ check_entry hash org v e h
        → ((v' : Walk)
            → v'.expected ≡ some (digest hash e p)
            → ((status hash org (walk hash org v' es)).intact ≡ true)
              ↔ Linked hash (digest hash e p) es)
        → ((status hash org (walk hash org w (e ∷ es))).intact ≡ true) ↔ Linked hash p (e ∷ es)
    verdict-entry w v p h e es x ne c s ih = elim (check_entry-cases v e h p x ne) [
      | inl ok ↦
          let v' : Walk = record v { expected = some h } in
          let go : walk hash org w (e ∷ es) ≡ walk hash org v' es =
            walk-proceed w e es (s ∙ ok.0) in
          let rest = ih v' (ap some ok.2) in
          (
            λ i. (
              ok.1,
              c ∙ ap some ok.2,
              rest.0 (sym (ap (λ o. (status hash org o).intact) go) ∙ i),
            ),
            λ l. ap (λ o. (status hash org o).intact) go ∙ rest.1 l.2,
          )
      | inr bad ↦
          let stop : (status hash org (walk hash org w (e ∷ es))).intact ≡ false =
            ap (λ o. (status hash org o).intact) (walk-proceed w e es (s ∙ bad.1)) ∙ bad.2 in
          (λ i. cc (stop, i), λ l. absurd (bad.3 (l.0, some_inj (sym c ∙ l.1))))
    ]

    verdict_from :
        (w : Walk) (p : Text) (es : Table)
        → w.expected ≡ some p
        → p ≢ []
        → All IsChained es
        → ((status hash org (walk hash org w es)).intact ≡ true) ↔ Linked hash p es
    unfolding walk intact_status
    verdict_from w p [] x ne c = (λ _. tt, λ _. refl)
    verdict_from w p (e ∷ es) x ne c =
        verdict-entry w (counted w) p c.0.0 e es x ne c.0.1
          (step-check w e c.0.0 c.0.1
            ∙ ap (λ v. check_entry hash org v e c.0.0) (anchored_already w e p x))
          (λ v' x'.
            verdict_from v' (digest hash e p) es x' (unfold digest in solid (payload e p)) c.1)

    or_genesis_solid : (h : Option Text) → or_genesis h ≢ []
    or_genesis_solid none = λ q. cc q
    or_genesis_solid (some []) = λ q. cc q
    or_genesis_solid (some (c ∷ cs)) = λ q. cc q

    verdict_start :
        (es : Table)
        → All IsChained es
        → ((status hash org (walk hash org start es)).intact ≡ true) ↔ Linked hash (anchor_of es) es
    unfolding walk intact_status
    verdict_start [] c = (λ _. tt, λ _. refl)
    verdict_start (e ∷ es) c =
        verdict-entry start (anchored (counted start) e) (or_genesis e.prev_hash) c.0.0 e es refl
          (or_genesis_solid e.prev_hash) c.0.1 (step-check start e c.0.0 c.0.1)
          (λ v' x'.
            verdict_from v' (digest hash e (or_genesis e.prev_hash)) es x'
              (unfold digest in solid (payload e (or_genesis e.prev_hash))) c.1)

    -- If every entry of the org has a hash, `verify` finds the chain intact exactly when each entry
    -- points at the digest of the one before it and holds its own digest, the first pointing at the
    -- anchor. The table is in the order of the ids, and no digest is the empty text.
    pub verify-Linked :
        (t : Table)
        → IsOrdered 0 t
        → All IsChained (of_org org t)
        → ((verify hash org t).intact ≡ true)
          ↔ Linked hash (anchor_of (of_org org t)) (of_org org t)
    verify-Linked t o c = rw (verify-walk hash org t o) (verdict_start (of_org org t) c)
