-- ===== src/Audit/Purging.antt =====
-- `AuditRepository.purge_before` of repositories/audit_repo.py: retention keeps the chain verifiable.
use kortex_memory.Prelude.{
  ℕ, ◌≤◌, ◌≡◌, ◌≢◌, refl, sym, ◌∙◌, ap, subst, Bool, true, false, not, ◌&&◌, [], ◌∷◌, ◌++◌, Text,
  All, keep, Bool-cases, inl, inr, ltb, ◌==◌, arith,
}
use kortex_memory.Audit.{AuditLog, Payload, Table, of_org, purge_before}
use kortex_memory.Audit.Verify.{verify}
use kortex_memory.Audit.Pages.{IsOrdered}
use kortex_memory.Audit.Chain.{IsChained}
use kortex_memory.Audit.Segments.{verify-segment}

append_nil : (es : Table) → es ++ [] ≡ es
append_nil [] = refl
append_nil (e ∷ es) = rw (append_nil es)

-- the clock does not run backwards along a chain
abbrev pub IsTimed : ℕ → Table → Type 0
IsTimed lo [] = Unit
IsTimed lo (e ∷ es) = (lo ≤ e.created_at) × IsTimed e.created_at es

abbrev pub gone : ℕ → ℕ → AuditLog → Bool
gone org cutoff e = e.org_id == org && ltb e.created_at cutoff

abbrev pub rest : ℕ → ℕ → Table → Table
rest org cutoff = keep (λ e. not (gone org cutoff e))

abbrev old : ℕ → Table → Table
old cutoff = keep (λ e. ltb e.created_at cutoff)

abbrev young : ℕ → Table → Table
young cutoff = keep (λ e. not (ltb e.created_at cutoff))

young-late : (cutoff lo : ℕ) (es : Table) → cutoff ≤ lo → IsTimed lo es → young cutoff es ≡ es
young-late cutoff lo [] h t = refl
young-late cutoff lo (e ∷ es) h t =
    ground (arith, h, t.0, young-late cutoff e.created_at es (omega (arith, h, t.0)) t.1)

old-late : (cutoff lo : ℕ) (es : Table) → cutoff ≤ lo → IsTimed lo es → old cutoff es ≡ []
old-late cutoff lo [] h t = refl
old-late cutoff lo (e ∷ es) h t =
    ground (arith, h, t.0, old-late cutoff e.created_at es (omega (arith, h, t.0)) t.1)

-- what is old stands in front
split_at : (cutoff lo : ℕ) (es : Table) → IsTimed lo es → es ≡ old cutoff es ++ young cutoff es
split_at cutoff lo [] t = refl
split_at cutoff lo (e ∷ es) t = elim (Bool-cases (ltb e.created_at cutoff)) [
  | inl before ↦ rw before (ap (λ l. e ∷ l) (split_at cutoff e.created_at es t.1))
  | inr after ↦
      let late : cutoff ≤ e.created_at = ground (arith, after) in
      rw
        (
          after,
          old-late cutoff e.created_at es late t.1,
          young-late cutoff e.created_at es late t.1,
        )
        refl
]

of_org-rest :
    (org cutoff : ℕ) (t : Table) → of_org org (rest org cutoff t) ≡ young cutoff (of_org org t)
of_org-rest org cutoff [] = refl
of_org-rest org cutoff (e ∷ t) = ground (arith, of_org-rest org cutoff t)

of_org-others :
    (org other cutoff : ℕ) (t : Table)
    → other ≢ org
    → of_org other (rest org cutoff t) ≡ of_org other t
of_org-others org other cutoff [] h = refl
of_org-others org other cutoff (e ∷ t) h = ground (arith, of_org-others org other cutoff t h)

keep-stays :
    (org cutoff : ℕ) (e : AuditLog) (t : Table)
    → not (gone org cutoff e) ≡ true
    → rest org cutoff (e ∷ t) ≡ e ∷ rest org cutoff t
keep-stays org cutoff e t h = rw h refl

keep-goes :
    (org cutoff : ℕ) (e : AuditLog) (t : Table)
    → not (gone org cutoff e) ≡ false
    → rest org cutoff (e ∷ t) ≡ rest org cutoff t
keep-goes org cutoff e t h = rw h refl

IsOrdered-down : (lo hi : ℕ) (t : Table) → lo ≤ hi → IsOrdered hi t → IsOrdered lo t
IsOrdered-down lo hi [] h o = tt
IsOrdered-down lo hi (e ∷ t) h o = (omega (arith, h, o.0), o.1)

IsOrdered-rest : (org cutoff lo : ℕ) (t : Table) → IsOrdered lo t → IsOrdered lo (rest org cutoff t)
IsOrdered-rest org cutoff lo [] o = tt
IsOrdered-rest org cutoff lo (e ∷ t) o =
    let kept : IsOrdered e.id (rest org cutoff t) = IsOrdered-rest org cutoff e.id t o.1 in
    elim (Bool-cases (not (gone org cutoff e))) [
      | inl stays ↦ subst (IsOrdered lo) (sym (keep-stays org cutoff e t stays)) (o.0, kept)
      | inr goes ↦
          subst (IsOrdered lo) (sym (keep-goes org cutoff e t goes))
            (IsOrdered-down lo e.id (rest org cutoff t) (omega (arith, o.0)) kept)
    ]

module _ (hash : Payload → Text) (solid : (p : Payload) → hash p ≢ []) where
  -- If a chain with hashes everywhere verifies, in a table in the order of the ids along which the
  -- times of the org do not decrease, then it verifies after a purge too; the purge takes no entry of
  -- another org.
  pub verify-purge_before :
      (org cutoff : ℕ) (t : Table)
      → IsOrdered 0 t
      → All IsChained (of_org org t)
      → IsTimed 0 (of_org org t)
      → (verify hash org t).intact ≡ true
      → ((verify hash org (purge_before org cutoff t).0).intact ≡ true)
        × ((other : ℕ) → other ≢ org → of_org other (purge_before org cutoff t).0 ≡ of_org other t)
  unfolding purge_before
  verify-purge_before org cutoff t o c timed i =
      let es : Table = of_org org t in
      (
        verify-segment hash solid org t (rest org cutoff t) (old cutoff es) [] o
            (IsOrdered-rest org cutoff 0 t o)
            (split_at cutoff 0 es timed
              ∙ ap (λ l. old cutoff es ++ l) (sym (of_org-rest org cutoff t))
              ∙ sym (append_nil (old cutoff es ++ of_org org (rest org cutoff t))))
            c i,
        λ other h. of_org-others org other cutoff t h,
      )
