-- ===== src/Audit/Appending.antt =====
-- `append` of repositories/audit_repo.py, against `verify`.
use kortex_memory.Prelude.{
  ℕ, ◌<◌, ◌≡◌, ◌≢◌, refl, sym, ◌∙◌, ap, subst, true, Option, none, some, List, [], ◌∷◌, ◌++◌, Text,
  All, Bool-cases, inl, inr, ◌==◌, ==_iff, if◌then◌else◌, arith,
}
use kortex_memory.Audit.{
  AuditLog, Payload, Table, Event, Context, payload, digest, of_org, head, effective_org, entry_of,
  append, new_entry, file_under,
}
use kortex_memory.Audit.Verify.{verify}
use kortex_memory.Audit.Pages.{IsOrdered}
use kortex_memory.Audit.Chain.{IsChained, Linked, anchor_of, verify-Linked}
use kortex_memory.Audit.Segments.{append-Linked, head-final, Linked-anchor_of, anchor_of-solid}

-- the id that the sequence gives lies above every id of the table
abbrev pub IsBelow : ℕ → Table → Type 0
IsBelow n t = All (λ (e : AuditLog). e.id < n) t

IsOrdered-append :
    (lo : ℕ) (t : Table) (e : AuditLog)
    → IsOrdered lo t
    → lo < e.id
    → IsBelow e.id t
    → IsOrdered lo (t ++ e ∷ [])
IsOrdered-append lo [] e o h b = (h, tt)
IsOrdered-append lo (f ∷ t) e o h b = (o.0, IsOrdered-append f.id t e o.1 b.0 b.1)

of_org-append :
    (org : ℕ) (t : Table) (e : AuditLog)
    → of_org org (t ++ e ∷ []) ≡ (if e.org_id == org then of_org org t ++ e ∷ [] else of_org org t)
of_org-append org [] e = refl
of_org-append org (f ∷ t) e = ground (arith, of_org-append org t e)

All-snoc {ℓ κ} :
    {A : Type ℓ} (P : A → Type κ) (xs : List A) (x : A) → All P xs → P x → All P (xs ++ x ∷ [])
All-snoc P [] x h p = (p, tt)
All-snoc P (y ∷ ys) x h p = (h.0, All-snoc P ys x h.1 p)

module _ (hash : Payload → Text) where
  filed :
      (o : Option ℕ) (c : Context) (v : Event) (t : Table) {e : AuditLog} {t' : Table}
      → file_under hash o c v t ≡ some (e, t')
      → (org : ℕ) × (e ≡ new_entry hash c v org t) × (t' ≡ t ++ e ∷ [])
  filed none c v t h = cc h
  filed (some org) c v t h =
      let q = some_inj h in
      (org, sym (ap (λ r. r.0) q), sym (ap (λ r. r.1) q) ∙ ap (λ x. t ++ x ∷ []) (ap (λ r. r.0) q))
    where
      some_inj : {A : Type 0} {x y : A} → some x ≡ some y → x ≡ y
      some_inj p = cc p

  -- what a successful call of `append` wrote
  append-eq-some :
      (c : Context) (v : Event) (t : Table) {e : AuditLog} {t' : Table}
      → append hash c v t ≡ some (e, t')
      → (org : ℕ) × (e ≡ new_entry hash c v org t) × (t' ≡ t ++ e ∷ [])
  append-eq-some c v t h = filed (effective_org v.org_id c.principal_org) c v t (unfold append in h)

  new_entry-id :
      (c : Context) (v : Event) (org : ℕ) (t : Table)
      → ((new_entry hash c v org t).id ≡ c.next_id)
        × ((new_entry hash c v org t).org_id ≡ org)
        × ((new_entry hash c v org t).prev_hash ≡ some (head org t))
        × ((new_entry hash c v org t).entry_hash
            ≡ some (digest hash (new_entry hash c v org t) (head org t)))
  unfolding entry_of digest payload
  new_entry-id c v org t = (refl, refl, refl, refl)

  module _ (solid : (x : Payload) → hash x ≢ []) where
    -- the new entry continues the chain of its org
    chain-new :
        (c : Context) (v : Event) (org : ℕ) (t : Table)
        → Linked hash (anchor_of (of_org org t)) (of_org org t)
        → Linked hash (anchor_of (of_org org t)) (of_org org t ++ new_entry hash c v org t ∷ [])
    chain-new c v org t l =
        let d = new_entry-id c v org t in
        let h = head-final hash solid org t l in
        append-Linked hash (anchor_of (of_org org t)) (of_org org t) (new_entry hash c v org t ∷ [])
          l (d.2 ∙ ap some h, d.3 ∙ ap (λ p. some (digest hash (new_entry hash c v org t) p)) h, tt)

    -- the table of an org that gets an entry
    verify-own :
        (c : Context) (v : Event) (t : Table) (org : ℕ)
        → IsOrdered 0 (t ++ new_entry hash c v org t ∷ [])
        → of_org org (t ++ new_entry hash c v org t ∷ [])
          ≡ of_org org t ++ new_entry hash c v org t ∷ []
        → All IsChained (of_org org t)
        → Linked hash (anchor_of (of_org org t)) (of_org org t)
        → (verify hash org (t ++ new_entry hash c v org t ∷ [])).intact ≡ true
    verify-own c v t org o same ch l =
        let d = new_entry-id c v org t in
        let e : AuditLog = new_entry hash c v org t in
        let all : All IsChained (of_org org t ++ e ∷ []) =
          All-snoc IsChained (of_org org t) e ch (digest hash e (head org t), d.3) in
        (verify-Linked hash org solid (t ++ e ∷ []) o (subst (All IsChained) (sym same) all)).1 (
          subst (λ es. Linked hash (anchor_of es) es) (sym same)
            (Linked-anchor_of hash solid (anchor_of (of_org org t)) (of_org org t ++ e ∷ [])
              (anchor_of-solid hash solid (of_org org t)) (chain-new c v org t l)))

    -- the table of an org that gets none
    verify-other :
        (t : Table) (e : AuditLog) (org : ℕ)
        → IsOrdered 0 (t ++ e ∷ [])
        → of_org org (t ++ e ∷ []) ≡ of_org org t
        → All IsChained (of_org org t)
        → Linked hash (anchor_of (of_org org t)) (of_org org t)
        → (verify hash org (t ++ e ∷ [])).intact ≡ true
    verify-other t e org o same ch l =
        (verify-Linked hash org solid (t ++ e ∷ []) o (subst (All IsChained) (sym same) ch)).1
          (subst (λ es. Linked hash (anchor_of es) es) (sym same) l)

    verify-new :
        (c : Context) (v : Event) (n : ℕ) (t : Table) (org : ℕ)
        → IsOrdered 0 t
        → 0 < c.next_id
        → IsBelow c.next_id t
        → All IsChained (of_org org t)
        → (verify hash org t).intact ≡ true
        → (verify hash org (t ++ new_entry hash c v n t ∷ [])).intact ≡ true
    verify-new c v n t org o pos b ch i =
        let d = new_entry-id c v n t in
        let e : AuditLog = new_entry hash c v n t in
        let l = (verify-Linked hash org solid t o ch).0 i in
        let o' : IsOrdered 0 (t ++ e ∷ []) =
          IsOrdered-append 0 t e o (omega (arith, d.0, pos)) (rw d.0 b) in
        elim (Bool-cases (e.org_id == org)) [
          | inl own ↦
              let same : n ≡ org = sym d.1 ∙ (==_iff e.org_id org).0 own in
              let parts : of_org org (t ++ e ∷ []) ≡ of_org org t ++ e ∷ [] =
                of_org-append org t e
                ∙ ap (λ x. if x then of_org org t ++ e ∷ [] else of_org org t) own in
              subst (λ m. (verify hash org (t ++ new_entry hash c v m t ∷ [])).intact ≡ true)
                (sym same)
                (verify-own c v t org
                  (subst (λ m. IsOrdered 0 (t ++ new_entry hash c v m t ∷ [])) same o')
                  (subst
                    (λ m.
                      of_org org (t ++ new_entry hash c v m t ∷ [])
                      ≡ of_org org t ++ new_entry hash c v m t ∷ [])
                    same parts)
                  ch l)
          | inr other ↦
              verify-other t e org o'
                (of_org-append org t e
                  ∙ ap (λ x. if x then of_org org t ++ e ∷ [] else of_org org t) other)
                ch l
        ]

    -- After `append` the chain of every org that was intact is intact, also that of the org with the
    -- new entry, whatever its principal and its event. The table was in the order of the ids with the
    -- new id above them all, every entry of the org has a hash, and no digest is the empty text.
    pub verify-append :
        (c : Context) (v : Event) (t : Table) {e : AuditLog} {t' : Table}
        → append hash c v t ≡ some (e, t')
        → IsOrdered 0 t
        → 0 < c.next_id
        → IsBelow c.next_id t
        → (org : ℕ) → All IsChained (of_org org t)
        → (verify hash org t).intact ≡ true
        → (verify hash org t').intact ≡ true
    verify-append c v t h o pos b org ch i =
        let w = append-eq-some c v t h in
        subst (λ u. (verify hash org u).intact ≡ true) (sym (w.2 ∙ ap (λ x. t ++ x ∷ []) w.1))
          (verify-new c v w.0 t org o pos b ch i)
