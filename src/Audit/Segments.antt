-- ===== src/Audit/Segments.antt =====
-- What the verdict of `verify` and the digest of `head`, both of repositories/audit_repo.py, say of the
-- entries of an org.
use kortex_memory.Prelude.{
  Option, ℕ, ◌≡◌, ◌≢◌, refl, sym, ◌∙◌, ap, subst, true, none, some, List, [], ◌∷◌, ◌++◌, Text, All,
  length, arith,
}
use kortex_memory.Audit.{
  AuditLog, Payload, Table, or_genesis, payload, digest, of_org, last_hash, head,
}
use kortex_memory.Audit.Verify.{verify}
use kortex_memory.Audit.Pages.{IsOrdered}
use kortex_memory.Audit.Chain.{IsChained, Linked, anchor_of, verify-Linked}

All-append {ℓ κ} :
    {A : Type ℓ} (P : A → Type κ) (xs ys : List A) → All P (xs ++ ys) → All P xs × All P ys
All-append P [] ys h = (tt, h)
All-append P (x ∷ xs) ys h = let r = All-append P xs ys h.1 in ((h.0, r.0), r.1)

module _ (hash : Payload → Text) where
  -- the digest that the next entry has to point at
  abbrev pub final : Text → Table → Text
  final p [] = p
  final p (e ∷ es) = final (digest hash e p) es

  -- what the digests of a chain cover
  abbrev pub contents : Text → Table → List Payload
  contents p [] = []
  contents p (e ∷ es) = payload e p ∷ contents (digest hash e p) es

  pub Linked-append :
      (p : Text) (xs ys : Table)
      → Linked hash p (xs ++ ys)
      → Linked hash p xs × Linked hash (final p xs) ys
  Linked-append p [] ys l = (tt, l)
  Linked-append p (e ∷ es) ys l =
      let r = Linked-append (digest hash e p) es ys l.2 in ((l.0, l.1, r.0), r.1)

  pub append-Linked :
      (p : Text) (xs ys : Table)
      → Linked hash p xs
      → Linked hash (final p xs) ys
      → Linked hash p (xs ++ ys)
  append-Linked p [] ys l r = r
  append-Linked p (e ∷ es) ys l r = (l.0, l.1, append-Linked (digest hash e p) es ys l.2 r)

  module _ (solid : (x : Payload) → hash x ≢ []) where
    pub or_genesis-digest :
        (e : AuditLog) (p : Text) → or_genesis (some (digest hash e p)) ≡ digest hash e p
    unfolding digest
    or_genesis-digest e p = go (hash (payload e p)) (solid (payload e p))
      where
        go : (t : Text) → t ≢ [] → or_genesis (some t) ≡ t
        go [] h = absurd (h refl)
        go (c ∷ cs) h = refl

    last_hash-final :
        (e : AuditLog) (p : Text) (es : Table)
        → Linked hash (digest hash e p) es
        → or_genesis (last_hash (some (digest hash e p)) es) ≡ final (digest hash e p) es
    last_hash-final e p [] l = or_genesis-digest e p
    last_hash-final e p (f ∷ es) l =
        ap (λ h. or_genesis (last_hash h es)) l.1 ∙ last_hash-final f (digest hash e p) es l.2

    -- an empty text anchors no chain that is linked
    Linked-anchor :
        (e : AuditLog) (p : Text) (es : Table)
        → p ≢ []
        → Linked hash p (e ∷ es)
        → or_genesis e.prev_hash ≡ p
    Linked-anchor e [] es ne l = absurd (ne refl)
    Linked-anchor e (c ∷ cs) es ne l = ap or_genesis l.0

    pub head-final :
        (org : ℕ) (t : Table)
        → Linked hash (anchor_of (of_org org t)) (of_org org t)
        → head org t ≡ final (anchor_of (of_org org t)) (of_org org t)
    unfolding head
    head-final org t l = go (of_org org t) l
      where
        go :
            (es : Table)
            → Linked hash (anchor_of es) es
            → or_genesis (last_hash none es) ≡ final (anchor_of es) es
        go [] l = refl
        go (e ∷ es) l =
            ap (λ h. or_genesis (last_hash h es)) l.1
            ∙ last_hash-final e (or_genesis e.prev_hash) es l.2

    pub anchor_of-solid : (es : Table) → anchor_of es ≢ []
    anchor_of-solid [] = λ q. cc q
    anchor_of-solid (e ∷ es) = go e.prev_hash
      where
        go : (h : Option Text) → or_genesis h ≢ []
        go none = λ q. cc q
        go (some []) = λ q. cc q
        go (some (c ∷ cs)) = λ q. cc q

    pub final-solid : (p : Text) (es : Table) → p ≢ [] → final p es ≢ []
    final-solid p [] ne = ne
    final-solid p (e ∷ es) ne =
        final-solid (digest hash e p) es (unfold digest in solid (payload e p))

    pub Linked-anchor_of :
        (p : Text) (es : Table) → p ≢ [] → Linked hash p es → Linked hash (anchor_of es) es
    Linked-anchor_of p [] ne l = tt
    Linked-anchor_of p (e ∷ es) ne l =
        subst (λ q. Linked hash q (e ∷ es)) (sym (Linked-anchor e p es ne l)) l

    -- A contiguous part of an intact chain is intact by itself. So `verify` passes after retention
    -- took entries from the start, and passes just as well after entries were removed from the end.
    -- Every entry has a hash, both tables are in the order of the ids, and no digest is empty.
    pub verify-segment :
        (org : ℕ) (t u xs zs : Table)
        → IsOrdered 0 t
        → IsOrdered 0 u
        → of_org org t ≡ xs ++ of_org org u ++ zs
        → All IsChained (of_org org t)
        → (verify hash org t).intact ≡ true
        → (verify hash org u).intact ≡ true
    verify-segment org t u xs zs ot ou e c i =
        let a : Text = anchor_of (of_org org t) in
        let l : Linked hash a ((xs ++ of_org org u) ++ zs) =
          subst (Linked hash a) e ((verify-Linked hash org solid t ot c).0 i) in
        let front = Linked-append a (xs ++ of_org org u) zs l in
        let middle = Linked-append a xs (of_org org u) front.0 in
        let chained = All-append IsChained (xs ++ of_org org u) zs (subst (All IsChained) e c) in
        (verify-Linked hash org solid u ou (All-append IsChained xs (of_org org u) chained.0).1).1 (
          Linked-anchor_of (final a xs) (of_org org u)
            (final-solid a xs (anchor_of-solid (of_org org t))) middle.1)

    -- two entries at the same place of two chains with one digest have one content
    abbrev pub NoCollision : Text → Text → Table → Table → Type 0
    NoCollision p q (e ∷ es) (f ∷ fs) =
        (hash (payload e p) ≡ hash (payload f q) → payload e p ≡ payload f q)
        × NoCollision (digest hash e p) (digest hash f q) es fs
    NoCollision p q _ _ = Unit

    final-injective :
        (p q : Text) (es fs : Table)
        → NoCollision p q es fs
        → length es ≡ length fs
        → final p es ≡ final q fs
        → (p ≡ q) × (contents p es ≡ contents q fs)
    unfolding digest payload
    final-injective p q [] [] a n h = (h, refl)
    final-injective p q [] (f ∷ fs) a n h = absurd (omega arith)
    final-injective p q (e ∷ es) [] a n h = absurd (omega arith)
    final-injective p q (e ∷ es) (f ∷ fs) a n h =
        let r = final-injective (digest hash e p) (digest hash f q) es fs a.1 (omega arith) h in
        let same = a.0 r.0 in (ap (λ (x : Payload). x.prev_hash) same, cc (same, r.1))

    -- The head pins the log: if two logs of an org with the same number of entries both verify and
    -- have the same head, then the entries at each place have the same content and point at the same
    -- digest. Every entry has a hash, the tables are in the order of the ids, no digest is empty, and
    -- no two entries at the same place collide.
    pub head-contents :
        (org : ℕ) (t u : Table)
        → IsOrdered 0 t
        → IsOrdered 0 u
        → All IsChained (of_org org t)
        → All IsChained (of_org org u)
        → NoCollision
            (anchor_of (of_org org t))
            (anchor_of (of_org org u))
            (of_org org t)
            (of_org org u)
        → (verify hash org t).intact ≡ true
        → (verify hash org u).intact ≡ true
        → length (of_org org t) ≡ length (of_org org u)
        → head org t ≡ head org u
        → contents (anchor_of (of_org org t)) (of_org org t)
          ≡ contents (anchor_of (of_org org u)) (of_org org u)
    head-contents org t u ot ou ct cu a it iu n h =
        let lt = (verify-Linked hash org solid t ot ct).0 it in
        let lu = (verify-Linked hash org solid u ou cu).0 iu in
        (final-injective (anchor_of (of_org org t)) (anchor_of (of_org org u)) (of_org org t)
          (of_org org u) a n (sym (head-final org t lt) ∙ h ∙ head-final org u lu)).1
