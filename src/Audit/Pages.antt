-- ===== src/Audit/Pages.antt =====
-- Paging in `AuditRepository.verify` of repositories/audit_repo.py changes nothing: the pages joined
-- are the entries of the org.
use kortex_memory.Prelude.{
  ℕ, zero, suc, ◌≤◌, ◌<◌, ◌≡◌, refl, sym, ◌∙◌, ap, subst, none, [], ◌∷◌, ◌++◌, Text, keep, take,
  drop, length, length-drop, take-append-drop, ltb, arith,
}
use mathlib.Core.List.{append_assoc}
use kortex_memory.Audit.{Payload, Table, of_org, page_test, read}
use kortex_memory.Audit.Verify.{
  Walk, Outcome, going, broken, start, step, walk, last_id, status, intact_status, verify_from,
  settle, after_page, ChainStatus, verify,
}

-- the ids grow along the table, from above `lo`
abbrev pub IsOrdered : ℕ → Table → Type 0
IsOrdered lo [] = Unit
IsOrdered lo (e ∷ es) = (lo < e.id) × IsOrdered e.id es

abbrev above : ℕ → Table → Table
above a = keep (λ e. ltb a e.id)

keep-page_test :
    (org a : ℕ) (t : Table) → keep (page_test org none none a) t ≡ above a (of_org org t)
keep-page_test org a [] = refl
keep-page_test org a (e ∷ es) = ground (arith, keep-page_test org a es)

above_all : (a lo : ℕ) (t : Table) → a ≤ lo → IsOrdered lo t → above a t ≡ t
above_all a lo [] h o = refl
above_all a lo (e ∷ es) h o = ground (arith, above_all a e.id es)

le-last_id : (lo : ℕ) (xs ys : Table) → IsOrdered lo (xs ++ ys) → lo ≤ last_id lo xs
le-last_id lo [] ys o = omega arith
le-last_id lo (e ∷ es) ys o = omega (arith, le-last_id e.id es ys o.1)

-- what stands above the last id of a prefix is the rest
above-append :
    (lo : ℕ) (xs ys : Table) → IsOrdered lo (xs ++ ys) → above (last_id lo xs) (xs ++ ys) ≡ ys
above-append lo [] ys o = above_all lo lo ys (omega arith) o
above-append lo (e ∷ es) ys o =
    ground (arith, le-last_id e.id es ys o.1, above-append e.id es ys o.1)

last_id-append : (a : ℕ) (xs ys : Table) → last_id a (xs ++ ys) ≡ last_id (last_id a xs) ys
last_id-append a [] ys = refl
last_id-append a (e ∷ es) ys = last_id-append e.id es ys

IsOrdered-of_org : (org lo : ℕ) (t : Table) → IsOrdered lo t → IsOrdered lo (of_org org t)
IsOrdered-of_org org lo [] o = tt
IsOrdered-of_org org lo (e ∷ es) o =
    ground (arith, IsOrdered-of_org org e.id es o.1, lower lo e.id (of_org org es))
  where
    lower : (lo hi : ℕ) (t : Table) → lo ≤ hi → IsOrdered hi t → IsOrdered lo t
    lower lo hi [] h o = tt
    lower lo hi (e ∷ es) h o = (omega arith, o.1)

length-of_org : (org : ℕ) (t : Table) → length (of_org org t) ≤ length t
length-of_org org [] = omega arith
length-of_org org (e ∷ es) = ground (arith, length-of_org org es)

module _ (hash : Payload → Text) (org : ℕ) where
  pub resume : Outcome → Table → Outcome
  resume (broken s) es = broken s
  resume (going w) es = walk hash org w es

  pub walk-append :
      (w : Walk) (xs ys : Table) → walk hash org w (xs ++ ys) ≡ resume (walk hash org w xs) ys
  unfolding walk resume
  walk-append w [] ys = refl
  walk-append w (e ∷ es) ys = go (step hash org w e) (λ w'. walk-append w' es ys)
    where
      go :
          (o : Outcome)
          → ((w' : Walk) → walk hash org w' (es ++ ys) ≡ resume (walk hash org w' es) ys)
          → elim o [ broken s ↦ broken s | going w' ↦ walk hash org w' (es ++ ys) ]
            ≡ resume (elim o [ broken s ↦ broken s | going w' ↦ walk hash org w' es ]) ys
      go (broken s) ih = refl
      go (going w') ih = ih w'

  nothing_left : (w : Walk) → intact_status org w ≡ status hash org (walk hash org w [])
  unfolding walk
  nothing_left w = refl

  settle-resume :
      (again : ℕ → Walk → ChainStatus) (i : ℕ) (o : Outcome) (rest : Table)
      → ((w : Walk) → again i w ≡ status hash org (walk hash org w rest))
      → settle hash org again i o ≡ status hash org (resume o rest)
  unfolding resume
  settle-resume again i (broken s) rest h = refl
  settle-resume again i (going w) rest h = h w

  -- the page that follows a prefix of the entries of the org
  read-append :
      (page : ℕ) (xs ys t : Table)
      → of_org org t ≡ xs ++ ys
      → IsOrdered 0 (xs ++ ys)
      → read org none none (last_id 0 xs) page t ≡ take page ys
  unfolding read
  read-append page xs ys t e o =
      ap (take page)
        (keep-page_test org (last_id 0 xs) t ∙ ap (above (last_id 0 xs)) e ∙ above-append 0 xs ys o)

  -- From any prefix on, the pages joined are the rest of the entries.
  verify_from_lem :
      (fuel page : ℕ) (w : Walk) (xs ys t : Table)
      → of_org org t ≡ xs ++ ys
      → IsOrdered 0 (xs ++ ys)
      → length ys < fuel
      → verify_from hash org fuel (suc page) (last_id 0 xs) w t
        ≡ status hash org (walk hash org w ys)
  unfolding verify_from
  verify_from_lem zero page w xs ys t e o h = elim h [ ]
  verify_from_lem (suc fuel) page w xs [] t e o h =
      ap
        (after_page hash org (λ i w'. verify_from hash org fuel (suc page) i w' t) (last_id 0 xs) w)
        (read-append (suc page) xs [] t e o)
      ∙ nothing_left w
  verify_from_lem (suc fuel) page w xs (y ∷ ys) t e o h =
      ap
        (after_page hash org (λ i w'. verify_from hash org fuel (suc page) i w' t) (last_id 0 xs) w)
        (read-append (suc page) xs (y ∷ ys) t e o)
      ∙ settle-resume (λ i w'. verify_from hash org fuel (suc page) i w' t)
          (last_id (last_id 0 xs) (y ∷ take page ys)) (walk hash org w (y ∷ take page ys))
          (drop page ys)
          (λ w'.
            let first : Table = y ∷ take page ys in
            let rest : Table = drop page ys in
            let again =
              verify_from_lem fuel page w' (xs ++ first) rest t (e ∙ split xs)
                (subst (IsOrdered 0) (split xs) o) (omega (arith, h, length-drop page ys)) in
            ap (λ i. verify_from hash org fuel (suc page) i w' t) (sym (last_id-append 0 xs first))
            ∙ again)
      ∙ ap (status hash org) (
          sym (walk-append w (y ∷ take page ys) (drop page ys))
          ∙ ap (λ l. walk hash org w (y ∷ l)) (take-append-drop page ys))
    where
      split : (xs : Table) → xs ++ y ∷ ys ≡ (xs ++ y ∷ take page ys) ++ drop page ys
      split xs =
          ap (λ l. xs ++ y ∷ l) (sym (take-append-drop page ys))
          ∙ sym (append_assoc xs (y ∷ take page ys) (drop page ys))

  -- The verdict on a table is that of one walk over the entries of the org, from start to end.
  pub verify-walk :
      (t : Table)
      → IsOrdered 0 t
      → verify hash org t ≡ status hash org (walk hash org start (of_org org t))
  unfolding verify
  verify-walk t o =
      verify_from_lem (suc (length t)) 499 start [] (of_org org t) t refl
        (IsOrdered-of_org org 0 t o) (omega (arith, length-of_org org t))
