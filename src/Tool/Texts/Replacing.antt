-- ===== src/Tool/Texts/Replacing.antt =====
-- The replacement of the one occurrence that `count` found.
use kortex_memory.Prelude.{
  ℕ, zero, suc, ◌-◌, ◌≡◌, refl, sym, ◌∙◌, ap, subst, true, false, [], ◌∷◌, ◌++◌, Text, drop, length,
  Bool-cases, inl, inr, arith,
}
use kortex_memory.Tool.Texts.{starts_with, contains, count_from, replace_first}
use kortex_memory.Tool.Texts.Splitting.{or-false}

-- a text with one part replaced, which occurs neither before nor behind it
pub record IsReplaced (old new body result : Text) : Type 0 where
  pub before : Text
  pub after : Text
  pub was : body ≡ before ++ (old ++ after)
  pub is : result ≡ before ++ (new ++ after)
  pub none_before : contains old before ≡ false
  pub none_after : contains old after ≡ false

starts_with-drop : (old t : Text) → starts_with old t ≡ true → t ≡ old ++ drop (length old) t
unfolding starts_with
starts_with-drop [] t h = refl
starts_with-drop (c ∷ cs) [] h = absurd cc h
starts_with-drop (c ∷ cs) (d ∷ ds) h =
    let same : d ≡ c = ground (arith, h) in
    let rest : starts_with cs ds ≡ true = ground (arith, h) in
    ap (λ x. x ∷ ds) same ∙ ap (λ l. c ∷ l) (starts_with-drop cs ds rest)

starts_with-append : (old t u : Text) → starts_with old t ≡ true → starts_with old (t ++ u) ≡ true
unfolding starts_with
starts_with-append [] t u h = refl
starts_with-append (c ∷ cs) [] u h = absurd cc h
starts_with-append (c ∷ cs) (d ∷ ds) u h = ground (arith, starts_with-append cs ds u)

-- what `count` passes over before it looks again
count_from-drop : (n : ℕ) (old t : Text) → count_from n old t ≡ count_from 0 old (drop n t)
unfolding count_from
count_from-drop zero old t = refl
count_from-drop (suc n) old [] = refl
count_from-drop (suc n) old (c ∷ cs) = count_from-drop n old cs

module _ (x : ℕ) (xs : Text) where
  abbrev old : Text
  old = x ∷ xs

  count-contains : (t : Text) → count_from 0 old t ≡ 0 → contains old t ≡ false
  unfolding count_from contains
  count-contains [] h = refl
  count-contains (c ∷ cs) h = elim (Bool-cases (starts_with old (c ∷ cs))) [
    | inl hit ↦ absurd ground (arith, hit, h)
    | inr miss ↦ or-false _ _ miss (count-contains cs (ground (arith, miss, h)))
  ]

  replace-hit :
      (new : Text) (c : ℕ) (cs : Text)
      → starts_with old (c ∷ cs) ≡ true
      → replace_first old new (c ∷ cs) ≡ new ++ drop (length old) (c ∷ cs)
  unfolding replace_first
  replace-hit new c cs h = ground (arith, h)

  replace-miss :
      (new : Text) (c : ℕ) (cs : Text)
      → starts_with old (c ∷ cs) ≡ false
      → replace_first old new (c ∷ cs) ≡ c ∷ replace_first old new cs
  unfolding replace_first
  replace-miss new c cs h = ground (arith, h)

  count-hit :
      (c : ℕ) (cs : Text)
      → starts_with old (c ∷ cs) ≡ true
      → count_from 0 old (c ∷ cs) ≡ 1
      → count_from 0 old (drop (length old) (c ∷ cs)) ≡ 0
  unfolding count_from
  count-hit c cs hit h =
      let rest : count_from (length old - 1) old cs ≡ 0 = ground (arith, hit, h) in
      let same : length xs ≡ length old - 1 = omega arith in
      sym (count_from-drop (length xs) old cs) ∙ ap (λ n. count_from n old cs) same ∙ rest

  -- an occurrence that begins in the part before would be an earlier one
  none-sooner :
      (c : ℕ) (before rest : Text)
      → starts_with old (c ∷ (before ++ rest)) ≡ false
      → contains old before ≡ false
      → contains old (c ∷ before) ≡ false
  unfolding contains
  none-sooner c before rest miss h = elim (Bool-cases (starts_with old (c ∷ before))) [
    | inl hit ↦ absurd cc (starts_with-append old (c ∷ before) rest hit, miss)
    | inr later ↦ or-false _ _ later h
  ]

  -- If `count` finds a part once, then `replace` puts the new text in the place of that occurrence and
  -- leaves what stands before and behind it, where the part does not occur.
  pub replace_first-IsReplaced :
      (new body : Text)
      → count_from 0 old body ≡ 1
      → IsReplaced old new body (replace_first old new body)
  unfolding count_from replace_first contains
  replace_first-IsReplaced new [] h = absurd cc h
  replace_first-IsReplaced new (c ∷ cs) h = elim (Bool-cases (starts_with old (c ∷ cs))) [
    | inl hit ↦ record {
      before = [];
      after = drop (length old) (c ∷ cs);
      was = starts_with-drop old (c ∷ cs) hit;
      is = replace-hit new c cs hit;
      none_before = refl;
      none_after = count-contains (drop (length old) (c ∷ cs)) (count-hit c cs hit h);
    }
    | inr miss ↦
        let rest = replace_first-IsReplaced new cs (ground (arith, miss, h)) in
        record {
          before = c ∷ rest.before;
          after = rest.after;
          was = ap (λ l. c ∷ l) rest.was;
          is = replace-miss new c cs miss ∙ ap (λ l. c ∷ l) rest.is;
          none_before =
              none-sooner c rest.before (old ++ rest.after)
                (subst (λ l. starts_with old (c ∷ l) ≡ false) rest.was miss) rest.none_before;
          none_after = rest.none_after;
        }
  ]
