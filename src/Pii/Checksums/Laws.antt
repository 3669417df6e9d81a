-- ===== src/Pii/Checksums/Laws.antt =====
-- What the check digit of a card number detects.
use kortex_memory.Prelude.{
  ℕ, suc, ◌+◌, ◌%◌, ◌<◌, ◌≡◌, refl, sym, ◌∙◌, ap, Bool, true, false, not, ◌&&◌, ◌||◌, [], ◌∷◌, ◌++◌,
  Text, length, length-append, leb, ◌==◌, ==_iff, if◌then◌else◌, arith,
}
use kortex_memory.Service.Reads.{and-both}
use kortex_memory.Pii.Checksums.{Unicode, every, weighed, luhn_sum, luhn_valid}

weighed-injective :
    (doubled : Bool) (x u v : ℕ)
    → u < 10
    → v < 10
    → (x + weighed doubled u) % 10 ≡ 0
    → (x + weighed doubled v) % 10 ≡ 0
    → u ≡ v
weighed-injective false x u v h k e f = omega (arith, h, k, e, f)
weighed-injective true x u v h k e f = ground (arith, h, k, e, f)

checked_parts :
    (digits fits : Bool) (n : ℕ)
    → (if not digits || not fits then false else n % 10 == 0) ≡ true
    → (digits ≡ true) × (n % 10 ≡ 0)
checked_parts true true n h = (refl, (==_iff (n % 10) 0).0 h)
checked_parts true false n h = absurd cc h
checked_parts false fits n h = absurd cc h

module _ (u : Unicode) where
  luhn_sum-append :
      (parity i : ℕ) (xs ys : Text)
      → luhn_sum u parity i (xs ++ ys)
        ≡ luhn_sum u parity i xs + luhn_sum u parity (i + length xs) ys
  unfolding luhn_sum
  luhn_sum-append parity i [] ys =
      let start : luhn_sum u parity i ys ≡ 0 + luhn_sum u parity i ys = omega arith in
      let place : i ≡ i + 0 = omega arith in start ∙ ap (λ k. 0 + luhn_sum u parity k ys) place
  luhn_sum-append parity i (c ∷ xs) ys =
      let rest = luhn_sum-append parity (suc i) xs ys in
      let place : suc i + length xs ≡ i + suc (length xs) = omega arith in
      let moved = ap (λ k. luhn_sum u parity k ys) place in omega (arith, rest, moved)

  -- the sum of the places before and after one
  abbrev around : ℕ → Text → Text → ℕ
  around parity pre post = luhn_sum u parity 0 pre + luhn_sum u parity (suc (0 + length pre)) post

  luhn_sum-at :
      (parity : ℕ) (pre post : Text) (c : ℕ)
      → luhn_sum u parity 0 (pre ++ c ∷ post)
        ≡ around parity pre post + weighed ((0 + length pre) % 2 == parity) (u.int_of c)
  unfolding luhn_sum
  luhn_sum-at parity pre post c =
      let whole = luhn_sum-append parity 0 pre (c ∷ post) in omega (arith, whole)

  every-here :
      (f : ℕ → Bool) (pre post : Text) (c : ℕ) → every f (pre ++ c ∷ post) ≡ true → f c ≡ true
  every-here f [] post c h = (and-both (f c) _ h).0
  every-here f (d ∷ pre) post c h = every-here f pre post c (and-both (f d) _ h).1

  valid_parts :
      (t : Text)
      → luhn_valid u t ≡ true
      → (every u.is_digit t ≡ true) × (luhn_sum u (length t % 2) 0 t % 10 ≡ 0)
  unfolding luhn_valid
  valid_parts t h = checked_parts (every u.is_digit t) (leb 12 (length t) && leb (length t) 19) _ h

  replaced-length :
      (pre post : Text) (a b : ℕ) → length (pre ++ a ∷ post) ≡ length (pre ++ b ∷ post)
  replaced-length pre post a b = length-append pre (a ∷ post) ∙ sym (length-append pre (b ∷ post))

  -- Two texts that differ in one character and both pass the check of card numbers have digits of the same
  -- value there: the check finds every single wrong digit. The digits have values below ten.
  pub luhn_valid-one_digit :
      ((c : ℕ) → u.is_digit c ≡ true → u.int_of c < 10)
      → (pre post : Text) (a b : ℕ) → luhn_valid u (pre ++ a ∷ post) ≡ true
      → luhn_valid u (pre ++ b ∷ post) ≡ true
      → u.int_of a ≡ u.int_of b
  luhn_valid-one_digit small pre post a b h k =
      let first = valid_parts (pre ++ a ∷ post) h in
      let second = valid_parts (pre ++ b ∷ post) k in
      let parity : ℕ = length (pre ++ a ∷ post) % 2 in
      let same =
        ap (λ n. luhn_sum u (n % 2) 0 (pre ++ b ∷ post) % 10) (replaced-length pre post a b) in
      weighed-injective ((0 + length pre) % 2 == parity) (around parity pre post) (u.int_of a)
        (u.int_of b) (small a (every-here u.is_digit pre post a first.0))
        (small b (every-here u.is_digit pre post b second.0))
        (ap (λ n. n % 10) (sym (luhn_sum-at parity pre post a)) ∙ first.1)
        (ap (λ n. n % 10) (sym (luhn_sum-at parity pre post b)) ∙ (same ∙ second.1))
