-- ===== src/Pii/Checksums/Meaning.antt =====
-- What the checks of skills/pii_detector.py are to find out, described without the code: the check digit
-- of a card counts from the right, an IBAN has the remainder of its decimals, and a social security number
-- keeps the structural rules.
use kortex_memory.Prelude.{
  ℕ, suc, ◌+◌, ◌-◌, ◌*◌, ◌/◌, ◌%◌, ◌≤◌, ◌<◌, ◌≡◌, ◌≢◌, ◌⊎◌, refl, sym, ◌∙◌, ap, subst, Bool, true,
  false, not, ◌&&◌, ◌||◌, List, [], ◌∷◌, ◌++◌, Text, codes, take, drop, length, All, All-map,
  append-All, text_eq, text_eq_iff, ltb, leb, leb→le, ◌==◌, ==_iff, Bool-cases, inl, inr,
  if◌then◌else◌, arith,
}
use kortex_memory.Service.Reads.{and-both}
use kortex_memory.Pii.Checksums.{
  Unicode, every, is_letter, is_letter_or_digit, starts_with_nine, without, weighed, luhn_sum,
  luhn_valid, has_iban_shape, numeric, iban_valid, ssn_plausible,
}

-- the values of digits: those of `isdigit`, of `\d` and of ASCII
pub record IsUnicode (u : Unicode) : Type 0 where
  pub digit : (c : ℕ) → u.is_digit c ≡ true → u.int_of c < 10
  pub decimal : (c : ℕ) → u.is_decimal c ≡ true → u.int_of c < 10
  pub ascii : (c : ℕ) → 48 ≤ c → c ≤ 57 → u.int_of c < 10

abbrev pub IsLetter : ℕ → Type 0
IsLetter c = (65 ≤ c) × (c ≤ 90)

abbrev pub IsLetterOrDigit : ℕ → Type 0
IsLetterOrDigit c = IsLetter c ⊎ ((48 ≤ c) × (c ≤ 57))

-- the sum of the two decimals of a number below a hundred
abbrev pub cross_sum : ℕ → ℕ
cross_sum n = n / 10 + n % 10

-- the Horner scheme
abbrev pub number_of : ℕ → List ℕ → ℕ
number_of n [] = n
number_of n (d ∷ ds) = number_of (n * 10 + d) ds

module _ (u : Unicode) where
  -- a digit counts double, by its cross sum, when an odd number of digits stand behind it
  abbrev pub check_sum : Text → ℕ
  check_sum [] = 0
  check_sum (c ∷ cs) =
      (if length cs % 2 == 1 then cross_sum (2 * u.int_of c) else u.int_of c) + check_sum cs

  pub record IsCard (t : Text) : Type 0 where
    pub digits : All (λ c. u.is_digit c ≡ true) t
    pub long : 12 ≤ length t
    pub short : length t ≤ 19
    pub checked : check_sum t % 10 ≡ 0

  -- a letter stands for two decimals, A for 10 and Z for 35
  abbrev pub decimals : Text → List ℕ
  decimals [] = []
  decimals (c ∷ cs) =
      (if leb 65 c && leb c 90 then (c - 55) / 10 ∷ (c - 55) % 10 ∷ [] else u.int_of c ∷ [])
      ++ decimals cs

  pub record IsIban (t : Text) : Type 0 where
    pub long : 14 ≤ length t
    pub short : length t ≤ 34
    pub country : All IsLetter (take 2 t)
    pub check : All (λ c. u.is_decimal c ≡ true) (take 2 (drop 2 t))
    pub account : All IsLetterOrDigit (drop 4 t)
    pub remainder : number_of 0 (decimals (drop 4 t ++ take 4 t)) % 97 ≡ 1

  pub record IsSsn (t : Text) : Type 0 where
    pub digits : All (λ c. u.is_digit c ≡ true) t
    pub nine : length t ≡ 9
    pub area : take 3 t ≢ codes "000"
    pub beast : take 3 t ≢ codes "666"
    pub low : take 1 t ≢ codes "9"
    pub group : take 2 (drop 3 t) ≢ codes "00"
    pub serial : drop 5 t ≢ codes "0000"

every-All : (f : ℕ → Bool) (t : Text) → every f t ≡ true → All (λ c. f c ≡ true) t
every-All f [] h = tt
every-All f (c ∷ cs) h = let r = and-both (f c) _ h in (r.0, every-All f cs r.1)

not-equal : (s t : Text) → text_eq s t ≡ false → s ≢ t
not-equal s t h e = absurd cc (sym h ∙ (text_eq_iff s t).1 e)

module _ (u : Unicode) (laws : IsUnicode u) where
  same_place : (i n parity : ℕ) → (i + suc n) % 2 ≡ parity → (i % 2 == parity) ≡ (n % 2 == 1)
  same_place i n parity h = ground (arith, h)

  doubled : (b : Bool) (v : ℕ) → v < 10 → weighed b v ≡ (if b then cross_sum (2 * v) else v)
  doubled false v h = refl
  doubled true v h = ground (arith, h)

  luhn_sum-check_sum :
      (parity i : ℕ) (t : Text)
      → (i + length t) % 2 ≡ parity
      → All (λ c. u.is_digit c ≡ true) t
      → luhn_sum u parity i t ≡ check_sum u t
  unfolding luhn_sum
  luhn_sum-check_sum parity i [] h k = refl
  luhn_sum-check_sum parity i (c ∷ cs) h k =
      let rest = luhn_sum-check_sum parity (suc i) cs (omega (arith, h)) k.1 in
      let place = same_place i (length cs) parity h in
      let here =
        ap (λ b. weighed b (u.int_of c)) place
        ∙ doubled (length cs % 2 == 1) (u.int_of c) (laws.digit c k.0) in
      omega (arith, here, rest)

  pub luhn_valid-IsCard : (t : Text) → luhn_valid u t ≡ true → IsCard u t
  unfolding luhn_valid
  luhn_valid-IsCard t h =
      let r =
        card_parts (every u.is_digit t) (leb 12 (length t)) (leb (length t) 19)
          (luhn_sum u (length t % 2) 0 t) h in
      let digits = every-All u.is_digit t r.0 in
      record {
        digits = digits;
        long = leb→le 12 (length t) r.1.0;
        short = leb→le (length t) 19 r.1.1.0;
        checked =
            ap (λ n. n % 10) (sym (luhn_sum-check_sum (length t % 2) 0 t (omega arith) digits))
            ∙ r.1.1.1;
      }
    where
      card_parts :
          (digits long short : Bool) (n : ℕ)
          → (if not digits || not (long && short) then false else n % 10 == 0) ≡ true
          → (digits ≡ true) × ((long ≡ true) × ((short ≡ true) × (n % 10 ≡ 0)))
      card_parts true true true n e = (refl, (refl, (refl, (==_iff (n % 10) 0).0 e)))
      card_parts true true false n e = absurd cc e
      card_parts true false b n e = absurd cc e
      card_parts false a b n e = absurd cc e

  -- a character whose value stands for decimals
  abbrev Valued : ℕ → Type 0
  Valued c = (leb 65 c && leb c 90) ≡ false → u.int_of c < 10

  numeric-decimals : (n : ℕ) (t : Text) → All Valued t → numeric u n t ≡ number_of n (decimals u t)
  numeric-decimals n [] h = refl
  numeric-decimals n (c ∷ cs) h = elim (Bool-cases (leb 65 c && leb c 90)) [
    | inl letter ↦
        let big : ltb (c - 55) 10 ≡ false = ground (arith, letter) in
        rw (letter, big)
          (numeric-decimals (n * 100 + (c - 55)) cs h.1
            ∙ ap (λ k. number_of k (decimals u cs)) (omega arith))
    | inr digit ↦
        let small : ltb (u.int_of c) 10 ≡ true = ground (arith, h.0 digit) in
        rw (digit, small) (numeric-decimals (n * 10 + u.int_of c) cs h.1)
  ]

  letter-Valued : (c : ℕ) → (leb 65 c && leb c 90) ≡ true → Valued c
  letter-Valued c h k = absurd cc (sym h ∙ k)

  account-Valued : (c : ℕ) → is_letter_or_digit u c ≡ true → IsLetterOrDigit c × Valued c
  account-Valued c h = elim (Bool-cases (leb 65 c && leb c 90)) [
    | inl letter ↦
        let r = and-both (leb 65 c) (leb c 90) letter in
        (inl (leb→le 65 c r.0, leb→le c 90 r.1), letter-Valued c letter)
    | inr other ↦
        let r = and-both (leb 48 c) (leb c 57) (sym (rw (other) refl) ∙ h) in
        let low = leb→le 48 c r.0 in
        let high = leb→le c 57 r.1 in (inr (low, high), λ k. laws.ascii c low high)
  ]

  pub iban_valid-IsIban : (t : Text) → iban_valid u t ≡ true → IsIban u (u.upper (without 32 t))
  unfolding iban_valid
  iban_valid-IsIban t h =
      let c : Text = u.upper (without 32 t) in
      let r = passed_both (has_iban_shape u c) (numeric u 0 (drop 4 c ++ take 4 c) % 97) h in
      let account = and-both _ (every (is_letter_or_digit u) (drop 4 c)) r.0 in
      let check = and-both _ (every u.is_decimal (take 2 (drop 2 c))) account.0 in
      let country = and-both _ (every (is_letter u) (take 2 c)) check.0 in
      let size = and-both (leb 14 (length c)) (leb (length c) 34) country.0 in
      let letters = every-All (is_letter u) (take 2 c) country.1 in
      let digits = every-All u.is_decimal (take 2 (drop 2 c)) check.1 in
      let rest =
        All-map (drop 4 c) account-Valued (every-All (is_letter_or_digit u) (drop 4 c) account.1) in
      let front : All Valued (take 4 c) = subst (All Valued) (sym (take_four c)) (
        append-All Valued (take 2 c) (take 2 (drop 2 c)) (All-map (take 2 c) letter-Valued letters)
          (All-map (take 2 (drop 2 c)) (λ d k e. laws.decimal d k) digits)) in
      let valued =
        append-All Valued (drop 4 c) (take 4 c) (All-map (drop 4 c) (λ d k. k.1) rest) front in
      record {
        long = leb→le 14 (length c) size.0;
        short = leb→le (length c) 34 size.1;
        country =
            All-map (take 2 c)
              (λ d k.
                let e = and-both (leb 65 d) (leb d 90) k in (leb→le 65 d e.0, leb→le d 90 e.1))
              letters;
        check = digits;
        account = All-map (drop 4 c) (λ d k. k.0) rest;
        remainder = ap (λ n. n % 97) (sym (numeric-decimals 0 (drop 4 c ++ take 4 c) valued)) ∙ r.1;
      }
    where
      passed_both : (b : Bool) (n : ℕ) → (if b then n == 1 else false) ≡ true → (b ≡ true) × (n ≡ 1)
      passed_both true n e = (refl, (==_iff n 1).0 e)
      passed_both false n e = absurd cc e

      take_four : (xs : Text) → take 4 xs ≡ take 2 xs ++ take 2 (drop 2 xs)
      take_four [] = refl
      take_four (a ∷ []) = refl
      take_four (a ∷ b ∷ xs) = refl

  not_nine : (t : Text) → starts_with_nine u (take 3 t) ≡ false → take 1 t ≢ codes "9"
  not_nine [] h e = absurd cc e
  not_nine (c ∷ cs) h e = let same : c ≡ 57 = cc e in absurd cc (sym h ∙ (==_iff c 57).1 same)

  pub ssn_plausible-IsSsn :
      (t : Text) → ssn_plausible u t ≡ true → IsSsn u (without 32 (without 45 t))
  unfolding ssn_plausible
  ssn_plausible-IsSsn t h =
      let d : Text = without 32 (without 45 t) in
      let r =
        parts (length d == 9) (every u.is_digit d) (text_eq (take 3 d) (codes "000"))
          (text_eq (take 3 d) (codes "666")) (starts_with_nine u (take 3 d))
          (text_eq (take 2 (drop 3 d)) (codes "00")) (text_eq (drop 5 d) (codes "0000")) h in
      record {
        digits = every-All u.is_digit d r.1.0;
        nine = (==_iff (length d) 9).0 r.0;
        area = not-equal (take 3 d) (codes "000") r.1.1.0;
        beast = not-equal (take 3 d) (codes "666") r.1.1.1.0;
        low = not_nine d r.1.1.1.1.0;
        group = not-equal (take 2 (drop 3 d)) (codes "00") r.1.1.1.1.1.0;
        serial = not-equal (drop 5 d) (codes "0000") r.1.1.1.1.1.1;
      }
    where
      parts :
          (size digits zeros beast nine group serial : Bool)
          → (if not size || not digits
              then false
              else if zeros || beast || nine
              then false
              else not group && not serial)
            ≡ true
          → (size ≡ true)
            × ((digits ≡ true)
                × ((zeros ≡ false)
                    × ((beast ≡ false) × ((nine ≡ false) × ((group ≡ false) × (serial ≡ false))))))
      parts size digits zeros beast nine group serial e = ground arith
