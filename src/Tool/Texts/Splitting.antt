-- ===== src/Tool/Texts/Splitting.antt =====
-- `split` and `join` undo each other.
use kortex_memory.Prelude.{
  ℕ, ◌≡◌, refl, sym, ◌∙◌, ap, Bool, true, false, ◌||◌, List, [], ◌∷◌, ◌++◌, Text, ◌==◌, All, any,
  Bool-cases, inl, inr, subst, arith,
}
use kortex_memory.Tool.Texts.{split_on, join_with, cons_head}

-- no code point of the text is the separator
abbrev pub IsFree : ℕ → Text → Type 0
IsFree sep t = any (λ c. c == sep) t ≡ false

pub or-neither : (a b : Bool) → (a || b) ≡ false → (a ≡ false) × (b ≡ false)
or-neither true b h = absurd cc h
or-neither false b h = (refl, h)

pub or-false : (a b : Bool) → a ≡ false → b ≡ false → (a || b) ≡ false
or-false true b h k = absurd cc h
or-false false b h k = k

-- the parts of a split: the first one, and the others
pub record Parts (sep : ℕ) (t : Text) : Type 0 where
  pub first : Text
  pub rest : List Text
  pub split : split_on sep t ≡ first ∷ rest

pub split-hit :
    (sep c : ℕ) (t : Text) → (c == sep) ≡ true → split_on sep (c ∷ t) ≡ [] ∷ split_on sep t
unfolding split_on
split-hit sep c t h = rw (h) refl

split-miss :
    (sep c : ℕ) (t : Text)
    → (c == sep) ≡ false
    → split_on sep (c ∷ t) ≡ cons_head c (split_on sep t)
unfolding split_on
split-miss sep c t h = rw (h) refl

pub parts : (sep : ℕ) (t : Text) → Parts sep t
unfolding split_on
parts sep [] = record { first = []; rest = []; split = refl }
parts sep (c ∷ cs) =
    let r = parts sep cs in
    elim (Bool-cases (c == sep)) [
      | inl hit ↦ record { first = []; rest = split_on sep cs; split = split-hit sep c cs hit }
      | inr miss ↦ record {
        first = c ∷ r.first;
        rest = r.rest;
        split = split-miss sep c cs miss ∙ ap (cons_head c) r.split;
      }
    ]

join-empty_first :
    (sep : ℕ) (x : Text) (xs : List Text)
    → join_with sep ([] ∷ x ∷ xs) ≡ sep ∷ join_with sep (x ∷ xs)
unfolding join_with
join-empty_first sep x xs = refl

join-cons_head :
    (sep c : ℕ) (x : Text) (xs : List Text)
    → join_with sep (cons_head c (x ∷ xs)) ≡ c ∷ join_with sep (x ∷ xs)
unfolding join_with
join-cons_head sep c x [] = refl
join-cons_head sep c x (y ∷ ys) = refl

same_code : (a b : ℕ) → (a == b) ≡ true → a ≡ b
same_code a b h = ground arith

pub join-split : (sep : ℕ) (t : Text) → join_with sep (split_on sep t) ≡ t
unfolding split_on join_with
join-split sep [] = refl
join-split sep (c ∷ cs) =
    let r = parts sep cs in
    let rest : join_with sep (r.first ∷ r.rest) ≡ cs =
      ap (join_with sep) (sym r.split) ∙ join-split sep cs in
    elim (Bool-cases (c == sep)) [
      | inl hit ↦
          ap (join_with sep) (split-hit sep c cs hit ∙ ap (λ l. [] ∷ l) r.split)
          ∙ join-empty_first sep r.first r.rest
          ∙ ap (λ l. sep ∷ l) rest
          ∙ ap (λ d. d ∷ cs) (sym (same_code c sep hit))
      | inr miss ↦
          ap (join_with sep) (split-miss sep c cs miss ∙ ap (cons_head c) r.split)
          ∙ join-cons_head sep c r.first r.rest
          ∙ ap (λ l. c ∷ l) rest
    ]

pub split-IsFree : (sep : ℕ) (t : Text) → IsFree sep t → split_on sep t ≡ t ∷ []
unfolding split_on
split-IsFree sep [] h = refl
split-IsFree sep (c ∷ cs) h =
    let r = or-neither _ _ h in split-miss sep c cs r.0 ∙ ap (cons_head c) (split-IsFree sep cs r.1)

split-append :
    (sep : ℕ) (t u : Text) → IsFree sep t → split_on sep (t ++ sep ∷ u) ≡ t ∷ split_on sep u
unfolding split_on
split-append sep [] u h = split-hit sep sep u (ground arith)
split-append sep (c ∷ cs) u h =
    let r = or-neither _ _ h in
    split-miss sep c (cs ++ sep ∷ u) r.0 ∙ ap (cons_head c) (split-append sep cs u r.1)

pub split-join :
    (sep : ℕ) (t : Text) (ts : List Text)
    → All (IsFree sep) (t ∷ ts)
    → split_on sep (join_with sep (t ∷ ts)) ≡ t ∷ ts
unfolding join_with
split-join sep t [] h = split-IsFree sep t h.0
split-join sep t (u ∷ us) h =
    split-append sep t (join_with sep (u ∷ us)) h.0 ∙ ap (λ l. t ∷ l) (split-join sep u us h.1)

cons_head-IsFree :
    (sep c : ℕ) (ts : List Text)
    → (c == sep) ≡ false
    → All (IsFree sep) ts
    → All (IsFree sep) (cons_head c ts)
cons_head-IsFree sep c [] h a = (or-false _ _ h refl, tt)
cons_head-IsFree sep c (t ∷ ts) h a = (or-false _ _ h a.0, a.1)

-- no part of a split holds the separator
pub split-All : (sep : ℕ) (t : Text) → All (IsFree sep) (split_on sep t)
unfolding split_on
split-All sep [] = (refl, tt)
split-All sep (c ∷ cs) = elim (Bool-cases (c == sep)) [
  | inl hit ↦ subst (All (IsFree sep)) (sym (split-hit sep c cs hit)) (refl, split-All sep cs)
  | inr miss ↦
      subst (All (IsFree sep)) (sym (split-miss sep c cs miss))
        (cons_head-IsFree sep c (split_on sep cs) miss (split-All sep cs))
]
