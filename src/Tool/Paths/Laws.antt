-- ===== src/Tool/Paths/Laws.antt =====
-- Canonical paths of memory_tool.py: they have one spelling.
use kortex_memory.Prelude.{
  ◌≡◌, refl, sym, ◌∙◌, ap, Bool, false, not, ◌||◌, List, [], ◌∷◌, ◌++◌, Text, text_eq, All, any,
  keep, append_assoc, append_nil, Bool-cases, inl, inr, arith,
}
use kortex_memory.Tool.Texts.{join_with}
use kortex_memory.Tool.Texts.Splitting.{or-neither, or-false}
use kortex_memory.Tool.Paths.{slash, dot_dot, has_encoded, has_backslash, components, is_skipped}

-- without `..` the loop of `normpath` keeps what is neither empty nor a dot
pub components-keep :
    (rooted : Bool) (done ts : List Text)
    → any (λ c. text_eq c dot_dot) ts ≡ false
    → components rooted done ts ≡ done ++ keep (λ t. not (is_skipped t)) ts
unfolding components
components-keep rooted done [] h = sym (append_nil done)
components-keep rooted done (t ∷ ts) h =
    let r = or-neither (text_eq t dot_dot) _ h in
    let kept : List Text = keep (λ t. not (is_skipped t)) ts in
    elim (Bool-cases (is_skipped t)) [
      | inl skipped ↦ rw (skipped) (components-keep rooted done ts r.1)
      | inr name ↦
          rw (name, r.0)
            (components-keep rooted (done ++ t ∷ []) ts r.1 ∙ append_assoc done (t ∷ []) kept)
    ]

has_encoded-append : (t u : Text) → has_encoded (t ++ slash ∷ u) ≡ (has_encoded t || has_encoded u)
unfolding has_encoded
has_encoded-append [] u = refl
has_encoded-append (a ∷ []) u = ground arith
has_encoded-append (a ∷ b ∷ []) u = ground arith
has_encoded-append (a ∷ b ∷ c ∷ t) u = ground (arith, has_encoded-append (b ∷ c ∷ t) u)

pub has_encoded-join : (ts : List Text) → has_encoded (join_with slash ts) ≡ any has_encoded ts
unfolding has_encoded join_with
has_encoded-join [] = refl
has_encoded-join (t ∷ []) = ground arith
has_encoded-join (t ∷ u ∷ us) =
    has_encoded-append t (join_with slash (u ∷ us))
    ∙ ap (λ b. has_encoded t || b) (has_encoded-join (u ∷ us))

has_backslash-append :
    (t u : Text) → has_backslash (t ++ slash ∷ u) ≡ (has_backslash t || has_backslash u)
has_backslash-append [] u = refl
has_backslash-append (a ∷ t) u = ground (arith, has_backslash-append t u)

pub has_backslash-join :
    (ts : List Text) → has_backslash (join_with slash ts) ≡ any has_backslash ts
unfolding join_with
has_backslash-join [] = refl
has_backslash-join (t ∷ []) = ground arith
has_backslash-join (t ∷ u ∷ us) =
    has_backslash-append t (join_with slash (u ∷ us))
    ∙ ap (λ b. has_backslash t || b) (has_backslash-join (u ∷ us))

-- what holds of no piece holds of none that is kept
pub any-keep :
    {A : Type 0} (f g : A → Bool) (xs : List A) → any f xs ≡ false → any f (keep g xs) ≡ false
any-keep f g [] h = refl
any-keep f g (x ∷ xs) h =
    let r = or-neither _ _ h in
    elim (Bool-cases (g x)) [
      | inl kept ↦ rw (kept) (or-false _ _ r.0 (any-keep f g xs r.1))
      | inr dropped ↦ rw (dropped) (any-keep f g xs r.1)
    ]

pub keep-kept :
    {A : Type 0} (P : A → Type 0) (g : A → Bool) (xs : List A) → All P xs → All P (keep g xs)
keep-kept P g [] h = tt
keep-kept P g (x ∷ xs) h = elim (Bool-cases (g x)) [
  | inl kept ↦ rw (kept) (h.0, keep-kept P g xs h.1)
  | inr dropped ↦ rw (dropped) (keep-kept P g xs h.1)
]

pub keep-none : {A : Type 0} (f : A → Bool) (xs : List A) → any f (keep (λ x. not (f x)) xs) ≡ false
keep-none f [] = refl
keep-none f (x ∷ xs) = elim (Bool-cases (f x)) [
  | inl hit ↦ rw (hit) (keep-none f xs)
  | inr miss ↦ rw (miss) (or-false _ _ miss (keep-none f xs))
]

pub keep-every :
    {A : Type 0} (f : A → Bool) (xs : List A) → any f xs ≡ false → keep (λ x. not (f x)) xs ≡ xs
keep-every f [] h = refl
keep-every f (x ∷ xs) h =
    let r = or-neither (f x) _ h in rw (r.0) (ap (λ l. x ∷ l) (keep-every f xs r.1))
