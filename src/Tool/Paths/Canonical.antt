-- ===== src/Tool/Paths/Canonical.antt =====
-- Canonical paths of memory_tool.py have one spelling.
use kortex_memory.Prelude.{
  ◌≡◌, ◌↔◌, ◌⊎◌, refl, sym, ◌∙◌, ap, subst, Bool, true, false, not, ◌&&◌, ◌||◌, List, [], ◌∷◌, ◌++◌,
  Text, text_eq, All, any, keep, inl, inr, arith, if◌then◌else◌,
}
use kortex_memory.Dedup.{strip}
use kortex_memory.Tool.{Value, item, seq, null, object, flag, number, real, text}
use kortex_memory.Tool.Texts.{split_on, join_with, starts_with}
use kortex_memory.Tool.Texts.Splitting.{IsFree, join-split, split-All, split-hit, split-join}
use kortex_memory.Tool.Replies.{Reply, passed, rejected}
use kortex_memory.Tool.Paths.{
  slash, dot_dot, has_encoded, has_backslash, has_traversal, is_skipped, is_blank, is_inside,
  normpath, or_dot, initial_slashes, checked_path, normalise_path,
}
use kortex_memory.Tool.Paths.Laws.{
  has_encoded-join, has_backslash-join, any-keep, keep-kept, keep-none,
}
use kortex_memory.Tool.Paths.Passing.{IsCanonical, no_names, normpath-keep, IsCanonical-passed}

tail_eq : {xs ys : List Text} → ([] ∷ xs) ≡ ([] ∷ ys) → xs ≡ ys
tail_eq e = cc e

-- the checks that a path came through
record Came (path p : Text) : Type 0 where
  encoded : has_encoded path ≡ false
  traversal : has_traversal path ≡ false
  backslash : has_backslash path ≡ false
  result : normpath path ≡ p
  inside : is_inside p ≡ true

checks :
    (blank encoded traversal backslash inside : Bool) (q r s : Reply) (c p : Text)
    → (if blank
        then rejected q
        else if encoded || (traversal || backslash)
        then rejected r
        else if inside
        then passed c
        else rejected s)
      ≡ passed p
    → (encoded ≡ false)
      × ((traversal ≡ false) × ((backslash ≡ false) × ((c ≡ p) × (inside ≡ true))))
checks blank encoded traversal backslash inside q r s c p h = ground arith

came : (path p : Text) → checked_path path ≡ passed p → Came path p
came path p h =
    let r =
      checks (is_blank path) (has_encoded path) (has_traversal path) (has_backslash path)
        (is_inside (normpath path)) _ _ _ (normpath path) p h in
    record {
      encoded = r.0;
      traversal = r.1.0;
      backslash = r.1.1.0;
      result = r.1.1.1.0;
      inside = subst (λ t. is_inside t ≡ true) r.1.1.1.0 r.1.1.1.1;
    }

slashes :
    (a b : Bool)
    → let start : Text = if a then (if b then slash ∷ slash ∷ [] else slash ∷ []) else [] in
      (start ≡ []) ⊎ ((start ≡ slash ∷ []) ⊎ (start ≡ slash ∷ slash ∷ []))
slashes true true = inr (inr refl)
slashes true false = inr (inl refl)
slashes false b = inl refl

not_rooted :
    (names : List Text)
    → any is_skipped names ≡ false
    → All (IsFree slash) names
    → is_inside (or_dot (join_with slash names)) ≡ true
    → ⊥
unfolding join_with text_eq starts_with
not_rooted [] h f i = cc i
not_rooted ([] ∷ ns) h f i = cc h
not_rooted ((c ∷ cs) ∷ []) h f i = ground (arith, f.0, i)
not_rooted ((c ∷ cs) ∷ n ∷ ns) h f i = ground (arith, f.0, i)

two_slashes : (t : Text) → is_inside (slash ∷ slash ∷ t) ≡ true → ⊥
unfolding text_eq starts_with
two_slashes t i = cc i

-- the names of a path: what stands between its slashes and is neither empty nor a dot
abbrev pub names_of : Text → List Text
names_of path = keep (λ u. not (is_skipped u)) (split_on slash path)

-- the canonical path of a text with one slash before its names
shown-IsCanonical :
    (path p : Text)
    → Came path p
    → p ≡ slash ∷ join_with slash (keep (λ u. not (is_skipped u)) (split_on slash path))
    → IsCanonical p
unfolding has_encoded
shown-IsCanonical path p c shape =
    let pieces : List Text = split_on slash path in
    let test : Text → Bool = λ u. not (is_skipped u) in
    let names : List Text = keep test pieces in
    let encoded : any has_encoded names ≡ false =
      any-keep has_encoded test pieces
        (sym (has_encoded-join pieces) ∙ ap has_encoded (join-split slash path) ∙ c.encoded) in
    let backslash : any has_backslash names ≡ false =
      any-keep has_backslash test pieces (
        sym (has_backslash-join pieces) ∙ ap has_backslash (join-split slash path) ∙ c.backslash) in
    record {
      names = names;
      shape = shape;
      named = keep-none is_skipped pieces;
      never_up = any-keep (λ t. text_eq t dot_dot) test pieces c.traversal;
      free = keep-kept (IsFree slash) test pieces (split-All slash path);
      plain = ap has_encoded shape ∙ has_encoded-join names ∙ encoded;
      forward = ap has_backslash shape ∙ has_backslash-join names ∙ backslash;
      inside = c.inside;
    }

accepted_shape : (path p : Text) → Came path p → p ≡ slash ∷ join_with slash (names_of path)
unfolding starts_with
accepted_shape path p c =
    let names : List Text = names_of path in
    let made : (start : Text)
        → initial_slashes path ≡ start
        → p ≡ or_dot (start ++ join_with slash names) =
      λ start h. sym c.result ∙ normpath-keep path start h c.traversal in
    let within : (t : Text) → p ≡ t → is_inside t ≡ true =
      λ t h. subst (λ u. is_inside u ≡ true) h c.inside in
    elim (slashes (starts_with (slash ∷ []) path) (
      starts_with (slash ∷ slash ∷ []) path
      && not (starts_with (slash ∷ slash ∷ slash ∷ []) path))) [
        | inl bare ↦ absurd (
            not_rooted names (keep-none is_skipped (split_on slash path))
              (keep-kept (IsFree slash) (λ u. not (is_skipped u)) (split_on slash path)
                (split-All slash path))
              (within _ (made [] bare)))
        | inr (inl one) ↦ made (slash ∷ []) one
        | inr (inr two) ↦
            absurd (two_slashes (join_with slash names) (within _ (made (slash ∷ slash ∷ []) two)))
      ]

checked-IsCanonical : (path p : Text) → Came path p → IsCanonical p
checked-IsCanonical path p c = shown-IsCanonical path p c (accepted_shape path p c)

names-split :
    (p : Text) (names : List Text)
    → p ≡ slash ∷ join_with slash names
    → All (IsFree slash) names
    → is_inside p ≡ true
    → split_on slash p ≡ [] ∷ names
unfolding join_with
names-split p [] shape free inside = absurd (no_names p shape inside)
names-split p (n ∷ ns) shape free inside =
    ap (split_on slash) shape
    ∙ split-hit slash slash (join_with slash (n ∷ ns)) refl
    ∙ ap (λ l. [] ∷ l) (split-join slash n ns free)

-- the names of an accepted path can be read off its canonical form
accepted_names : (path p : Text) → Came path p → split_on slash p ≡ [] ∷ names_of path
accepted_names path p c =
    names-split p (names_of path) (accepted_shape path p c)
      (keep-kept (IsFree slash) (λ u. not (is_skipped u)) (split_on slash path)
        (split-All slash path))
      c.inside

-- If a path is accepted, then its canonical form lies under the memory root, with one slash before each
-- of its names; no name is empty, `.` or `..` or holds a slash; and the form holds no percent-encoded
-- slash, dot or backslash and no backslash.
pub normalise_path-IsCanonical :
    (v : Value) (p : Text) → normalise_path v ≡ passed p → IsCanonical p
unfolding normalise_path
normalise_path-IsCanonical (item (text raw)) p h =
    checked-IsCanonical (strip raw) p (came (strip raw) p h)
normalise_path-IsCanonical (item null) p h = absurd cc h
normalise_path-IsCanonical (item object) p h = absurd cc h
normalise_path-IsCanonical (item (flag b)) p h = absurd cc h
normalise_path-IsCanonical (item (number n)) p h = absurd cc h
normalise_path-IsCanonical (item (real n)) p h = absurd cc h
normalise_path-IsCanonical (seq vs) p h = absurd cc h

-- The canonical form of an accepted path passes the checks as it is, when it has no blank at its ends.
pub normalise_path-again :
    (v : Value) (p : Text)
    → normalise_path v ≡ passed p
    → strip p ≡ p
    → normalise_path (item (text p)) ≡ passed p
normalise_path-again v p h blank = IsCanonical-passed p (normalise_path-IsCanonical v p h) blank

-- Two paths that are accepted have the same canonical form just when they have the same names: what
-- stands between the slashes of the stripped text, where empty names and dots do not count. So a file has
-- one key, whatever spelling of its path is used, and two files have two keys.
pub normalise_path-names :
    (raw raw' p p' : Text)
    → normalise_path (item (text raw)) ≡ passed p
    → normalise_path (item (text raw')) ≡ passed p'
    → (p ≡ p') ↔ (names_of (strip raw) ≡ names_of (strip raw'))
unfolding normalise_path
normalise_path-names raw raw' p p' h h' =
    let c = came (strip raw) p h in
    let c' = came (strip raw') p' h' in
    (
      λ e. tail_eq (
          sym (accepted_names (strip raw) p c)
          ∙ (ap (split_on slash) e ∙ accepted_names (strip raw') p' c')),
      λ e.
          accepted_shape (strip raw) p c
          ∙ (ap (λ l. slash ∷ join_with slash l) e ∙ sym (accepted_shape (strip raw') p' c')),
    )
