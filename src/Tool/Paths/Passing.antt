-- ===== src/Tool/Paths/Passing.antt =====
-- A canonical path of memory_tool.py passes its checks as it is.
use kortex_memory.Prelude.{
  ◌≡◌, refl, sym, ◌∙◌, ap, subst, true, false, not, List, [], ◌∷◌, ◌++◌, Text, text_eq, All, any,
  keep, arith,
}
use kortex_memory.Dedup.{strip}
use kortex_memory.Tool.{item, text}
use kortex_memory.Tool.Texts.{split_on, join_with, starts_with}
use kortex_memory.Tool.Texts.Splitting.{IsFree, or-neither, split-join, split-hit}
use kortex_memory.Tool.Replies.{passed}
use kortex_memory.Tool.Paths.{
  slash, dot_dot, has_encoded, has_backslash, has_traversal, is_skipped, is_blank, is_inside,
  normpath, or_dot, initial_slashes, checked_path, normalise_path,
}
use kortex_memory.Tool.Paths.Laws.{components-keep, keep-every}

-- a path under the root, a slash before each name; no name is empty, `.`, `..` or holds a slash
pub record IsCanonical (p : Text) : Type 0 where
  pub names : List Text
  pub shape : p ≡ slash ∷ join_with slash names
  pub named : any is_skipped names ≡ false
  pub never_up : any (λ t. text_eq t dot_dot) names ≡ false
  pub free : All (IsFree slash) names
  pub plain : has_encoded p ≡ false
  pub forward : has_backslash p ≡ false
  pub inside : is_inside p ≡ true

pub starts-name :
    (n : Text) (ns : List Text)
    → is_skipped n ≡ false
    → IsFree slash n
    → starts_with (slash ∷ slash ∷ []) (slash ∷ join_with slash (n ∷ ns)) ≡ false
unfolding starts_with join_with
starts-name [] ns h f = absurd cc h
starts-name (c ∷ cs) [] h f = ground arith
starts-name (c ∷ cs) (n ∷ ns) h f = ground arith

-- one slash stands before the names
pub single-slash :
    (n : Text) (ns : List Text)
    → is_skipped n ≡ false
    → IsFree slash n
    → initial_slashes (slash ∷ join_with slash (n ∷ ns)) ≡ slash ∷ []
unfolding starts_with
single-slash n ns h f = rw (starts-name n ns h f) refl

-- what `normpath` makes of a text that has no `..`
pub normpath-keep :
    (t start : Text)
    → initial_slashes t ≡ start
    → has_traversal t ≡ false
    → normpath t
      ≡ or_dot (start ++ join_with slash (keep (λ u. not (is_skipped u)) (split_on slash t)))
unfolding normpath
normpath-keep t start h u = rw (h) (
    ap (λ l. or_dot (start ++ join_with slash l))
      (components-keep (not (is_blank start)) [] (split_on slash t) u))

pub no_names : (t : Text) → t ≡ slash ∷ [] → is_inside t ≡ true → ⊥
unfolding text_eq starts_with
no_names t h k = absurd cc (subst (λ u. is_inside u ≡ true) h k)

-- a text that passes every check goes through as `normpath` leaves it
checked_path-passed :
    (t : Text)
    → has_encoded t ≡ false
    → has_traversal t ≡ false
    → has_backslash t ≡ false
    → normpath t ≡ t
    → is_blank t ≡ false
    → is_inside t ≡ true
    → checked_path t ≡ passed t
checked_path-passed t e u b n f i = rw (f, e, u, b, n, i) refl

canonical-passed :
    (p n : Text) (ns : List Text)
    → p ≡ slash ∷ join_with slash (n ∷ ns)
    → any is_skipped (n ∷ ns) ≡ false
    → any (λ t. text_eq t dot_dot) (n ∷ ns) ≡ false
    → All (IsFree slash) (n ∷ ns)
    → IsCanonical p
    → checked_path p ≡ passed p
unfolding normpath
canonical-passed p n ns shape named up free c =
    let pieces : split_on slash p ≡ [] ∷ n ∷ ns =
      ap (split_on slash) shape
      ∙ split-hit slash slash (join_with slash (n ∷ ns)) refl
      ∙ ap (λ l. [] ∷ l) (split-join slash n ns free) in
    let level : has_traversal p ≡ false = ap (any (λ c. text_eq c dot_dot)) pieces ∙ up in
    let kept : keep (λ u. not (is_skipped u)) (split_on slash p) ≡ n ∷ ns =
      ap (keep (λ u. not (is_skipped u))) pieces ∙ keep-every is_skipped (n ∷ ns) named in
    let rooted : initial_slashes p ≡ slash ∷ [] =
      ap initial_slashes shape ∙ single-slash n ns (or-neither (is_skipped n) _ named).0 free.0 in
    let same : normpath p ≡ p =
      normpath-keep p (slash ∷ []) rooted level
      ∙ ap (λ l. slash ∷ join_with slash l) kept
      ∙ sym shape in
    checked_path-passed p c.plain level c.forward same (ap is_blank shape) c.inside

named_passed :
    (p : Text) (names : List Text)
    → p ≡ slash ∷ join_with slash names
    → any is_skipped names ≡ false
    → any (λ t. text_eq t dot_dot) names ≡ false
    → All (IsFree slash) names
    → IsCanonical p
    → checked_path p ≡ passed p
unfolding join_with
named_passed p [] shape named up free c = absurd (no_names p shape c.inside)
named_passed p (n ∷ ns) shape named up free c = canonical-passed p n ns shape named up free c

-- A canonical path without a blank at its end is its own canonical path.
pub IsCanonical-passed :
    (p : Text) → IsCanonical p → strip p ≡ p → normalise_path (item (text p)) ≡ passed p
unfolding normalise_path
IsCanonical-passed p c h =
    ap checked_path h ∙ named_passed p c.names c.shape c.named c.never_up c.free c
