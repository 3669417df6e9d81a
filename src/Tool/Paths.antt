-- ===== src/Tool/Paths.antt =====
-- The paths of packages/kortex-core/src/kortex_core/memory_tool.py. `_TRAVERSAL` finds its pattern in a
-- stripped text just when a piece between slashes is `..`. `normpath` is posixpath's.
pub mod Laws
pub mod Passing
pub mod Canonical
use kortex_memory.Prelude.{
  ℕ, Bool, true, false, not, ◌&&◌, ◌||◌, List, [], ◌∷◌, ◌++◌, Text, text_eq, any, codes, ◌==◌,
  if◌then◌else◌,
}
use kortex_memory.Dedup.{strip}
use kortex_memory.Tool.{Value, item, seq, null, object, flag, number, real, text, memory_root}
use kortex_memory.Tool.Texts.{split_on, join_with, starts_with}
use kortex_memory.Tool.Replies.{
  Reply, Checked, passed, rejected, path_required, not_permitted, outside_root,
}

abbrev pub slash : ℕ
slash = 47

abbrev pub dot : Text
dot = 46 ∷ []

abbrev pub dot_dot : Text
dot_dot = 46 ∷ 46 ∷ []

abbrev pub has_traversal : Text → Bool
has_traversal t = any (λ c. text_eq c dot_dot) (split_on slash t)

-- `_ENCODED`: `%2e`, `%2f` or `%5c` in either case
abbrev pub e_or_f : Text → Bool
e_or_f [] = false
e_or_f (c ∷ t) = c == 101 || c == 69 || c == 102 || c == 70

abbrev pub c_either : Text → Bool
c_either [] = false
c_either (c ∷ t) = c == 99 || c == 67

abbrev pub digit_then : Text → Bool
digit_then [] = false
digit_then (c ∷ t) = (c == 50 && e_or_f t) || (c == 53 && c_either t)

unfoldable pub has_encoded : Text → Bool
has_encoded [] = false
has_encoded (c ∷ t) = (c == 37 && digit_then t) || has_encoded t

abbrev pub has_backslash : Text → Bool
has_backslash t = any (λ c. c == 92) t

abbrev pub is_blank : Text → Bool
is_blank [] = true
is_blank (c ∷ t) = false

-- `new_comps[-1] == '..'`
abbrev pub ends_above : List Text → Bool
ends_above [] = false
ends_above (t ∷ []) = text_eq t dot_dot
ends_above (t ∷ u ∷ us) = ends_above (u ∷ us)

abbrev pub without_last : List Text → List Text
without_last [] = []
without_last (t ∷ []) = []
without_last (t ∷ u ∷ us) = t ∷ without_last (u ∷ us)

abbrev pub is_none_at : List Text → Bool
is_none_at [] = true
is_none_at (t ∷ ts) = false

abbrev pub is_skipped : Text → Bool
is_skipped t = is_blank t || text_eq t dot

-- one turn of the loop of `normpath`
abbrev pub add_component : Bool → List Text → Text → List Text
add_component rooted done t =
    if is_skipped t
    then done
    else if not (text_eq t dot_dot) || (not rooted && is_none_at done) || ends_above done
    then done ++ t ∷ []
    else without_last done

unfoldable pub components : Bool → List Text → List Text → List Text
unfolding text_eq
components rooted done [] = done
components rooted done (t ∷ ts) = components rooted (add_component rooted done t) ts

-- one slash, or the two that POSIX keeps
abbrev pub initial_slashes : Text → Text
initial_slashes t =
    if starts_with (slash ∷ []) t
    then (if starts_with (slash ∷ slash ∷ []) t && not (starts_with (slash ∷ slash ∷ slash ∷ []) t)
        then slash ∷ slash ∷ []
        else slash ∷ [])
    else []

abbrev pub or_dot : Text → Text
or_dot [] = dot
or_dot (c ∷ t) = c ∷ t

unfoldable pub normpath : Text → Text
unfolding split_on join_with starts_with components
normpath t =
    let start = initial_slashes t in
    or_dot (start ++ join_with slash (components (not (is_blank start)) [] (split_on slash t)))

abbrev pub is_inside : Text → Bool
is_inside t = text_eq t memory_root || starts_with (memory_root ++ slash ∷ []) t

abbrev inside_or_rejected : Text → Text → Checked Text
inside_or_rejected path canonical =
    if is_inside canonical then passed canonical else rejected (outside_root path)

abbrev pub checked_path : Text → Checked Text
checked_path path =
    if is_blank path
    then rejected path_required
    else if has_encoded path || (has_traversal path || has_backslash path)
    then rejected (not_permitted path)
    else inside_or_rejected path (normpath path)

unfoldable pub normalise_path : Value → Checked Text
unfolding strip text_eq starts_with split_on has_encoded normpath
normalise_path (item (text raw)) = checked_path (strip raw)
normalise_path (item null) = rejected path_required
normalise_path (item object) = rejected path_required
normalise_path (item (flag b)) = rejected path_required
normalise_path (item (number n)) = rejected path_required
normalise_path (item (real n)) = rejected path_required
normalise_path (seq vs) = rejected path_required
