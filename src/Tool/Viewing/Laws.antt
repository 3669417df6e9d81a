-- ===== src/Tool/Viewing/Laws.antt =====
-- What a view of memory_tool.py shows.
use kortex_memory.Prelude.{
  ℕ, ◌≡◌, refl, sym, ◌∙◌, ap, subst, Bool, true, false, Option, none, some, List, [], ◌∷◌, Text,
  codes, text_eq, if◌then◌else◌,
}
use kortex_memory.Access.{Principal}
use kortex_memory.Policies.{Reason}
use kortex_memory.Memories.{Memory}
use kortex_memory.Service.Exec.{ok, gets, ◌>>=◌}
use kortex_memory.Service.Exec.Laws.{ok-injective}
use kortex_memory.Dedup.{strip}
use kortex_memory.Service.State.{State}
use kortex_memory.Tool.{
  ℤ, Command, Value, item, seq, null, object, flag, number, real, text, arg, memory_root,
}
use kortex_memory.Tool.Paths.{normalise_path, normpath}
use kortex_memory.Tool.Paths.Passing.{IsCanonical}
use kortex_memory.Tool.Paths.Canonical.{normalise_path-IsCanonical}
use kortex_memory.Tool.Lines.{shown, is_too_long}
use kortex_memory.Tool.Lines.Laws.{IsWindow, shown-IsWindow}
use kortex_memory.Tool.Replies.{
  Checked, passed, rejected, content, listing, missing, path_required, not_permitted, outside_root,
  held_for_reading, too_long,
}
use kortex_memory.Tool.Files.{Backend, file, children, is_pending, and_then}
use kortex_memory.Tool.Viewing.{view, view_at, window, listed_or_missing}

-- what a view that answers with a text has read
pub record IsShown (p : Principal) (b : Backend) (s : State) (path : Text) (r : Text × ℕ)
    : Type 0 where
  pub row : Memory
  pub there : file p b path s ≡ some row
  pub reviewed : is_pending row ≡ false
  pub lines : IsWindow row.body r
  pub canonical : IsCanonical path

module _ (int_of_text : Text → Option ℤ) (p : Principal) (b : Backend) where
  shown-parts :
      (held long : Bool) (reason : Option Reason) (at path body : Text) (w : Text × ℕ) (first : ℕ)
      → ok (
          if held
          then held_for_reading at reason
          else if long
          then too_long at
          else window int_of_text p b at w)
        ≡ ok (content path body first)
      → (held ≡ false) × ((at ≡ path) × ((w.0 ≡ body) × (w.1 ≡ first)))
  shown-parts true long reason at path body w first h = absurd cc h
  shown-parts false true reason at path body w first h = absurd cc h
  shown-parts false false reason at path body w first h = (refl, (cc h, (cc h, cc h)))

  not_content :
      (at path body : Text) (first : ℕ) (ms : List Memory)
      → ok (listed_or_missing int_of_text p b at ms) ≡ ok (content path body first)
      → ⊥
  not_content at path body first (m ∷ ms) h = cc h
  not_content at path body first [] h = not_listed (text_eq at memory_root) h
    where
      not_listed :
          (root : Bool)
          → ok (if root then listing at [] else missing at) ≡ ok (content path body first)
          → ⊥
      not_listed true h = cc h
      not_listed false h = cc h

  view_at-IsShown :
      (at : Text) (range : Value) (o : Option Memory) (s : State) (path body : Text) (first : ℕ)
      → file p b at s ≡ o
      → IsCanonical at
      → (view_at int_of_text p b at range o s).0 ≡ ok (content path body first)
      → IsShown p b s path (body, first) × ((view_at int_of_text p b at range o s).1 ≡ s)
  view_at-IsShown at range none s path body first there c h =
      absurd (not_content at path body first (children p b at s) h)
  view_at-IsShown at range (some m) s path body first there c h =
      let w : Text × ℕ = shown int_of_text m.body range in
      let r =
        shown-parts (is_pending m) (is_too_long m.body) m.review_reason at path body w first h in
      let same : w ≡ (body, first) = λ i. (r.1.1.0 i, r.1.1.1 i) in
      (
        record {
          row = m;
          there = ap (λ q. file p b q s) (sym r.1.0) ∙ there;
          reviewed = r.0;
          lines = subst (IsWindow m.body) same (shown-IsWindow int_of_text m.body range);
          canonical = subst IsCanonical r.1.0 c;
        },
        refl,
      )

  refused :
      (blank barred inside : Bool) (raw canonical path body : Text) (first : ℕ)
      → (if blank
          then rejected path_required
          else if barred
          then rejected (not_permitted raw)
          else if inside
          then passed canonical
          else rejected (outside_root raw))
        ≡ rejected (content path body first)
      → ⊥
  refused true barred inside raw canonical path body first h = cc h
  refused false true inside raw canonical path body first h = cc h
  refused false false true raw canonical path body first h = cc h
  refused false false false raw canonical path body first h = cc h

  -- the answer to a rejected path is no file
  rejected_path :
      (v : Value) (path body : Text) (first : ℕ)
      → normalise_path v ≡ rejected (content path body first)
      → ⊥
  unfolding normalise_path
  rejected_path (item (text raw)) path body first h =
      refused _ _ _ (strip raw) (normpath (strip raw)) path body first h
  rejected_path (item null) path body first h = cc h
  rejected_path (item object) path body first h = cc h
  rejected_path (item (flag x)) path body first h = cc h
  rejected_path (item (number n)) path body first h = cc h
  rejected_path (item (real n)) path body first h = cc h
  rejected_path (seq vs) path body first h = cc h

  checked-IsShown :
      (v range : Value) (q : Checked Text) (s : State) (path body : Text) (first : ℕ)
      → normalise_path v ≡ q
      → let run = and_then q (λ at. gets (file p b at) >>= view_at int_of_text p b at range) in
        (run s).0 ≡ ok (content path body first)
        → IsShown p b s path (body, first) × ((run s).1 ≡ s)
  unfolding ◌>>=◌
  checked-IsShown v range (passed at) s path body first e h =
      view_at-IsShown at range (file p b at s) s path body first refl
        (normalise_path-IsCanonical v at e) h
  checked-IsShown v range (rejected r) s path body first e h =
      absurd (rejected_path v path body first (e ∙ ap (λ x. rejected x) (ok-injective h)))

  -- If a view answers with the content of a file, then a file that does not wait for a review stands at
  -- the path that the answer names, which is a canonical path; the lines that the answer shows follow one
  -- another in that file, each at the number that the answer gives it; and the view changes nothing.
  pub view-IsShown :
      (c : Command) (s : State) (path body : Text) (first : ℕ)
      → (view int_of_text p b c s).0 ≡ ok (content path body first)
      → IsShown p b s path (body, first) × ((view int_of_text p b c s).1 ≡ s)
  unfolding view ◌>>=◌
  view-IsShown c s path body first h =
      checked-IsShown (arg (codes "path") c) (arg (codes "view_range") c)
        (normalise_path (arg (codes "path") c)) s path body first refl h
