-- ===== src/Retrieval/Conflicts/Laws.antt =====
-- The order of a page, and who is demoted in it, in retrieval/conflicts.py.
use kortex_memory.Prelude.{
  append_nil, append-All, ℕ, ◌+◌, ◌≡◌, refl, sym, ◌∙◌, ap, Bool, true, false, not, ◌&&◌, Option,
  none, some, List, [], ◌∷◌, ◌++◌, All, In, All-map, length, length-append, keep, keep-All, any,
  if◌then◌else◌, arith,
}
use kortex_memory.Retrieval.Conflicts.{
  Relation, superseded_by, supersedes, contradicts, Side, Notes, is_superseded_by, is_stale,
  demote_superseded, member, is_supersession, all_sides, demotes, described, visit, visit_all,
  noted, referenced, no_notes, by_id, annotate_conflicts, HybridSearchHit, present_in,
}
use kortex_memory.Access.{Principal}
use kortex_memory.Memories.{Memory, MemoryLink, Table, find}
use kortex_memory.Memories.Links.{Links, conflict_links, is_conflict, touches}
use kortex_memory.Memories.Queries.{list_by_ids}

module _ {ℓ} {A : Type ℓ} where
  keep-append :
      (test : A → Bool) (xs ys : List A) → keep test (xs ++ ys) ≡ keep test xs ++ keep test ys
  keep-append test [] ys = refl
  keep-append test (x ∷ xs) ys = ground (arith, keep-append test xs ys)

  keep-keep : (test : A → Bool) (xs : List A) → keep test (keep test xs) ≡ keep test xs
  keep-keep test [] = refl
  keep-keep test (x ∷ xs) = ground (arith, keep-keep test xs)

  keep-not : (test : A → Bool) (xs : List A) → keep test (keep (λ x. not (test x)) xs) ≡ []
  keep-not test [] = refl
  keep-not test (x ∷ xs) = ground (arith, keep-not test xs)

  not-keep : (test : A → Bool) (xs : List A) → keep (λ x. not (test x)) (keep test xs) ≡ []
  not-keep test [] = refl
  not-keep test (x ∷ xs) = ground (arith, not-keep test xs)

  length-parts :
      (test : A → Bool) (xs : List A)
      → length (keep (λ x. not (test x)) xs) + length (keep test xs) ≡ length xs
  length-parts test [] = omega arith
  length-parts test (x ∷ xs) = ground (arith, length-parts test xs)

  all-fresh : (key : A → ℕ) (xs : List A) → keep (λ x. not (is_stale [] key x)) xs ≡ xs
  all-fresh key [] = refl
  all-fresh key (x ∷ xs) = rw (all-fresh key xs)

  none-stale : (key : A → ℕ) (xs : List A) → keep (is_stale [] key) xs ≡ []
  none-stale key [] = refl
  none-stale key (x ∷ xs) = none-stale key xs

  -- The reordering of a page drops no item and adds none; the items that are not superseded come first;
  -- and among these, and among the superseded ones, the order is that of the page.
  pub demote_superseded_lem :
      (items : List A) (demoted : List ℕ) (key : A → ℕ)
      → let fresh : A → Bool = λ x. not (is_stale demoted key x) in
        let page : List A = demote_superseded items demoted key in
        (length page ≡ length items)
        × (page ≡ keep fresh page ++ keep (is_stale demoted key) page)
        × (keep fresh page ≡ keep fresh items)
        × (keep (is_stale demoted key) page ≡ keep (is_stale demoted key) items)
  unfolding demote_superseded
  demote_superseded_lem items [] key = (
    refl,
    sym (
        ap (λ l. l ++ keep (is_stale [] key) items) (all-fresh key items)
        ∙ ap (λ l. items ++ l) (none-stale key items)
        ∙ append_nil items),
    refl,
    refl,
  )
  demote_superseded_lem items (i ∷ ids) key =
      let stale : A → Bool = is_stale (i ∷ ids) key in
      let fresh : A → Bool = λ x. not (stale x) in
      let front : List A = keep fresh items in
      let back : List A = keep stale items in
      let first : keep fresh (front ++ back) ≡ front =
        keep-append fresh front back
        ∙ ap (λ l. l ++ keep fresh back) (keep-keep fresh items)
        ∙ ap (λ l. front ++ l) (not-keep stale items)
        ∙ append_nil front in
      let last : keep stale (front ++ back) ≡ back =
        keep-append stale front back
        ∙ ap (λ l. l ++ keep stale back) (keep-not stale items)
        ∙ keep-keep stale items in
      (
        length-append front back ∙ length-parts stale items,
        ap (λ l. l ++ back) (sym first) ∙ ap (λ l. keep fresh (front ++ back) ++ l) (sym last),
        first,
        last,
      )

-- why a memory of the page sorts last
pub record IsOutdated (p : Principal) (t : Table) (present : List ℕ) (ls : Links) (i : ℕ)
    : Type 0 where
  pub link : MemoryLink
  pub recorded : In link ls
  pub supersedes : is_supersession link ≡ true
  pub to : link.to_memory_id ≡ i
  pub on_page : member i present ≡ true
  pub newer_on_page : member link.from_memory_id present ≡ true

and-both : (a b : Bool) → (a && b) ≡ true → (a ≡ true) × (b ≡ true)
and-both true b h = (refl, h)
and-both false b h = absurd cc h

superseded_by_if : (r : Relation) → is_superseded_by r ≡ true → r ≡ superseded_by
superseded_by_if superseded_by h = refl
superseded_by_if supersedes h = absurd cc h
superseded_by_if contradicts h = absurd cc h

not_superseded : (b : Bool) → (if b then supersedes else contradicts) ≡ superseded_by → ⊥
not_superseded true h = cc h
not_superseded false h = cc h

supersession : (b : Bool) → (if b then superseded_by else contradicts) ≡ superseded_by → b ≡ true
supersession true h = refl
supersession false h = absurd cc h

module _ (present : List ℕ) (rows : Table) (Q : ℕ → Type 0) where
  -- what a demotion by a side presupposes
  abbrev Justifies : Side → Type 0
  Justifies s =
      s.relation ≡ superseded_by
      → member s.other present ≡ true
      → member s.anchor present ≡ true
      → Q s.anchor

  if-All :
      (b : Bool) (xs ys : List ℕ) → (b ≡ true → All Q xs) → All Q ys → All Q (if b then xs else ys)
  if-All true xs ys h k = h refl
  if-All false xs ys h k = k

  demotes-All :
      (s : Side) → Justifies s → member s.anchor present ≡ true → All Q (demotes present s)
  demotes-All s j a =
      if-All (is_superseded_by s.relation && member s.other present) (s.anchor ∷ []) []
        (λ h.
          let both = and-both (is_superseded_by s.relation) (member s.other present) h in
          (j (superseded_by_if s.relation both.0) both.1 a, tt))
        tt

  described-All :
      (s : Side) (o : Option Memory) (n : Notes)
      → All Q (demotes present s)
      → All Q n.demoted
      → All Q (described present s o n).demoted
  described-All s none n d h = h
  described-All s (some m) n d h = append-All Q n.demoted (demotes present s) h d

  visit_if-All :
      (b : Bool) (s : Side) (n : Notes)
      → (b ≡ true → All Q (demotes present s))
      → All Q n.demoted
      → All Q (if b then described present s (find (by_id s.other) rows) n else n).demoted
  visit_if-All true s n d h = described-All s (find (by_id s.other) rows) n (d refl) h
  visit_if-All false s n d h = h

  visit_all-All :
      (ss : List Side) (n : Notes)
      → All Justifies ss
      → All Q n.demoted
      → All Q (visit_all present rows ss n).demoted
  unfolding visit_all
  visit_all-All [] n js h = h
  visit_all-All (s ∷ ss) n js h =
      visit_all-All ss (visit present rows s n) js.1
        (visit_if-All (member s.anchor present) s n (demotes-All s js.0) h)

module _ (p : Principal) (t : Table) (present : List ℕ) (all : Links) where
  sides-Justifies :
      (ls : Links)
      → All (λ l. In l all) ls
      → All (Justifies present t (IsOutdated p t present all)) (all_sides ls)
  sides-Justifies [] h = tt
  sides-Justifies (l ∷ ls) h =
      let rest = sides-Justifies ls h.1 in
      (
        λ r other anchor. absurd (not_superseded (is_supersession l) r),
        (
          λ r other anchor. record {
            link = l;
            recorded = h.0;
            supersedes = supersession (is_supersession l) r;
            to = refl;
            on_page = anchor;
            newer_on_page = other;
          },
          rest,
        ),
      )

conflict_links-In :
    (ids : List ℕ) (links : Links) → All (λ l. In l links) (conflict_links ids links)
unfolding conflict_links
conflict_links-In [] links = tt
conflict_links-In (i ∷ ids) links =
    All-map (conflict_links (i ∷ ids) links) (λ l h. h.0)
      (keep-All (λ l. is_conflict l.link_type && any (λ j. touches j l) (i ∷ ids)) links)

noted-IsOutdated :
    (p : Principal) (t : Table) (hits : List HybridSearchHit) (all ls : Links)
    → All (λ l. In l all) ls
    → All (IsOutdated p t (present_in hits) all) (noted p t hits ls).1
noted-IsOutdated p t hits all [] h = tt
noted-IsOutdated p t hits all (l ∷ ls) h =
    visit_all-All (present_in hits) (list_by_ids p (referenced (l ∷ ls)) t)
      (IsOutdated p t (present_in hits) all) (all_sides (l ∷ ls)) no_notes
      (sides-Justifies p t (present_in hits) all (l ∷ ls) h) tt

-- An id that the annotation of a page asks to sort last is that of a hit of the page to which a recorded
-- supersession leads from a hit of the same page; from the hit itself, if the link joins it to itself.
pub annotate_conflicts-IsOutdated :
    (p : Principal) (links : Links) (t : Table) (hits : List HybridSearchHit)
    → All (IsOutdated p t (present_in hits) links) (annotate_conflicts p links t hits).1
unfolding annotate_conflicts
annotate_conflicts-IsOutdated p links t hits =
    noted-IsOutdated p t hits links (conflict_links (present_in hits) links)
      (conflict_links-In (present_in hits) links)
