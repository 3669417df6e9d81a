-- ===== src/Retrieval/Conflicts.antt =====
-- packages/kortex-core/src/kortex_core/retrieval/conflicts.py. A set of ids is a list of them.
pub mod Laws
mod Tests
use kortex_memory.Prelude.{
  ℕ, Bool, true, false, not, ◌&&◌, Option, none, some, List, [], ◌∷◌, ◌++◌, Text, map, keep, any,
  ◌==◌, if◌then◌else◌,
}
use kortex_memory.Types.{MemoryLinkType, MemoryTier, Sensitivity, link_eq}
use kortex_memory.Access.{Principal}
use kortex_memory.Memories.{Memory, MemoryLink, Table, find}
use kortex_memory.Memories.Links.{Links, conflict_links}
use kortex_memory.Memories.Queries.{list_by_ids}

pub data Relation : Type 0 where
  superseded_by supersedes contradicts : Relation

pub record ConflictNote : Type 0 where
  pub public_id : ℕ
  pub title : Text
  pub relation : Relation
  pub created_at : ℕ

-- a hit of retrieval/hybrid.py; the hits of a page have different ids
pub record HybridSearchHit : Type 0 where
  pub memory_id : ℕ
  pub public_id : ℕ
  pub title : Text
  pub body : Text
  pub tier : MemoryTier
  pub sensitivity : Sensitivity
  pub importance : ℕ
  pub decay_score : ℕ
  pub pinned : Bool
  pub vector_distance : Option ℕ
  pub bm25_rank : Option ℕ
  pub score : ℕ
  pub conflicts : List ConflictNote

-- the hit that shows a row
abbrev pub hit_of : ℕ → Memory → HybridSearchHit
hit_of score m = record {
  memory_id = m.id;
  public_id = m.public_id;
  title = m.title;
  body = m.body;
  tier = m.tier;
  sensitivity = m.sensitivity;
  importance = m.importance;
  decay_score = m.decay_score;
  pinned = m.pinned;
  vector_distance = none;
  bm25_rank = none;
  score = score;
  conflicts = [];
}

abbrev pub member : ℕ → List ℕ → Bool
member i = any (λ j. i == j)

abbrev pub is_stale {ℓ} : {A : Type ℓ} → List ℕ → (A → ℕ) → A → Bool
is_stale demoted key x = member (key x) demoted

unfoldable pub demote_superseded {ℓ} : {A : Type ℓ} → List A → List ℕ → (A → ℕ) → List A
demote_superseded items [] key = items
demote_superseded items (i ∷ ids) key =
    keep (λ x. not (is_stale (i ∷ ids) key x)) items ++ keep (is_stale (i ∷ ids) key) items

-- one end of a link, from the point of view of the memory at the other
pub record Side : Type 0 where
  pub anchor : ℕ
  pub other : ℕ
  pub relation : Relation

abbrev pub is_supersession : MemoryLink → Bool
is_supersession l = link_eq l.link_type MemoryLinkType.supersedes

abbrev pub sides : MemoryLink → List Side
sides l =
    record {
      anchor = l.from_memory_id;
      other = l.to_memory_id;
      relation = if is_supersession l then supersedes else contradicts;
    }
    ∷ record {
      anchor = l.to_memory_id;
      other = l.from_memory_id;
      relation = if is_supersession l then superseded_by else contradicts;
    }
    ∷ []

-- `notes`, in the order in which they were appended, each with its anchor, and `demoted`
pub record Notes : Type 0 where
  pub notes : List (ℕ × ConflictNote)
  pub demoted : List ℕ

abbrev pub by_id : ℕ → Memory → Bool
by_id i m = m.id == i

abbrev pub note_of : Memory → Relation → ConflictNote
note_of m r = record {
  public_id = m.public_id;
  title = m.title;
  relation = r;
  created_at = m.created_at;
}

abbrev pub is_superseded_by : Relation → Bool
is_superseded_by superseded_by = true
is_superseded_by supersedes = false
is_superseded_by contradicts = false

-- the ids that a side adds to `demoted`
abbrev pub demotes : List ℕ → Side → List ℕ
demotes present s =
    if is_superseded_by s.relation && member s.other present then s.anchor ∷ [] else []

-- what a side adds, once its other end is described
abbrev pub described : List ℕ → Side → Option Memory → Notes → Notes
described present s none n = n
described present s (some m) n = record {
  notes = n.notes ++ (s.anchor, note_of m s.relation) ∷ [];
  demoted = n.demoted ++ demotes present s;
}

abbrev pub visit : List ℕ → Table → Side → Notes → Notes
visit present rows s n =
    if member s.anchor present then described present s (find (by_id s.other) rows) n else n

-- the loop over the sides of the links
unfoldable pub visit_all : List ℕ → Table → List Side → Notes → Notes
unfolding find
visit_all present rows [] n = n
visit_all present rows (s ∷ ss) n = visit_all present rows ss (visit present rows s n)

abbrev pub all_sides : Links → List Side
all_sides [] = []
all_sides (l ∷ ls) = sides l ++ all_sides ls

abbrev pub referenced : Links → List ℕ
referenced [] = []
referenced (l ∷ ls) = l.from_memory_id ∷ l.to_memory_id ∷ referenced ls

abbrev pub notes_for : ℕ → List (ℕ × ConflictNote) → List ConflictNote
notes_for i [] = []
notes_for i ((a, n) ∷ ns) = let rest = notes_for i ns in if a == i then n ∷ rest else rest

abbrev pub with_notes : Notes → List HybridSearchHit → List HybridSearchHit
with_notes n [] = []
with_notes n (h ∷ hs) = record h { conflicts = notes_for h.memory_id n.notes } ∷ with_notes n hs

abbrev pub present_in : List HybridSearchHit → List ℕ
present_in = map (λ h. h.memory_id)

abbrev pub no_notes : Notes
no_notes = record { notes = []; demoted = [] }

-- the notes and the demoted ids that some edges make
abbrev pub on_links : Principal → Table → List ℕ → Links → Notes
on_links p t present ls =
    visit_all present (list_by_ids p (referenced ls) t) (all_sides ls) no_notes

abbrev pub noted : Principal → Table → List HybridSearchHit → Links → List HybridSearchHit × List ℕ
noted p t hits [] = (hits, [])
noted p t hits (l ∷ ls) =
    let n = on_links p t (present_in hits) (l ∷ ls) in (with_notes n hits, n.demoted)

-- `annotate_conflicts`: the hits with their notes, and the ids that should sort last
unfoldable pub annotate_conflicts :
    Principal → Links → Table → List HybridSearchHit → List HybridSearchHit × List ℕ
unfolding conflict_links list_by_ids visit_all
annotate_conflicts p links t hits = noted p t hits (conflict_links (present_in hits) links)
