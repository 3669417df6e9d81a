-- ===== src/Service/Changing.antt =====
-- Updates and reviews of services/memory_service.py.
use kortex_memory.Prelude.{ℕ, ◌≡◌, refl, true, Option, none, some}
use kortex_memory.Access.{Principal, can_write}
use kortex_memory.Memories.{Memory, replace_row}
use kortex_memory.Memories.Queries.{get_by_public_id}
use kortex_memory.Memories.Writes.{Changes, or_old, cleared, update_fields}
use kortex_memory.Service.Exec.{ok, Exec, pure, ◌>>◌}
use kortex_memory.Service.State.{State, Environment}
use kortex_memory.Service.Methods.{flush, resource_of}

pub some-injective : {A : Type 0} {x y : A} → some x ≡ some y → x ≡ y
some-injective h = cc h

pub nothing : {A : Type 0} {x : A} → ok none ≡ ok (some x) → ⊥
nothing h = cc h

-- a field that was given has the new value, and another one the old
abbrev pub IsGiven {ℓ} : {A : Type ℓ} → Option A → A → A → Type ℓ
IsGiven none old new = new ≡ old
IsGiven (some x) old new = new ≡ x

-- a given field empties what depends on it
abbrev pub IsDropped {ℓ κ} : {A : Type ℓ} {B : Type κ} → Option A → Option B → Option B → Type κ
IsDropped none old new = new ≡ old
IsDropped (some x) old new = new ≡ none

-- the columns that an update may write, and that the others stay as they were
pub record IsChanged (c : Changes) (old m' : Memory) : Type 0 where
  pub title : IsGiven c.title old.title m'.title
  pub body : IsGiven c.body old.body m'.body
  pub embedding : IsDropped c.body old.embedding m'.embedding
  pub embedding_model : IsDropped c.body old.embedding_model m'.embedding_model
  pub kind : IsGiven c.kind old.kind m'.kind
  pub sensitivity : IsGiven c.sensitivity old.sensitivity m'.sensitivity
  pub importance : IsGiven c.importance old.importance m'.importance
  pub metadata : IsGiven c.metadata old.metadata m'.metadata
  pub rest :
      record m' {
        title = old.title;
        body = old.body;
        embedding = old.embedding;
        embedding_model = old.embedding_model;
        kind = old.kind;
        sensitivity = old.sensitivity;
        importance = old.importance;
        metadata = old.metadata;
      }
      ≡ old

given : {A : Type 0} (o : Option A) (old : A) → IsGiven o old (or_old o old)
given none old = refl
given (some x) old = refl

dropped : {A B : Type 0} (o : Option A) (old : Option B) → IsDropped o old (cleared o old)
dropped none old = refl
dropped (some x) old = refl

pub update_fields-IsChanged : (c : Changes) (m : Memory) → IsChanged c m (update_fields c m)
unfolding update_fields
update_fields-IsChanged c m = record {
  title = given c.title m.title;
  body = given c.body m.body;
  embedding = dropped c.body m.embedding;
  embedding_model = dropped c.body m.embedding_model;
  kind = given c.kind m.kind;
  sensitivity = given c.sensitivity m.sensitivity;
  importance = given c.importance m.importance;
  metadata = given c.metadata m.metadata;
  rest = refl;
}

-- the state with one row of the table written
abbrev pub with_row : Memory → State → State
with_row m s = record s { db = record s.db { memories = replace_row m s.memories } }

-- what an update that returned a memory was allowed to do, and did
pub record IsPermitted (p : Principal) (i : ℕ) (c : Changes) (s : State) (m' : Memory) (s' : State)
    : Type 0 where
  pub old : Memory
  pub was_there : get_by_public_id p i s.memories ≡ some old
  pub changed : IsChanged c old m'
  pub stored : s' ≡ with_row m' s
  pub before : can_write p (resource_of old old.sensitivity) ≡ true
  pub after : can_write p (resource_of m' m'.sensitivity) ≡ true

module _ (env : Environment) (p : Principal) where
  abbrev store_change : Changes → Memory → Exec State (Option Memory)
  store_change c m = flush (update_fields c m) >> pure (some (update_fields c m))
