-- ===== src/Tool/Files.antt =====
-- The lookups of `MemoryToolBackend` of packages/kortex-core/src/kortex_core/memory_tool.py, and the checks of arguments that its
-- commands share. A check that fails is a `_RejectedError`, whose message `execute` answers with.
use kortex_memory.Prelude.{
  ℕ, Bool, Option, none, some, List, [], ◌∷◌, ◌++◌, Text, keep, if◌then◌else◌,
}
use kortex_memory.Types.{ScopeType, Sensitivity, ReviewStatus, status_eq}
use kortex_memory.Access.{Principal}
use kortex_memory.Memories.{Memory, meta_get}
use kortex_memory.Memories.Queries.{find_by_metadata, list_by_metadata_key}
use kortex_memory.Memories.Writes.{Changes}
use kortex_memory.Service.Exec.{Exec, pure, gets, ◌>>=◌}
use kortex_memory.Service.State.{State}
use kortex_memory.Tool.{ℤ, Value, item, seq, null, object, flag, number, real, text, path_key}
use kortex_memory.Tool.Texts.{starts_with, rstrip_of}
use kortex_memory.Tool.Paths.{slash}
use kortex_memory.Tool.Replies.{Reply, Checked, passed, rejected, held_for_editing, path_of}

-- the arguments of `__init__` but the session and the principal
pub record Backend : Type 0 where
  pub scope_type : ScopeType
  pub scope_id : ℕ
  pub sensitivity : Sensitivity

abbrev pub unchanged : Changes
unchanged = record {
  title = none;
  body = none;
  kind = none;
  sensitivity = none;
  importance = none;
  metadata = none;
}

-- `isinstance(value, str)`
abbrev pub text_of : Value → Option Text
text_of (item (text t)) = some t
text_of (item null) = none
text_of (item object) = none
text_of (item (flag b)) = none
text_of (item (number n)) = none
text_of (item (real n)) = none
text_of (seq vs) = none

-- `isinstance(value, int) and not isinstance(value, bool)`
abbrev pub number_of : Value → Option ℤ
number_of (item (number n)) = some n
number_of (item (text t)) = none
number_of (item null) = none
number_of (item object) = none
number_of (item (flag b)) = none
number_of (item (real n)) = none
number_of (seq vs) = none

-- `new if isinstance(new, str) else ""`
abbrev pub or_blank : Option Text → Text
or_blank none = []
or_blank (some t) = t

-- the prefix of what lies under a directory
abbrev pub under : Text → Text
under path = rstrip_of slash path ++ slash ∷ []

abbrev pub is_under : Text → Memory → Bool
is_under path m = starts_with (under path) (path_of m)

abbrev pub is_pending : Memory → Bool
is_pending m = status_eq m.review_status ReviewStatus.pending

-- a check before a command goes on
abbrev pub and_then : {A : Type 0} → Checked A → (A → Exec State Reply) → Exec State Reply
and_then (passed a) k = k a
and_then (rejected r) k = pure r

-- the value, or a rejection when it has another type
abbrev pub required : {A : Type 0} → Option A → Reply → Checked A
required none r = rejected r
required (some a) r = passed a

module _ (p : Principal) (b : Backend) where
  -- `_file`
  unfoldable pub file : Text → State → Option Memory
  unfolding find_by_metadata
  file path s = find_by_metadata p b.scope_type b.scope_id path_key path s.memories

  -- `_tree`, what of it lies under a directory
  unfoldable pub children : Text → State → List Memory
  unfolding list_by_metadata_key starts_with rstrip_of meta_get
  children path s =
      keep (is_under path) (list_by_metadata_key p b.scope_type b.scope_id path_key 1000 s.memories)

  -- `_require_file`
  abbrev pub editable : Text → Reply → Option Memory → Checked Memory
  editable path r none = rejected r
  editable path r (some m) = if is_pending m then rejected (held_for_editing path) else passed m

  abbrev pub require_file : Text → Reply → (Memory → Exec State Reply) → Exec State Reply
  require_file path r k = gets (file path) >>= λ found. and_then (editable path r found) k
