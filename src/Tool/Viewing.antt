-- ===== src/Tool/Viewing.antt =====
-- `_view` and `_listing` of packages/kortex-core/src/kortex_core/memory_tool.py.
pub mod Laws
use kortex_memory.Prelude.{
  ℕ, zero, suc, ◌+◌, Bool, true, false, not, ◌&&◌, ◌||◌, Option, none, some, List, [], ◌∷◌, ◌++◌,
  Text, codes, text_eq, ltb, length, keep, if◌then◌else◌,
}
use kortex_memory.Types.{
  ScopeType, MemoryKind, MemorySource, Sensitivity, ReviewStatus, Json, Metadata, status_eq,
}
use kortex_memory.Access.{Principal}
use kortex_memory.Memories.{Memory, meta_get, meta_set}
use kortex_memory.Memories.Queries.{find_by_metadata, list_by_metadata_key}
use kortex_memory.Memories.Writes.{Changes}
use kortex_memory.Service.Exec.{Exec, pure, gets, ◌>>=◌, ◌>>◌}
use kortex_memory.Service.State.{State, Environment}
use kortex_memory.Service.Governance.{CreateMemoryInput, MemoryWrite}
use kortex_memory.Service.Write.{write}
use kortex_memory.Service.Methods.{update, delete_memory}
use kortex_memory.Tool.{
  ℤ, pos, negsuc, Command, Value, Item, item, seq, null, object, flag, number, real, text, arg,
  memory_root, path_key,
}
use kortex_memory.Tool.Texts.{starts_with, count_from, replace_first, rstrip_of}
use kortex_memory.Tool.Paths.{slash, normalise_path}
use kortex_memory.Tool.Lines.{lines_of, shown, insert_line, is_too_long, lines_with}
use kortex_memory.Tool.Replies.{
  Reply, Checked, passed, rejected, unknown_command, directory_not_file, file_text_required,
  old_str_required, line_required, insert_text_required, root_not_deleted, root_not_renamed,
  missing, absent, held_for_editing, too_long, created, created_redacted, edited, deleted, taken,
  edited_to, held_for_reading, created_held, content, listing, no_occurrence, many_occurrences,
  line_out_of_range, renamed, path_of,
}
use kortex_memory.Tool.Files.{
  Backend, unchanged, text_of, number_of, or_blank, under, is_under, is_pending, and_then, required,
  file, children, editable, require_file,
}

module _ (int_of_text : Text → Option ℤ) (p : Principal) (b : Backend) where
  -- `_listing`, and the answer when nothing is there
  abbrev pub listed_or_missing : Text → List Memory → Reply
  listed_or_missing path [] = if text_eq path memory_root then listing path [] else missing path
  listed_or_missing path (m ∷ ms) = listing path (m ∷ ms)

  abbrev pub window : Text → Text × ℕ → Reply
  window path r = content path r.0 r.1

  abbrev pub view_found : Text → Value → Memory → Reply
  view_found path range m =
      if is_pending m
      then held_for_reading path m.review_reason
      else if is_too_long m.body
      then too_long path
      else window path (shown int_of_text m.body range)

  abbrev pub view_at : Text → Value → Option Memory → Exec State Reply
  view_at path range (some m) = pure (view_found path range m)
  view_at path range none = gets (λ s. listed_or_missing path (children p b path s))

  unfoldable pub view : Command → Exec State Reply
  unfolding normalise_path file children shown arg text_eq count_from ◌>>=◌
  view c =
      and_then (normalise_path (arg (codes "path") c))
        (λ path. gets (file p b path) >>= view_at path (arg (codes "view_range") c))
