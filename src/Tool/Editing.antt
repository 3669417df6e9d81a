-- ===== src/Tool/Editing.antt =====
-- `_str_replace` and `_insert` of packages/kortex-core/src/kortex_core/memory_tool.py.
pub mod Laws
use kortex_memory.Prelude.{
  ℕ, zero, suc, ◌+◌, Bool, true, false, not, ◌&&◌, ◌||◌, Option, none, some, List, [], ◌∷◌, ◌++◌,
  Text, codes, text_eq, ltb, length, keep, if◌then◌else◌,
}
use kortex_memory.Types.{
  ScopeType, MemoryKind, MemorySource, Sensitivity, ReviewStatus, Json, Metadata, status_eq,
}
use kortex_memory.Access.{Principal}
use kortex_memory.Memories.{Memory, meta_get, meta_set}
use kortex_memory.Memories.Queries.{find_by_metadata, list_by_metadata_key}
use kortex_memory.Memories.Writes.{Changes}
use kortex_memory.Service.Exec.{Exec, pure, gets, ◌>>=◌, ◌>>◌}
use kortex_memory.Service.State.{State, Environment}
use kortex_memory.Service.Governance.{CreateMemoryInput, MemoryWrite}
use kortex_memory.Service.Write.{write}
use kortex_memory.Service.Methods.{update, delete_memory}
use kortex_memory.Tool.{
  ℤ, pos, negsuc, Command, Value, Item, item, seq, null, object, flag, number, real, text, arg,
  memory_root, path_key,
}
use kortex_memory.Tool.Texts.{starts_with, count_from, replace_first, rstrip_of}
use kortex_memory.Tool.Paths.{slash, normalise_path}
use kortex_memory.Tool.Lines.{lines_of, shown, insert_line, is_too_long, lines_with}
use kortex_memory.Tool.Replies.{
  Reply, Checked, passed, rejected, unknown_command, directory_not_file, file_text_required,
  old_str_required, line_required, insert_text_required, root_not_deleted, root_not_renamed,
  not_editable, absent, held_for_editing, too_long, created, created_redacted, edited, deleted,
  taken, edited_to, held_for_reading, created_held, content, listing, no_occurrence,
  many_occurrences, line_out_of_range, renamed, path_of,
}
use kortex_memory.Tool.Files.{
  Backend, unchanged, text_of, number_of, or_blank, under, is_under, is_pending, and_then, required,
  file, children, editable, require_file,
}

module _ (env : Environment) (p : Principal) (b : Backend) where
  -- an `old_str` that is a text and not empty
  abbrev pub old_of : Option Text → Checked Text
  old_of none = rejected old_str_required
  old_of (some []) = rejected old_str_required
  old_of (some (x ∷ xs)) = passed (x ∷ xs)

  -- `_service.update(memory.public_id, body=body)`
  abbrev pub set_body : Memory → Text → Reply → Exec State Reply
  set_body m body r = do update env p m.public_id (record unchanged { body = some body }); pure r

  abbrev pub replace_counted : Text → Text → Text → Memory → ℕ → Exec State Reply
  replace_counted path old new m zero = pure (no_occurrence path old)
  replace_counted path old new m (suc zero) =
      set_body m (replace_first old new m.body) (edited_to (replace_first old new m.body))
  replace_counted path old new m (suc (suc n)) =
      pure (many_occurrences old (lines_with old 1 (lines_of m.body)))

  unfoldable pub str_replace : Command → Exec State Reply
  unfolding normalise_path file update arg count_from replace_first lines_with ◌>>=◌
  str_replace c = and_then (normalise_path (arg (codes "path") c)) (λ path.
      require_file p b path (not_editable path) (λ m.
        and_then (old_of (text_of (arg (codes "old_str") c))) (λ old.
          replace_counted path old (or_blank (text_of (arg (codes "new_str") c))) m
            (count_from 0 old m.body))))

  -- a line of the file: 0 is before the first
  abbrev pub within : ℕ → ℤ → Checked ℕ
  within total (pos n) =
      if ltb total n then rejected (line_out_of_range (pos n) total) else passed n
  within total (negsuc n) = rejected (line_out_of_range (negsuc n) total)

  unfoldable pub insert : Command → Exec State Reply
  unfolding normalise_path file update arg insert_line ◌>>=◌
  insert c = and_then (normalise_path (arg (codes "path") c)) (λ path.
      require_file p b path (absent path) (λ m.
        and_then (required (number_of (arg (codes "insert_line") c)) line_required) (λ line_no.
          and_then (within (length (lines_of m.body)) line_no) (λ n.
            and_then (required (text_of (arg (codes "insert_text") c)) insert_text_required)
              (λ body. set_body m (insert_line n body m.body) (edited path))))))
