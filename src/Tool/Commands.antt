-- ===== src/Tool/Commands.antt =====
-- `_delete`, `_rename` and `execute` of packages/kortex-core/src/kortex_core/memory_tool.py.
use kortex_memory.Prelude.{
  Bool, false, Option, none, some, List, [], ◌∷◌, Text, codes, text_eq, if◌then◌else◌,
}
use kortex_memory.Types.{Json}
use kortex_memory.Access.{Principal}
use kortex_memory.Memories.{Memory, meta_set}
use kortex_memory.Memories.Writes.{Changes}
use kortex_memory.Service.Exec.{Exec, pure, gets, ◌>>=◌, ◌>>◌}
use kortex_memory.Service.State.{State, Environment}
use kortex_memory.Service.Methods.{update, delete_memory}
use kortex_memory.Tool.{
  ℤ, Command, Value, item, seq, null, object, flag, number, real, text, arg, memory_root, path_key,
}
use kortex_memory.Tool.Paths.{normalise_path}
use kortex_memory.Tool.Replies.{
  Reply, unknown_command, root_not_deleted, root_not_renamed, absent, deleted, taken, renamed,
}
use kortex_memory.Tool.Files.{Backend, unchanged, and_then, file, children}
use kortex_memory.Tool.Viewing.{view}
use kortex_memory.Tool.Creating.{create}
use kortex_memory.Tool.Editing.{str_replace, insert}

-- the command that a name stands for
abbrev pub is_named : Value → Text → Bool
is_named (item (text t)) name = text_eq t name
is_named (item null) name = false
is_named (item object) name = false
is_named (item (flag x)) name = false
is_named (item (number n)) name = false
is_named (item (real n)) name = false
is_named (seq vs) name = false

module _ (env : Environment) (p : Principal) (b : Backend) where
  -- the loop over what lies beneath a directory
  unfoldable pub delete_all : List Memory → Exec State (Unit {0})
  unfolding delete_memory ◌>>=◌
  delete_all [] = pure tt
  delete_all (m ∷ ms) = do delete_memory env p m.public_id; delete_all ms

  abbrev pub delete_directory : Text → List Memory → Exec State Reply
  delete_directory path [] = pure (absent path)
  delete_directory path (m ∷ ms) = do delete_all (m ∷ ms); pure (deleted path)

  abbrev pub delete_at : Text → Option Memory → Exec State Reply
  delete_at path (some m) = do delete_memory env p m.public_id; pure (deleted path)
  delete_at path none = do ms ← gets (children p b path); delete_directory path ms

  unfoldable pub delete : Command → Exec State Reply
  unfolding normalise_path file children delete_all delete_memory arg text_eq ◌>>=◌
  delete c = and_then (normalise_path (arg (codes "path") c)) (λ path.
      if text_eq path memory_root
      then pure root_not_deleted
      else gets (file p b path) >>= delete_at path)

  -- the changes of a rename
  abbrev pub moved : Text → Memory → Changes
  moved new_path m = record unchanged {
    title = some new_path;
    metadata = some (meta_set path_key (Json.text new_path) m.metadata);
  }

  abbrev pub rename_to : Text → Text → Memory → Option Memory → Exec State Reply
  rename_to old_path new_path m (some other) = pure (taken new_path)
  rename_to old_path new_path m none = do
    update env p m.public_id (moved new_path m)
    pure (renamed old_path new_path)

  abbrev pub rename_found : Text → Text → Option Memory → Exec State Reply
  rename_found old_path new_path none = pure (absent old_path)
  rename_found old_path new_path (some m) =
      gets (file p b new_path) >>= rename_to old_path new_path m

  unfoldable pub rename : Command → Exec State Reply
  unfolding normalise_path file update meta_set arg text_eq ◌>>=◌
  rename c = and_then (normalise_path (arg (codes "old_path") c)) (λ old_path.
      and_then (normalise_path (arg (codes "new_path") c)) (λ new_path.
        if text_eq old_path memory_root
        then pure root_not_renamed
        else gets (file p b old_path) >>= rename_found old_path new_path))

module _ (int_of_text : Text → Option ℤ) (env : Environment) (p : Principal) (b : Backend) where
  unfoldable pub execute : Command → Exec State Reply
  unfolding view create str_replace insert delete rename arg text_eq
  execute c =
      let name = arg (codes "command") c in
      if is_named name (codes "view")
      then view int_of_text p b c
      else if is_named name (codes "create")
      then create env p b c
      else if is_named name (codes "str_replace")
      then str_replace env p b c
      else if is_named name (codes "insert")
      then insert env p b c
      else if is_named name (codes "delete")
      then delete env p b c
      else if is_named name (codes "rename")
      then rename env p b c
      else pure (unknown_command name)
