-- ===== src/Tool/Isolation.antt =====
-- The commands of memory_tool.py leave the other orgs alone.
use kortex_memory.Prelude.{
  ℕ, zero, suc, ◌≡◌, false, Option, none, some, List, [], ◌∷◌, Text, codes, text_eq, length,
}
use kortex_memory.Access.{Principal}
use kortex_memory.Memories.{Memory}
use kortex_memory.Memories.Writes.{Changes}
use kortex_memory.Service.Exec.{Exec, pure, gets, ◌>>=◌, ◌>>◌}
use kortex_memory.Service.State.{State, Environment}
use kortex_memory.Service.Write.{write}
use kortex_memory.Service.Methods.{update, delete_memory}
use kortex_memory.Service.Tenancy.Steps.{
  IsSafe, IsTidy, IsIsolated, gets-IsSafe, if-IsSafe, pure-IsSafe, bind-IsSafe,
}
use kortex_memory.Service.Tenancy.Isolation.{update-IsSafe, delete_memory-IsSafe}
use kortex_memory.Service.Tenancy.Writing.{write-IsSafe}
use kortex_memory.Tool.{ℤ, Command, Value, arg, memory_root}
use kortex_memory.Tool.Paths.{normalise_path}
use kortex_memory.Tool.Texts.{count_from}
use kortex_memory.Tool.Lines.{lines_of, insert_line}
use kortex_memory.Tool.Replies.{
  Reply, Checked, passed, rejected, created, deleted, renamed, directory_not_file, root_not_deleted,
  root_not_renamed, absent, not_editable, line_required, insert_text_required, edited,
  unknown_command,
}
use kortex_memory.Tool.Files.{
  Backend, text_of, number_of, or_blank, file, children, editable, and_then, require_file, required,
  unchanged,
}
use kortex_memory.Tool.Viewing.{view, view_at}
use kortex_memory.Tool.Creating.{
  new_file, stored_as, store_file, overwrite_or_store, create_at, create,
}
use kortex_memory.Tool.Editing.{old_of, replace_counted, str_replace, within, insert}
use kortex_memory.Tool.Commands.{
  delete_all, delete_directory, delete_at, delete, moved, rename_to, rename_found, rename, is_named,
  execute,
}

module _ {A : Type 0} (org : ℕ) where
  and_then-IsSafe :
      (r : Checked A) (k : A → Exec State Reply) (s : State)
      → ((a : A) → IsSafe org (k a) s)
      → IsSafe org (and_then r k) s
  and_then-IsSafe (passed a) k s h = h a
  and_then-IsSafe (rejected r) k s h = pure-IsSafe org r s

module _ (int_of_text : Text → Option ℤ) (env : Environment) (p : Principal) (b : Backend)
    (tenant : p.is_superuser ≡ false) where
  updated-IsSafe :
      (i : ℕ) (c : Changes) (r : Reply) (s : State) → IsSafe p.org_id (update env p i c >> pure r) s
  updated-IsSafe i c r s =
      bind-IsSafe p.org_id (update env p i c) (λ _. pure r) s (update-IsSafe env p tenant i c s)
        (λ _. pure-IsSafe p.org_id r _)

  view-IsSafe : (c : Command) (s : State) → IsSafe p.org_id (view int_of_text p b c) s
  unfolding view
  view-IsSafe c s = and_then-IsSafe p.org_id (normalise_path (arg (codes "path") c)) _ s (λ path.
      gets-IsSafe p.org_id (file p b path)
        (view_at int_of_text p b path (arg (codes "view_range") c)) s
        (view_at-IsSafe path (file p b path s)))
    where
      view_at-IsSafe :
          (path : Text) (o : Option Memory)
          → IsSafe p.org_id (view_at int_of_text p b path (arg (codes "view_range") c) o) s
      view_at-IsSafe path (some m) = pure-IsSafe p.org_id _ s
      view_at-IsSafe path none = record { kept = λ t. (pure-IsSafe p.org_id tt s).kept t }

  overwrite_or_store-IsSafe :
      (path body : Text) (o : Option Memory) (s : State)
      → IsSafe p.org_id (overwrite_or_store env p b path body o) s
  unfolding store_file
  overwrite_or_store-IsSafe path body none s =
      bind-IsSafe p.org_id (write env p (new_file env p b path body) false false)
        (λ r. pure (stored_as env p b path r)) s
        (write-IsSafe env p (new_file env p b path body) false false s tenant)
        (λ r. pure-IsSafe p.org_id (stored_as env p b path r) _)
  overwrite_or_store-IsSafe path body (some m) s =
      updated-IsSafe m.public_id (record unchanged { body = some body; title = some path })
        (created path) s

  create_at-IsSafe :
      (path : Text) (o : Option Text) (s : State) → IsSafe p.org_id (create_at env p b path o) s
  create_at-IsSafe path none s = pure-IsSafe p.org_id _ s
  create_at-IsSafe path (some body) s =
      gets-IsSafe p.org_id (file p b path) (overwrite_or_store env p b path body) s
        (overwrite_or_store-IsSafe path body (file p b path s) s)

  create-IsSafe : (c : Command) (s : State) → IsSafe p.org_id (create env p b c) s
  unfolding create
  create-IsSafe c s = and_then-IsSafe p.org_id (normalise_path (arg (codes "path") c)) _ s (λ path.
      if-IsSafe p.org_id (text_eq path memory_root) (pure directory_not_file)
        (create_at env p b path (text_of (arg (codes "file_text") c))) s
        (pure-IsSafe p.org_id directory_not_file s)
        (create_at-IsSafe path (text_of (arg (codes "file_text") c)) s))

  require_file-IsSafe :
      (path : Text) (r : Reply) (k : Memory → Exec State Reply) (s : State)
      → ((m : Memory) → IsSafe p.org_id (k m) s)
      → IsSafe p.org_id (require_file p b path r k) s
  require_file-IsSafe path r k s h =
      gets-IsSafe p.org_id (file p b path) (λ o. and_then (editable p b path r o) k) s
        (and_then-IsSafe p.org_id (editable p b path r (file p b path s)) k s h)

  replace_counted-IsSafe :
      (path old new : Text) (m : Memory) (n : ℕ) (s : State)
      → IsSafe p.org_id (replace_counted env p b path old new m n) s
  replace_counted-IsSafe path old new m zero s = pure-IsSafe p.org_id _ s
  replace_counted-IsSafe path old new m (suc zero) s = updated-IsSafe m.public_id _ _ s
  replace_counted-IsSafe path old new m (suc (suc n)) s = pure-IsSafe p.org_id _ s

  str_replace-IsSafe : (c : Command) (s : State) → IsSafe p.org_id (str_replace env p b c) s
  unfolding str_replace
  str_replace-IsSafe c s =
      and_then-IsSafe p.org_id (normalise_path (arg (codes "path") c)) _ s (λ path.
        require_file-IsSafe path (not_editable path) _ s (λ m.
          and_then-IsSafe p.org_id (old_of env p b (text_of (arg (codes "old_str") c))) _ s (λ old.
            replace_counted-IsSafe path old (or_blank (text_of (arg (codes "new_str") c))) m
              (count_from 0 old m.body) s)))

  insert-IsSafe : (c : Command) (s : State) → IsSafe p.org_id (insert env p b c) s
  unfolding insert
  insert-IsSafe c s = and_then-IsSafe p.org_id (normalise_path (arg (codes "path") c)) _ s (λ path.
      require_file-IsSafe path (absent path) _ s (λ m.
        and_then-IsSafe p.org_id (required (number_of (arg (codes "insert_line") c)) line_required)
          _ s
          (λ z. and_then-IsSafe p.org_id (within env p b (length (lines_of m.body)) z) _ s (λ n.
            and_then-IsSafe p.org_id
              (required (text_of (arg (codes "insert_text") c)) insert_text_required) _ s
              (λ t.
                updated-IsSafe m.public_id
                  (record unchanged { body = some (insert_line n t m.body) }) (edited path) s)))))

  delete_all-IsSafe : (ms : List Memory) (s : State) → IsSafe p.org_id (delete_all env p b ms) s
  unfolding delete_all
  delete_all-IsSafe [] s = pure-IsSafe p.org_id tt s
  delete_all-IsSafe (m ∷ ms) s =
      bind-IsSafe p.org_id (delete_memory env p m.public_id) (λ _. delete_all env p b ms) s
        (delete_memory-IsSafe env p tenant m.public_id s) (λ _. delete_all-IsSafe ms _)

  delete_directory-IsSafe :
      (path : Text) (ms : List Memory) (s : State)
      → IsSafe p.org_id (delete_directory env p b path ms) s
  delete_directory-IsSafe path [] s = pure-IsSafe p.org_id _ s
  delete_directory-IsSafe path (m ∷ ms) s =
      bind-IsSafe p.org_id (delete_all env p b (m ∷ ms)) (λ _. pure (deleted path)) s
        (delete_all-IsSafe (m ∷ ms) s) (λ _. pure-IsSafe p.org_id (deleted path) _)

  delete_at-IsSafe :
      (path : Text) (o : Option Memory) (s : State) → IsSafe p.org_id (delete_at env p b path o) s
  delete_at-IsSafe path (some m) s =
      bind-IsSafe p.org_id (delete_memory env p m.public_id) (λ _. pure (deleted path)) s
        (delete_memory-IsSafe env p tenant m.public_id s)
        (λ _. pure-IsSafe p.org_id (deleted path) _)
  delete_at-IsSafe path none s =
      gets-IsSafe p.org_id (children p b path) (delete_directory env p b path) s
        (delete_directory-IsSafe path (children p b path s) s)

  delete-IsSafe : (c : Command) (s : State) → IsSafe p.org_id (delete env p b c) s
  unfolding delete
  delete-IsSafe c s = and_then-IsSafe p.org_id (normalise_path (arg (codes "path") c)) _ s (λ path.
      if-IsSafe p.org_id (text_eq path memory_root) (pure root_not_deleted)
        (gets (file p b path) >>= delete_at env p b path) s
        (pure-IsSafe p.org_id root_not_deleted s)
        (gets-IsSafe p.org_id (file p b path) (delete_at env p b path) s
          (delete_at-IsSafe path (file p b path s) s)))

  rename_to-IsSafe :
      (old new : Text) (m : Memory) (o : Option Memory) (s : State)
      → IsSafe p.org_id (rename_to env p b old new m o) s
  rename_to-IsSafe old new m (some other) s = pure-IsSafe p.org_id _ s
  rename_to-IsSafe old new m none s =
      updated-IsSafe m.public_id (moved env p b new m) (renamed old new) s

  rename_found-IsSafe :
      (old new : Text) (o : Option Memory) (s : State)
      → IsSafe p.org_id (rename_found env p b old new o) s
  rename_found-IsSafe old new none s = pure-IsSafe p.org_id _ s
  rename_found-IsSafe old new (some m) s =
      gets-IsSafe p.org_id (file p b new) (rename_to env p b old new m) s
        (rename_to-IsSafe old new m (file p b new s) s)

  rename-IsSafe : (c : Command) (s : State) → IsSafe p.org_id (rename env p b c) s
  unfolding rename
  rename-IsSafe c s =
      and_then-IsSafe p.org_id (normalise_path (arg (codes "old_path") c)) _ s (λ old.
        and_then-IsSafe p.org_id (normalise_path (arg (codes "new_path") c)) _ s (λ new.
          if-IsSafe p.org_id (text_eq old memory_root) (pure root_not_renamed)
            (gets (file p b old) >>= rename_found env p b old new) s
            (pure-IsSafe p.org_id root_not_renamed s)
            (gets-IsSafe p.org_id (file p b old) (rename_found env p b old new) s
              (rename_found-IsSafe old new (file p b old s) s))))

  -- Whatever the command, it leaves the memories and the audit entries of the other orgs as they are, and
  -- every link, project and org, when the caller is no superuser; so nothing that a model sends reaches
  -- another tenant. The ids of the memories grow along the table and stand below the sequence, and they
  -- do so again afterwards.
  pub execute-IsIsolated :
      (c : Command) (s : State)
      → IsTidy s
      → IsTidy (execute int_of_text env p b c s).1
        × IsIsolated p.org_id s (execute int_of_text env p b c s).1
  unfolding execute
  execute-IsIsolated c s tidy =
      let name : Value = arg (codes "command") c in
      (if-IsSafe p.org_id (is_named name (codes "view")) _ _ s (view-IsSafe c s) (
          if-IsSafe p.org_id (is_named name (codes "create")) _ _ s (create-IsSafe c s) (
            if-IsSafe p.org_id (is_named name (codes "str_replace")) _ _ s (str_replace-IsSafe c s)
              (if-IsSafe p.org_id (is_named name (codes "insert")) _ _ s (insert-IsSafe c s) (
                if-IsSafe p.org_id (is_named name (codes "delete")) _ _ s (delete-IsSafe c s) (
                  if-IsSafe p.org_id (is_named name (codes "rename")) _ _ s (rename-IsSafe c s)
                    (pure-IsSafe p.org_id (unknown_command name) s))))))).kept
        tidy
