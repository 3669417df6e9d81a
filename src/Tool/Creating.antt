-- ===== src/Tool/Creating.antt =====
-- `_create` and `_store` of packages/kortex-core/src/kortex_core/memory_tool.py. The methods of the service may raise,
-- and then so does the command.
use kortex_memory.Prelude.{
  true, false, Option, none, some, [], ◌∷◌, Text, codes, text_eq, if◌then◌else◌,
}
use kortex_memory.Types.{MemoryKind, MemorySource, Json}
use kortex_memory.Access.{Principal}
use kortex_memory.Memories.{Memory}
use kortex_memory.Service.Exec.{Exec, pure, gets, ◌>>=◌, ◌>>◌}
use kortex_memory.Service.State.{State, Environment}
use kortex_memory.Service.Governance.{CreateMemoryInput, MemoryWrite}
use kortex_memory.Service.Write.{write}
use kortex_memory.Service.Methods.{update}
use kortex_memory.Tool.{Command, arg, memory_root, path_key}
use kortex_memory.Tool.Paths.{normalise_path}
use kortex_memory.Tool.Replies.{
  Reply, directory_not_file, file_text_required, created, created_redacted, created_held,
}
use kortex_memory.Tool.Files.{Backend, unchanged, text_of, and_then, file}

module _ (env : Environment) (p : Principal) (b : Backend) where
  -- what `_store` writes
  abbrev pub new_file : Text → Text → CreateMemoryInput
  new_file path body = record {
    scope_type = b.scope_type;
    scope_id = b.scope_id;
    body = body;
    title = path;
    kind = MemoryKind.fact;
    sensitivity = b.sensitivity;
    source_type = MemorySource.tool_output;
    source_ref =
        some (
          (codes "tool", Json.text (codes "memory_20250818"))
          ∷ (codes "path", Json.text path)
          ∷ []);
    importance = 500_000;
    pinned = false;
    metadata = some ((path_key, Json.text path) ∷ (codes "memory_tool", Json.flag true) ∷ []);
    expires_at = none;
    confidence = none;
  }

  abbrev pub stored_as : Text → MemoryWrite → Reply
  stored_as path r =
      if r.pending_review
      then created_held path r.review_reason
      else if r.redacted
      then created_redacted path
      else created path

  -- `_store`
  unfoldable pub store_file : Text → Text → Exec State Reply
  unfolding write ◌>>=◌
  store_file path body = do
    r ← write env p (new_file path body) false false
    pure (stored_as path r)

  abbrev pub overwrite_or_store : Text → Text → Option Memory → Exec State Reply
  overwrite_or_store path body none = store_file path body
  overwrite_or_store path body (some m) = do
    update env p m.public_id (record unchanged { body = some body; title = some path })
    pure (created path)

  abbrev pub create_at : Text → Option Text → Exec State Reply
  create_at path none = pure file_text_required
  create_at path (some body) = do found ← gets (file p b path); overwrite_or_store path body found

  unfoldable pub create : Command → Exec State Reply
  unfolding normalise_path file store_file update arg text_eq ◌>>=◌
  create c = and_then (normalise_path (arg (codes "path") c)) (λ path.
      if text_eq path memory_root
      then pure directory_not_file
      else create_at path (text_of (arg (codes "file_text") c)))
