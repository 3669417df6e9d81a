-- ===== src/Tool/Replies.antt =====
-- The `ToolResult`s of packages/kortex-core/src/kortex_core/memory_tool.py, one constructor for each
-- message: `content` is the text, and `is_error` the flag. A rejected command raises, and `execute`
-- answers with the message: here it is a reply at once. `repr` and the words of a reason for a review
-- are parameters.
use kortex_memory.Prelude.{ℕ, Bool, true, false, Option, none, some, List, [], Text, codes}
use kortex_memory.Types.{Json, null, flag, text, other}
use kortex_memory.Policies.{Reason}
use kortex_memory.Memories.{Memory, meta_get}
use kortex_memory.Tool.{ℤ, Value, path_key}

pub data Reply : Type 0 where
  unknown_command : Value → Reply
  path_required directory_not_file file_text_required old_str_required line_required
        insert_text_required root_not_deleted root_not_renamed :
      Reply
  not_permitted outside_root missing not_editable absent held_for_editing too_long created
        created_redacted edited deleted taken edited_to :
      Text → Reply
  held_for_reading : Text → Option Reason → Reply
  created_held : Text → Reason → Reply
  content : Text → Text → ℕ → Reply
  listing : Text → List Memory → Reply
  no_occurrence : Text → Text → Reply
  many_occurrences : Text → List ℕ → Reply
  line_out_of_range : ℤ → ℕ → Reply
  renamed : Text → Text → Reply

-- what a check answers: the value, or the message of the `_RejectedError`
pub data Checked {ℓ} (A : Type ℓ) : Type ℓ where
  passed : A → Checked A
  rejected : Reply → Checked A

abbrev pub is_error : Reply → Bool
is_error (created p) = false
is_error (created_redacted p) = false
is_error (created_held p r) = false
is_error (edited p) = false
is_error (edited_to t) = false
is_error (deleted p) = false
is_error (renamed p q) = false
is_error (held_for_reading p r) = false
is_error (content p t n) = false
is_error (listing p ms) = false
is_error r = true

-- `str` of a value of the metadata
abbrev pub shown_json : Json → Text
shown_json null = codes "None"
shown_json (flag true) = codes "True"
shown_json (flag false) = codes "False"
shown_json (text t) = t
shown_json (other sql py) = py

abbrev or_nothing : Option Json → Text
or_nothing none = []
or_nothing (some v) = shown_json v

-- `_path_of`
abbrev pub path_of : Memory → Text
path_of m = or_nothing (meta_get path_key m.metadata)
