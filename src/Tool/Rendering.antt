-- ===== src/Tool/Rendering.antt =====
-- The texts of the replies of packages/kortex-core/src/kortex_core/memory_tool.py. `repr` and the words
-- of a reason are parameters. A size is that of the UTF-8 text; Python prints it with one digit behind
-- the point, rounding half to even, which is exact since the divisor is a power of two.
use kortex_memory.Prelude.{
  ℕ, suc, ◌+◌, ◌*◌, ◌/◌, ◌%◌, max, Bool, true, false, ◌&&◌, ◌||◌, Option, none, some, List, [], ◌∷◌,
  ◌++◌, Text, codes, ltb, ◌==◌, map, if◌then◌else◌,
}
use kortex_memory.Policies.{Reason}
use kortex_memory.Memories.{Memory}
use kortex_memory.Tool.{ℤ, pos, negsuc, Value}
use kortex_memory.Tool.Texts.{join_with}
use kortex_memory.Tool.Lines.{decimal, numbered}
use kortex_memory.Tool.Replies.{
  Reply, path_required, directory_not_file, file_text_required, old_str_required, line_required,
  insert_text_required, root_not_deleted, root_not_renamed, unknown_command, not_permitted,
  outside_root, missing, not_editable, absent, held_for_editing, too_long, created,
  created_redacted, edited, deleted, taken, edited_to, held_for_reading, created_held, content,
  listing, no_occurrence, many_occurrences, line_out_of_range, renamed, path_of,
}

-- `len(text.encode("utf-8"))`
abbrev pub utf8_width : ℕ → ℕ
utf8_width c = if ltb c 128 then 1 else if ltb c 2048 then 2 else if ltb c 65536 then 3 else 4

unfoldable pub utf8_length : Text → ℕ
utf8_length [] = 0
utf8_length (c ∷ t) = utf8_width c + utf8_length t

-- the tenths of `size / unit`
abbrev rounded : ℕ → ℕ → ℕ → ℕ
rounded q r unit = if ltb unit (2 * r) || (2 * r == unit && q % 2 == 1) then q + 1 else q

abbrev pub tenths : ℕ → ℕ → ℕ
tenths size unit = rounded (size * 10 / unit) (size * 10 % unit) unit

abbrev pub one_decimal : ℕ → Text
one_decimal n = decimal (n / 10) ++ 46 ∷ decimal (n % 10)

abbrev size_text : ℕ → Text
size_text size =
    if ltb size 1024
    then decimal (max size 1)
    else if ltb size 1_048_576
    then one_decimal (tenths size 1024) ++ codes "K"
    else one_decimal (tenths size 1_048_576) ++ codes "M"

-- `_human_size`
unfoldable pub human_size : Text → Text
unfolding utf8_length decimal
human_size t = size_text (utf8_length t)

-- `sorted(children, key=self._path_of)`: texts compare by their code points
unfoldable pub text_le : Text → Text → Bool
text_le [] t = true
text_le (c ∷ s) [] = false
text_le (c ∷ s) (d ∷ t) = ltb c d || (c == d && text_le s t)

unfoldable pub insert_by_path : Memory → List Memory → List Memory
unfolding text_le
insert_by_path m [] = m ∷ []
insert_by_path m (n ∷ ns) =
    let later = n ∷ insert_by_path m ns in
    if text_le (path_of m) (path_of n) then m ∷ n ∷ ns else later

unfoldable pub sort_by_path : List Memory → List Memory
unfolding insert_by_path
sort_by_path [] = []
sort_by_path (m ∷ ms) = insert_by_path m (sort_by_path ms)

abbrev pub concat : List Text → Text
concat [] = []
concat (t ∷ ts) = t ++ concat ts

abbrev pub listing_row : Text → Text → Text
listing_row body path = human_size body ++ 9 ∷ path

-- `_listing`, from the memories under the path on
unfoldable pub listing_text : Text → List Memory → Text
unfolding human_size sort_by_path join_with
listing_text path ms =
    codes "Here're the files and directories up to 2 levels deep in "
    ++ path
    ++ codes ", excluding hidden items and node_modules:\n"
    ++ join_with 10 (
        listing_row (concat (map (λ (m : Memory). m.body) ms)) path
        ∷ map (λ (m : Memory). listing_row m.body (path_of m)) (sort_by_path ms))

abbrev pub integer : ℤ → Text
integer (pos n) = decimal n
integer (negsuc n) = 45 ∷ decimal (suc n)

-- `", ".join(lines)`
abbrev pub with_commas : List Text → Text
with_commas [] = []
with_commas (t ∷ []) = t
with_commas (t ∷ u ∷ us) = t ++ 44 ∷ 32 ∷ with_commas (u ∷ us)

abbrev or_words : Text → Text → Text
or_words [] words = words
or_words (c ∷ t) words = c ∷ t

module _ (repr : Value → Text) (reason_text : Reason → Text) where
  abbrev reason_or : Option Reason → Text → Text
  reason_or none words = words
  reason_or (some r) words = or_words (reason_text r) words

  abbrev quoted : Text → Text
  quoted t = 96 ∷ t ++ 96 ∷ []

  -- `ToolResult.content`
  unfoldable pub render : Reply → Text
  unfolding listing_text numbered decimal
  render (unknown_command name) = codes "Error: unknown command " ++ repr name
  render path_required = codes "Error: a path is required"
  render (not_permitted path) = codes "Error: The path " ++ path ++ codes " is not permitted"
  render (outside_root path) =
      codes "Error: The path "
      ++ path
      ++ codes " is outside /memories. All memory paths must start with /memories/."
  render (missing path) =
      codes "The path " ++ path ++ codes " does not exist. Please provide a valid path."
  render (not_editable path) =
      codes "Error: The path " ++ path ++ codes " does not exist. Please provide a valid path."
  render (absent path) = codes "Error: The path " ++ path ++ codes " does not exist"
  render (held_for_reading path reason) =
      codes "The file "
      ++ path
      ++ codes " exists but is held for human review ("
      ++ reason_or reason (codes "awaiting review")
      ++ codes ") and cannot be read until it is approved."
  render (held_for_editing path) =
      codes "Error: The file "
      ++ path
      ++ codes " is held for human review and cannot be edited until it is approved."
  render (too_long path) =
      codes "File " ++ path ++ codes " exceeds maximum line limit of 999,999 lines."
  render (content path body first) =
      codes "Here's the content of " ++ path ++ codes " with line numbers:\n" ++ numbered first body
  render (listing path ms) = listing_text path ms
  render directory_not_file = codes "Error: /memories is a directory, not a file"
  render file_text_required = codes "Error: file_text is required for create"
  render (created path) = codes "File created successfully at: " ++ path
  render (created_held path reason) =
      codes "File created successfully at: "
      ++ path
      ++ codes " — but it is held for human review ("
      ++ or_words (reason_text reason) (codes "policy")
      ++ codes ") and will not be readable until approved."
  render (created_redacted path) =
      codes "File created successfully at: "
      ++ path
      ++ codes " — personal data in it was redacted before storage."
  render old_str_required = codes "Error: old_str is required for str_replace"
  render (no_occurrence path old) =
      codes "No replacement was performed, old_str "
      ++ quoted old
      ++ codes " did not appear verbatim in "
      ++ path
      ++ codes "."
  render (many_occurrences old ns) =
      codes "No replacement was performed. Multiple occurrences of old_str "
      ++ quoted old
      ++ codes " in lines: "
      ++ with_commas (map decimal ns)
      ++ codes ". Please ensure it is unique"
  render (edited_to body) = codes "The memory file has been edited.\n" ++ numbered 1 body
  render line_required = codes "Error: insert_line must be an integer"
  render (line_out_of_range n total) =
      codes "Error: Invalid `insert_line` parameter: "
      ++ integer n
      ++ codes ". It should be within the range of lines of the file: [0, "
      ++ decimal total
      ++ codes "]"
  render insert_text_required = codes "Error: insert_text is required for insert"
  render (edited path) = codes "The file " ++ path ++ codes " has been edited."
  render root_not_deleted = codes "Error: /memories cannot be deleted"
  render (deleted path) = codes "Successfully deleted " ++ path
  render root_not_renamed = codes "Error: /memories cannot be renamed"
  render (taken path) = codes "Error: The destination " ++ path ++ codes " already exists"
  render (renamed old new) = codes "Successfully renamed " ++ old ++ codes " to " ++ new
