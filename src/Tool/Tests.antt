-- ===== src/Tool/Tests.antt =====
-- The memory tool of memory_tool.py on small stores, and where its theorems apply.
use Prim.Native.String.{String}
use kortex_memory.Prelude.{
  ◌↔◌, ◌≡◌, refl, Option, none, some, [], ◌∷◌, ◌++◌, Text, codes, take, drop, arith,
}
use kortex_memory.Types.{ScopeType, Sensitivity, ReviewStatus, Json}
use kortex_memory.Dedup.{strip}
use kortex_memory.Access.{scope_eq}
use kortex_memory.Memories.{Memory}
use kortex_memory.Memories.Queries.{get_by_public_id, find_by_content_hash}
use kortex_memory.Service.Exec.{ok, Result}
use kortex_memory.Service.State.{State}
use kortex_memory.Service.Samples.{world, user_of, empty, row}
use kortex_memory.Service.Tenancy.Steps.{IsTidy, IsIsolated}
use kortex_memory.Tool.{ℤ, pos, negsuc, Command, Value, arg, item, seq, number, text, path_key}
use kortex_memory.Tool.Texts.{rstrip_of}
use kortex_memory.Tool.Paths.{normalise_path}
use kortex_memory.Tool.Paths.Passing.{IsCanonical}
use kortex_memory.Tool.Paths.Canonical.{names_of, normalise_path-IsCanonical, normalise_path-names}
use kortex_memory.Tool.Lines.{lines_of, insert_line}
use kortex_memory.Tool.Lines.Inserting.{insert_line-lines}
use kortex_memory.Tool.Replies.{Reply, passed, rejected, content, edited_to, not_permitted}
use kortex_memory.Tool.Files.{text_of, Backend, file}
use kortex_memory.Tool.Viewing.{view}
use kortex_memory.Tool.Viewing.Laws.{IsShown, view-IsShown}
use kortex_memory.Tool.Editing.{str_replace}
use kortex_memory.Tool.Editing.Laws.{IsEdited, str_replace-IsEdited}
use kortex_memory.Tool.Commands.{execute}
use kortex_memory.Tool.Rendering.{human_size}
use kortex_memory.Tool.Isolation.{execute-IsIsolated}

abbrev backend : Backend
backend = record {
  scope_type = ScopeType.project;
  scope_id = 7;
  sensitivity = Sensitivity.internal;
}

abbrev no_int : Text → Option ℤ
no_int t = none

abbrev word : String → Value
word s = item (text (codes s))

abbrev run : Command → State → Result Reply × State
run c s = execute no_int world (user_of 1) backend c s

abbrev named : String → String → Text × Value
named k v = (codes k, word v)

spelling : normalise_path (word " /memories/./a//b/ ") ≡ passed (codes "/memories/a/b")
unfolding normalise_path
spelling = refl

climbing :
    normalise_path (word "/memories/../a") ≡ rejected (not_permitted (codes "/memories/../a"))
unfolding normalise_path
climbing = refl

encoded_climbing :
    normalise_path (word "/memories/%2E./a") ≡ rejected (not_permitted (codes "/memories/%2E./a"))
unfolding normalise_path
encoded_climbing = refl

-- a blank before the last slash stays, and the key has a second spelling
trailing_blank : normalise_path (word "/memories/a /") ≡ passed (codes "/memories/a ")
unfolding normalise_path
trailing_blank = refl

sizes : human_size (codes "héllo") ≡ codes "6"
unfolding human_size
sizes = refl

abbrev create_a : Command
create_a = named "command" "create" ∷ named "path" "/memories/a" ∷ named "file_text" "x" ∷ []

abbrev view_a : Command
view_a = named "command" "view" ∷ named "path" "/memories/a" ∷ []

abbrev edit_a : Command
edit_a =
    named "command" "str_replace"
    ∷ named "path" "/memories/a"
    ∷ named "old_str" "x"
    ∷ named "new_str" "y"
    ∷ []

abbrev rename_a : Command
rename_a =
    named "command" "rename" ∷ named "old_path" "/memories/a" ∷ named "new_path" "/memories/b" ∷ []

create_view :
    (run view_a (run create_a empty).1).0 ≡ ok (content (codes "/memories/a") (codes "x") 1)
unfolding execute scope_eq find_by_content_hash
create_view = refl

-- A file that was edited and moved comes back under its first path, with its edited body, when that path
-- is created again with the first text: the fingerprint of the row is that of its creation, so the write
-- folds into it and takes its path away.
abbrev resurrected : State
resurrected = (run create_a (run rename_a (run edit_a (run create_a empty).1).1).1).1

resurrected_body : (run view_a resurrected).0 ≡ ok (content (codes "/memories/a") (codes "y") 1)
unfolding execute scope_eq find_by_content_hash
resurrected_body = refl

resurrected_path : file (user_of 1) backend (codes "/memories/b") resurrected ≡ none
unfolding execute file scope_eq find_by_content_hash
resurrected_path = refl

-- a store with one reviewed file of two lines
abbrev kept_file : Memory
kept_file = record (row ReviewStatus.approved 1 1 (codes "one\ntwo")) {
  metadata = (path_key, Json.text (codes "/memories/a")) ∷ [];
}

abbrev one_file : State
one_file = record empty { db = record empty.db { memories = kept_file ∷ []; next_id = 2 } }

one_file-IsTidy : IsTidy one_file
one_file-IsTidy = record {
  ordered = (omega arith, tt);
  below = (omega arith, tt);
  positive = omega arith;
}

normalise_path-IsCanonical_example : IsCanonical (codes "/memories/a/b")
normalise_path-IsCanonical_example =
    normalise_path-IsCanonical (word " /memories/./a//b/ ") (codes "/memories/a/b") spelling

plain_spelling : normalise_path (word "/memories/a/b") ≡ passed (codes "/memories/a/b")
unfolding normalise_path
plain_spelling = refl

normalise_path-names_example :
    (codes "/memories/a/b" ≡ codes "/memories/a/b")
    ↔ (names_of (strip (codes " /memories/./a//b/ ")) ≡ names_of (strip (codes "/memories/a/b")))
normalise_path-names_example =
    normalise_path-names (codes " /memories/./a//b/ ") (codes "/memories/a/b")
      (codes "/memories/a/b") (codes "/memories/a/b") spelling plain_spelling

abbrev view_second : Command
view_second = (codes "view_range", seq (number (pos 2) ∷ number (negsuc 0) ∷ [])) ∷ view_a

second_line :
    (view no_int (user_of 1) backend view_second one_file).0
    ≡ ok (content (codes "/memories/a") (codes "two") 2)
unfolding view
second_line = refl

view-IsShown_example :
    IsShown (user_of 1) backend one_file (codes "/memories/a") (codes "two", 2)
    × ((view no_int (user_of 1) backend view_second one_file).1 ≡ one_file)
view-IsShown_example =
    view-IsShown no_int (user_of 1) backend view_second one_file (codes "/memories/a") (codes "two")
      2 second_line

abbrev edit_one : Command
edit_one = named "path" "/memories/a" ∷ named "old_str" "one" ∷ named "new_str" "1" ∷ []

file_there : file (user_of 1) backend (codes "/memories/a") one_file ≡ some kept_file
unfolding file
file_there = refl

row_there : get_by_public_id (user_of 1) 1 one_file.memories ≡ some kept_file
unfolding get_by_public_id
row_there = refl

path_there : normalise_path (word "/memories/a") ≡ passed (codes "/memories/a")
unfolding normalise_path
path_there = refl

edited_one :
    (str_replace world (user_of 1) backend edit_one one_file).0 ≡ ok (edited_to (codes "1\ntwo"))
unfolding str_replace scope_eq
edited_one = refl

str_replace-IsEdited_example :
    IsEdited
      (user_of 1)
      backend
      (codes "/memories/a")
      (text_of (arg (codes "old_str") edit_one))
      (codes "1")
      kept_file
      (codes "1\ntwo")
      (str_replace world (user_of 1) backend edit_one one_file).1
unfolding arg
str_replace-IsEdited_example =
    str_replace-IsEdited world (user_of 1) backend edit_one (codes "/memories/a") (codes "1\ntwo")
      kept_file one_file one_file-IsTidy path_there file_there row_there edited_one

insert_line-lines_example :
    lines_of (insert_line 1 (codes "new\n") (codes "one\ntwo"))
    ≡ take 1 (lines_of (codes "one\ntwo"))
      ++ (lines_of (rstrip_of 10 (codes "new\n")) ++ drop 1 (lines_of (codes "one\ntwo")))
insert_line-lines_example = insert_line-lines 1 (codes "new\n") (codes "one\ntwo")

execute-IsIsolated_example :
    IsTidy (run create_a one_file).1 × IsIsolated 1 one_file (run create_a one_file).1
execute-IsIsolated_example =
    execute-IsIsolated no_int world (user_of 1) backend refl create_a one_file one_file-IsTidy
