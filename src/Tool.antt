-- ===== src/Tool.antt =====
-- packages/kortex-core/src/kortex_core/memory_tool.py: Claude's memory tool over one scope. A command is
-- the JSON object that the caller passes on. What Python makes of a value that the model cannot read
-- (`int` of a text, `repr`) is a parameter of the definitions that use it.
pub mod Texts
pub mod Replies
pub mod Paths
pub mod Lines
pub mod Files
pub mod Viewing
pub mod Creating
pub mod Editing
pub mod Commands
pub mod Rendering
pub mod Isolation
pub mod Tests
use kortex_memory.Prelude.{
  ℕ, Bool, Option, none, some, List, [], ◌∷◌, Text, codes, text_eq, if◌then◌else◌,
}

-- Python's `int`
pub data ℤ : Type 0 where
  pos negsuc : ℕ → ℤ

-- an element of a list in the command, where `object` is a list or an object; `real` carries a float
-- by its integral part, `none` for a NaN
pub data Item : Type 0 where
  null object : Item
  flag : Bool → Item
  number : ℤ → Item
  real : Option ℤ → Item
  text : Text → Item

-- a value of the command; here `Item.object` is an object
pub data Value : Type 0 where
  item : Item → Value
  seq : List Item → Value

abbrev pub Command : Type 0
Command = List (Text × Value)

-- `command.get(key)`: a missing key reads as `None`
unfoldable pub arg : Text → Command → Value
unfolding text_eq
arg key [] = item null
arg key ((k, v) ∷ rest) = if text_eq k key then v else arg key rest

-- `MEMORY_ROOT`
abbrev pub memory_root : Text
memory_root = codes "/memories"

-- `PATH_KEY`
abbrev pub path_key : Text
path_key = codes "memory_tool_path"

-- `MAX_LINES`
abbrev pub max_lines : ℕ
max_lines = 999_999
