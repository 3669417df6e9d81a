-- ===== src/Tool/Texts.antt =====
-- The operations of Python's `str` that memory_tool.py uses: `split` and `join` at a separator of one
-- code point, `startswith`, `in`, `count`, `replace` of the first occurrence, and `rstrip`.
pub mod Splitting
pub mod Replacing
use kortex_memory.Prelude.{
  ℕ, zero, suc, ◌+◌, ◌-◌, Bool, true, false, ◌&&◌, ◌||◌, List, [], ◌∷◌, ◌++◌, Text, ◌==◌, drop,
  length, if◌then◌else◌,
}

abbrev pub cons_head : ℕ → List Text → List Text
cons_head c [] = (c ∷ []) ∷ []
cons_head c (t ∷ ts) = (c ∷ t) ∷ ts

-- `t.split(sep)`
unfoldable pub split_on : ℕ → Text → List Text
split_on sep [] = [] ∷ []
split_on sep (c ∷ cs) =
    let rest = split_on sep cs in if c == sep then [] ∷ rest else cons_head c rest

-- `sep.join(parts)`
unfoldable pub join_with : ℕ → List Text → Text
join_with sep [] = []
join_with sep (t ∷ []) = t
join_with sep (t ∷ u ∷ us) = t ++ sep ∷ join_with sep (u ∷ us)

-- `t.startswith(prefix)`
unfoldable pub starts_with : Text → Text → Bool
starts_with [] t = true
starts_with (c ∷ cs) [] = false
starts_with (c ∷ cs) (d ∷ ds) = c == d && starts_with cs ds

-- `part in t`
unfoldable pub contains : Text → Text → Bool
unfolding starts_with
contains part [] = starts_with part []
contains part (c ∷ cs) = starts_with part (c ∷ cs) || contains part cs

-- `t.count(part)` for a part that is not empty; the first argument is how many code points of the last
-- occurrence are still to be passed
unfoldable pub count_from : ℕ → Text → Text → ℕ
unfolding starts_with
count_from skip part [] = 0
count_from (suc skip) part (c ∷ cs) = count_from skip part cs
count_from zero part (c ∷ cs) =
    let found = suc (count_from (length part - 1) part cs) in
    let past = count_from 0 part cs in if starts_with part (c ∷ cs) then found else past

-- `t.replace(old, new, 1)` for an `old` that is not empty
unfoldable pub replace_first : Text → Text → Text → Text
unfolding starts_with
replace_first old new [] = []
replace_first old new (c ∷ cs) =
    let later = c ∷ replace_first old new cs in
    if starts_with old (c ∷ cs) then new ++ drop (length old) (c ∷ cs) else later

abbrev pub cons_unless : ℕ → ℕ → Text → Text
cons_unless sep c [] = if c == sep then [] else c ∷ []
cons_unless sep c (d ∷ ds) = c ∷ d ∷ ds

-- `t.rstrip(sep)`
unfoldable pub rstrip_of : ℕ → Text → Text
rstrip_of sep [] = []
rstrip_of sep (c ∷ cs) = cons_unless sep c (rstrip_of sep cs)
