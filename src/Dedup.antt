-- ===== src/Dedup.antt =====
-- packages/kortex-core/src/kortex_core/dedup.py: the fingerprint of a memory. Unicode normalisation
-- and SHA-256 are the parameters `nfkc` and `sha256`; the digest is taken of the code points.
pub mod Laws
pub mod Lengths
mod Tests
use kortex_memory.Prelude.{
  ℕ, Bool, true, false, ◌||◌, ◌&&◌, List, [], ◌∷◌, ◌++◌, Text, ◌==◌, leb, if◌then◌else◌,
}

-- `str.isspace` for a code point, which is also what `\s` matches
abbrev pub is_space : ℕ → Bool
is_space c =
    (leb 9 c && leb c 13)
    || (leb 28 c && leb c 32)
    || c == 133
    || c == 160
    || c == 5760
    || (leb 8192 c && leb c 8202)
    || c == 8232
    || c == 8233
    || c == 8239
    || c == 8287
    || c == 12288

-- `re.sub(r"\s+", " ", t)`; `inside` tells that the run of spaces has begun
unfoldable pub collapse : Bool → Text → Text
collapse inside [] = []
collapse inside (c ∷ cs) =
    let run = if inside then collapse true cs else 32 ∷ collapse true cs in
    let word = c ∷ collapse false cs in if is_space c then run else word

unfoldable pub lstrip : Text → Text
lstrip [] = []
lstrip (c ∷ cs) = let rest = lstrip cs in if is_space c then rest else c ∷ cs

abbrev pub cons_or_drop : ℕ → Text → Text
cons_or_drop c [] = if is_space c then [] else c ∷ []
cons_or_drop c (d ∷ ds) = c ∷ d ∷ ds

unfoldable pub rstrip : Text → Text
rstrip [] = []
rstrip (c ∷ cs) = cons_or_drop c (rstrip cs)

unfoldable pub strip : Text → Text
unfolding lstrip rstrip
strip t = rstrip (lstrip t)

-- `_FIELD_SEPARATOR`
abbrev pub field_separator : ℕ
field_separator = 31

module _ (nfkc : Text → Text) where
  unfoldable pub normalize_content : Text → Text
  unfolding collapse strip
  normalize_content t = strip (collapse false (nfkc t))

  -- what is hashed
  unfoldable pub payload : Text → Text → Text
  unfolding normalize_content
  payload title body = normalize_content title ++ field_separator ∷ normalize_content body

unfoldable pub content_hash : (Text → Text) → (Text → Text) → Text → Text → Text
unfolding payload
content_hash nfkc sha256 title body = sha256 (payload nfkc title body)
