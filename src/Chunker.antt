-- ===== src/Chunker.antt =====
-- packages/kortex-core/src/kortex_core/attachments/chunker.py. The split of a text at the sentence
-- boundary is the parameter `split`: what `re.split` returns for the regular expression there. With
-- `max_tokens` 0 Python's `range` raises; the loop over the pieces is only about `max_tokens` above 0.
pub mod Flushing
pub mod Laws
mod Tests
use kortex_memory.Prelude.{
  ℕ, zero, suc, ◌+◌, ◌-◌, ◌*◌, Bool, true, false, not, ◌&&◌, List, [], ◌∷◌, ◌++◌, Text, map, keep,
  take, drop, length, ltb, leb, if◌then◌else◌,
}
use kortex_memory.Dedup.{strip}

abbrev pub is_empty {ℓ} : {A : Type ℓ} → List A → Bool
is_empty [] = true
is_empty (x ∷ xs) = false

abbrev nonempty_or : List Text → List Text → List Text
nonempty_or [] other = other
nonempty_or (t ∷ ts) other = t ∷ ts

abbrev nonblank : List Text → List Text
nonblank = keep (λ t. not (is_empty t))

-- `_split_sentences`
unfoldable pub split_sentences : (Text → List Text) → Text → List Text
unfolding strip
split_sentences split text =
    nonempty_or (nonblank (map strip (split text))) (nonblank (strip text ∷ []))

-- `" ".join(parts)`
abbrev pub join : List Text → Text
join [] = []
join (t ∷ []) = t
join (t ∷ u ∷ us) = t ++ 32 ∷ join (u ∷ us)

-- `buffer`, `buffer_chars` and `chunk_index`, and what was yielded
pub record Chunking : Type 0 where
  pub buffer : List Text
  pub buffer_chars : ℕ
  pub chunk_index : ℕ
  pub chunks : List (ℕ × Text)

abbrev pub start : Chunking
start = record { buffer = []; buffer_chars = 0; chunk_index = 0; chunks = [] }

-- `body[-n:] if n > 0 else ""`
abbrev pub tail_of : ℕ → Text → Text
tail_of n body = drop (length body - n) body

abbrev pub carried : Text → List Text
carried [] = []
carried (c ∷ cs) = (c ∷ cs) ∷ []

module _ (max_chars overlap_chars : ℕ) where
  abbrev pub emit : Text → Chunking → Chunking
  emit body c = record {
    buffer = carried (tail_of overlap_chars body);
    buffer_chars = length (tail_of overlap_chars body);
    chunk_index = c.chunk_index + 1;
    chunks = c.chunks ++ (c.chunk_index, body) ∷ [];
  }

  -- `flush`, and the yield of what it returns
  unfoldable pub flush_chunk : Chunking → Chunking
  unfolding strip
  flush_chunk c = if is_empty c.buffer then c else emit (strip (join c.buffer)) c

  abbrev pub push : Text → Chunking → Chunking
  push t c = record c { buffer = c.buffer ++ t ∷ []; buffer_chars = c.buffer_chars + length t + 1 }

  -- the flush before a text that does not fit
  unfoldable pub make_room : Text → Chunking → Chunking
  unfolding flush_chunk
  make_room t c =
      if ltb max_chars (c.buffer_chars + length t + 1) && not (is_empty c.buffer)
      then flush_chunk c
      else c

  abbrev pub flush_full : Chunking → Chunking
  flush_full c = if leb max_chars c.buffer_chars then flush_chunk c else c

  -- the pieces of a long sentence; its length is enough fuel
  unfoldable pub pieces_of : ℕ → Text → List Text
  pieces_of zero t = []
  pieces_of (suc fuel) [] = []
  pieces_of (suc fuel) (c ∷ cs) = take max_chars (c ∷ cs) ∷ pieces_of fuel (drop max_chars (c ∷ cs))

  unfoldable pub add_pieces : List Text → Chunking → Chunking
  unfolding make_room flush_chunk
  add_pieces [] c = c
  add_pieces (t ∷ ts) c = add_pieces ts (flush_full (push t (make_room t c)))

  abbrev pub add_sentence : Text → Chunking → Chunking
  add_sentence t c =
      if ltb max_chars (length t)
      then add_pieces (pieces_of (length t) t) c
      else push t (make_room t c)

  unfoldable pub add_sentences : List Text → Chunking → Chunking
  unfolding add_pieces make_room pieces_of
  add_sentences [] c = c
  add_sentences (t ∷ ts) c = add_sentences ts (add_sentence t c)

unfoldable pub chunk_text : (Text → List Text) → ℕ → ℕ → Text → List (ℕ × Text)
unfolding split_sentences add_sentences flush_chunk strip
chunk_text split max_tokens overlap_tokens text =
    if is_empty (strip text)
    then []
    else (flush_chunk (max_tokens * 4) (overlap_tokens * 4) (
        add_sentences (max_tokens * 4) (overlap_tokens * 4) (split_sentences split text)
          start)).chunks
