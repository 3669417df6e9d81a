-- ===== src/Chunker/Laws.antt =====
-- The numbers and the sizes of the chunks of attachments/chunker.py.
use kortex_memory.Prelude.{
  ℕ, zero, suc, ◌+◌, ◌*◌, ◌≤◌, ◌≡◌, refl, Bool, true, false, not, ◌&&◌, List, [], ◌∷◌, ◌++◌, Text,
  All, drop, length, length-take, ltb, if◌then◌else◌, arith,
}
use kortex_memory.Dedup.{strip}
use kortex_memory.Chunker.{
  is_empty, Chunking, start, flush_chunk, push, make_room, flush_full, pieces_of, add_pieces,
  add_sentence, add_sentences, chunk_text, split_sentences,
}
use kortex_memory.Chunker.Flushing.{
  IsNumbered, join-append, finished, IsChunked, flush_chunk-IsChunked, flush_full-IsChunked,
  flushed-chars,
}

module _ (max_chars overlap_chars : ℕ) where
  append-full : (ts : List Text) (t : Text) → is_empty (ts ++ t ∷ []) ≡ false
  append-full [] t = refl
  append-full (u ∷ ts) t = refl

  push-IsChunked :
      (t : Text) (c : Chunking)
      → IsChunked max_chars overlap_chars c
      → c.buffer_chars + length t + 1 ≤ max_chars + overlap_chars + 1
      → IsChunked max_chars overlap_chars (push max_chars overlap_chars t c)
  push-IsChunked t c k h = record {
    numbered = k.numbered;
    counted = k.counted;
    joined = omega (arith, join-append c.buffer t, k.joined);
    bounded = h;
    blank = λ e. absurd cc (e, append-full c.buffer t);
    small = k.small;
  }

  roomy :
      (over blank : Bool) (t : Text) (c : Chunking)
      → length t ≤ max_chars
      → IsChunked max_chars overlap_chars c
      → ltb max_chars (c.buffer_chars + length t + 1) ≡ over
      → is_empty c.buffer ≡ blank
      → IsChunked max_chars overlap_chars (
          push max_chars overlap_chars t
            (if over && not blank then flush_chunk max_chars overlap_chars c else c))
  roomy true true t c h k o b = push-IsChunked t c k (omega (arith, h, k.blank b))
  roomy true false t c h k o b =
      push-IsChunked t (flush_chunk max_chars overlap_chars c)
        (flush_chunk-IsChunked max_chars overlap_chars c k)
        (omega (arith, h, flushed-chars max_chars overlap_chars c b))
  roomy false blank t c h k o b =
      let fits : c.buffer_chars + length t + 1 ≤ max_chars = ground (arith, o) in
      push-IsChunked t c k (omega (arith, fits))

  -- a text that is not too long by itself, after the room for it was made
  room :
      (t : Text) (c : Chunking)
      → length t ≤ max_chars
      → IsChunked max_chars overlap_chars c
      → IsChunked max_chars overlap_chars
          (push max_chars overlap_chars t (make_room max_chars overlap_chars t c))
  unfolding make_room
  room t c h k =
      roomy (ltb max_chars (c.buffer_chars + length t + 1)) (is_empty c.buffer) t c h k refl refl

  pieces_of-short :
      (fuel : ℕ) (t : Text)
      → All (λ u. length u ≤ max_chars) (pieces_of max_chars overlap_chars fuel t)
  unfolding pieces_of
  pieces_of-short zero t = tt
  pieces_of-short (suc fuel) [] = tt
  pieces_of-short (suc fuel) (x ∷ t) =
      (omega (arith, length-take max_chars (x ∷ t)), pieces_of-short fuel (drop max_chars (x ∷ t)))

  add_pieces-IsChunked :
      (ts : List Text) (c : Chunking)
      → All (λ u. length u ≤ max_chars) ts
      → IsChunked max_chars overlap_chars c
      → IsChunked max_chars overlap_chars (add_pieces max_chars overlap_chars ts c)
  unfolding add_pieces
  add_pieces-IsChunked [] c h k = k
  add_pieces-IsChunked (t ∷ ts) c h k =
      let pushed : Chunking =
        push max_chars overlap_chars t (make_room max_chars overlap_chars t c) in
      add_pieces-IsChunked ts (flush_full max_chars overlap_chars pushed) h.1
        (flush_full-IsChunked max_chars overlap_chars pushed (room t c h.0 k))

  sentence_if :
      (long : Bool) (t : Text) (c : Chunking)
      → ltb max_chars (length t) ≡ long
      → IsChunked max_chars overlap_chars c
      → IsChunked max_chars overlap_chars (
          if long
          then add_pieces max_chars overlap_chars (pieces_of max_chars overlap_chars (length t) t) c
          else push max_chars overlap_chars t (make_room max_chars overlap_chars t c))
  sentence_if true t c l k =
      add_pieces-IsChunked (pieces_of max_chars overlap_chars (length t) t) c
        (pieces_of-short (length t) t) k
  sentence_if false t c l k = room t c (ground (arith, l)) k

  add_sentences-IsChunked :
      (ts : List Text) (c : Chunking)
      → IsChunked max_chars overlap_chars c
      → IsChunked max_chars overlap_chars (add_sentences max_chars overlap_chars ts c)
  unfolding add_sentences
  add_sentences-IsChunked [] c k = k
  add_sentences-IsChunked (t ∷ ts) c k =
      add_sentences-IsChunked ts (add_sentence max_chars overlap_chars t c)
        (sentence_if (ltb max_chars (length t)) t c refl k)

  start-IsChunked : IsChunked max_chars overlap_chars start
  start-IsChunked = record {
    numbered = tt;
    counted = refl;
    joined = omega arith;
    bounded = omega arith;
    blank = λ h. refl;
    small = tt;
  }

-- The chunks of a text are numbered from 0 on, without a gap, in the order in which they are yielded;
-- and none has more characters than four for each token of `max_tokens` and of the overlap, and one.
pub chunk_text-bounds :
    (split : Text → List Text) (max_tokens overlap_tokens : ℕ) (text : Text)
    → let cs = chunk_text split max_tokens overlap_tokens text in
      IsNumbered 0 cs × All (λ q. length q.1 ≤ max_tokens * 4 + overlap_tokens * 4 + 1) cs
unfolding chunk_text
chunk_text-bounds split max_tokens overlap_tokens text =
    let m : ℕ = max_tokens * 4 in
    let o : ℕ = overlap_tokens * 4 in
    let k =
      flush_chunk-IsChunked m o (add_sentences m o (split_sentences split text) start)
        (add_sentences-IsChunked m o (split_sentences split text) start (start-IsChunked m o)) in
    finished (is_empty (strip text))
      (flush_chunk m o (add_sentences m o (split_sentences split text) start)).chunks (m + o + 1)
      k.numbered k.small
