-- ===== src/Chunker/Flushing.antt =====
-- What a flush of attachments/chunker.py keeps.
use kortex_memory.Prelude.{
  ℕ, ◌+◌, ◌-◌, ◌≤◌, ◌≡◌, refl, subst, Bool, true, false, List, [], ◌∷◌, ◌++◌, Text, All, length,
  length-append, length-drop, leb, if◌then◌else◌, arith,
}
use kortex_memory.Dedup.{strip}
use kortex_memory.Dedup.Lengths.{length-strip}
use kortex_memory.Chunker.{
  is_empty, join, Chunking, tail_of, carried, emit, flush_chunk, flush_full,
}

-- the numbers of the chunks, from `i` on
abbrev pub IsNumbered : ℕ → List (ℕ × Text) → Type 0
IsNumbered i [] = Unit
IsNumbered i ((j, t) ∷ cs) = (j ≡ i) × IsNumbered (i + 1) cs

IsNumbered-append :
    (i : ℕ) (cs : List (ℕ × Text)) (t : Text)
    → IsNumbered i cs
    → IsNumbered i (cs ++ (i + length cs, t) ∷ [])
IsNumbered-append i [] t h = (omega arith, tt)
IsNumbered-append i ((j, u) ∷ cs) t h = (
  h.0,
  subst (λ k. IsNumbered (i + 1) (cs ++ (k, t) ∷ [])) (omega arith)
      (IsNumbered-append (i + 1) cs t h.1),
)

pub join-append :
    (ts : List Text) (t : Text) → length (join (ts ++ t ∷ [])) ≤ length (join ts) + length t + 1
join-append [] t = omega arith
join-append (u ∷ []) t = omega (arith, length-append u (32 ∷ t))
join-append (u ∷ v ∷ vs) t = omega (
  arith,
  join-append (v ∷ vs) t,
  length-append u (32 ∷ join (v ∷ vs)),
  length-append u (32 ∷ join ((v ∷ vs) ++ t ∷ [])),
)

All-last :
    (P : ℕ × Text → Type 0) (cs : List (ℕ × Text)) (x : ℕ × Text)
    → All P cs
    → P x
    → All P (cs ++ x ∷ [])
All-last P [] x h p = (p, tt)
All-last P (c ∷ cs) x h p = (h.0, All-last P cs x h.1 p)

pub finished :
    (b : Bool) (cs : List (ℕ × Text)) (n : ℕ)
    → IsNumbered 0 cs
    → All (λ q. length q.1 ≤ n) cs
    → IsNumbered 0 (if b then [] else cs) × All (λ q. length q.1 ≤ n) (if b then [] else cs)
finished true cs n h k = (tt, tt)
finished false cs n h k = (h, k)

pub choose :
    (P : Chunking → Type 0) (b : Bool) (x y : Chunking) → P x → P y → P (if b then x else y)
choose P true x y h k = h
choose P false x y h k = k

module _ (max_chars overlap_chars : ℕ) where
  abbrev pub IsSmall : ℕ × Text → Type 0
  IsSmall q = length q.1 ≤ max_chars + overlap_chars + 1

  -- what holds between two sentences
  pub record IsChunked (c : Chunking) : Type 0 where
    pub numbered : IsNumbered 0 c.chunks
    pub counted : c.chunk_index ≡ length c.chunks
    pub joined : length (join c.buffer) ≤ c.buffer_chars
    pub bounded : c.buffer_chars ≤ max_chars + overlap_chars + 1
    pub blank : is_empty c.buffer ≡ true → c.buffer_chars ≡ 0
    pub small : All IsSmall c.chunks

  tail-length : (body : Text) → length (tail_of overlap_chars body) ≤ overlap_chars
  tail-length body = omega (arith, length-drop (length body - overlap_chars) body)

  carried-join : (t : Text) → length (join (carried t)) ≤ length t
  carried-join [] = omega arith
  carried-join (x ∷ t) = omega arith

  carried-blank : (t : Text) → is_empty (carried t) ≡ true → length t ≡ 0
  carried-blank [] h = refl
  carried-blank (x ∷ t) h = absurd cc h

  emit-IsChunked :
      (body : Text) (c : Chunking)
      → IsSmall (0, body)
      → IsChunked c
      → IsChunked (emit max_chars overlap_chars body c)
  emit-IsChunked body c s k = record {
    numbered =
        subst (λ i. IsNumbered 0 (c.chunks ++ (i, body) ∷ [])) (omega (arith, k.counted))
          (IsNumbered-append 0 c.chunks body k.numbered);
    counted = omega (arith, k.counted, length-append c.chunks ((c.chunk_index, body) ∷ []));
    joined = carried-join (tail_of overlap_chars body);
    bounded = omega (arith, tail-length body);
    blank = carried-blank (tail_of overlap_chars body);
    small = All-last IsSmall c.chunks (c.chunk_index, body) k.small s;
  }

  body-IsSmall : (c : Chunking) → IsChunked c → IsSmall (0, strip (join c.buffer))
  body-IsSmall c k = omega (arith, length-strip (join c.buffer), k.joined, k.bounded)

  pub flush_if :
      (b : Bool) (c : Chunking)
      → IsChunked c
      → IsChunked (if b then c else emit max_chars overlap_chars (strip (join c.buffer)) c)
  flush_if true c k = k
  flush_if false c k = emit-IsChunked (strip (join c.buffer)) c (body-IsSmall c k) k

  pub flush_chunk-IsChunked :
      (c : Chunking) → IsChunked c → IsChunked (flush_chunk max_chars overlap_chars c)
  unfolding flush_chunk
  flush_chunk-IsChunked c k = flush_if (is_empty c.buffer) c k

  pub flush_full-IsChunked :
      (c : Chunking) → IsChunked c → IsChunked (flush_full max_chars overlap_chars c)
  flush_full-IsChunked c k =
      choose IsChunked (leb max_chars c.buffer_chars) (flush_chunk max_chars overlap_chars c) c
        (flush_chunk-IsChunked c k) k

  pub flushed-chars :
      (c : Chunking)
      → is_empty c.buffer ≡ false
      → (flush_chunk max_chars overlap_chars c).buffer_chars ≤ overlap_chars
  unfolding flush_chunk
  flushed-chars c h = rw h (tail-length (strip (join c.buffer)))
