-- ===== src/Retrieval/Loop/Collecting.antt =====
-- The dict of the hits that the agent loop has seen.
use kortex_memory.Prelude.{
  ℕ, ◌≡◌, refl, subst, Bool, true, false, ◌||◌, [], ◌∷◌, ◌++◌, ltb, ◌==◌, All, if◌then◌else◌,
  Bool-cases, inl, inr, arith,
}
use kortex_memory.Retrieval.Conflicts.{HybridSearchHit}
use kortex_memory.Retrieval.Loop.{Hits, is_seen, ingest_one, ingest}

-- no two hits of a list show the same memory
abbrev pub IsDistinct : Hits → Type 0
IsDistinct [] = Unit
IsDistinct (h ∷ hs) = (is_seen h.memory_id hs ≡ false) × IsDistinct hs

or-false : (a b : Bool) → a ≡ false → b ≡ false → (a || b) ≡ false
or-false true b h k = absurd cc h
or-false false b h k = k

or-neither : (a b : Bool) → (a || b) ≡ false → (a ≡ false) × (b ≡ false)
or-neither true b h = absurd cc h
or-neither false b h = (refl, h)

is_seen-append :
    (i : ℕ) (hs : Hits) (x : HybridSearchHit)
    → is_seen i hs ≡ false
    → (x.memory_id == i) ≡ false
    → is_seen i (hs ++ x ∷ []) ≡ false
is_seen-append i [] x h k = or-false _ _ k refl
is_seen-append i (g ∷ gs) x h k =
    let r = or-neither (g.memory_id == i) _ h in or-false _ _ r.0 (is_seen-append i gs x r.1 k)

differ : (a b : ℕ) → (a == b) ≡ false → (b == a) ≡ false
differ a b h = ground (arith, h)

pub append-IsDistinct :
    (hs : Hits) (x : HybridSearchHit)
    → IsDistinct hs
    → is_seen x.memory_id hs ≡ false
    → IsDistinct (hs ++ x ∷ [])
append-IsDistinct [] x d h = (refl, tt)
append-IsDistinct (g ∷ gs) x d h =
    let r = or-neither (g.memory_id == x.memory_id) _ h in
    (
      is_seen-append g.memory_id gs x d.0 (differ g.memory_id x.memory_id r.0),
      append-IsDistinct gs x d.1 r.1,
    )

either :
    (b : Bool) (Q : HybridSearchHit → Type 0) (x y : HybridSearchHit)
    → Q x
    → Q y
    → Q (if b then x else y)
either true Q x y p q = p
either false Q x y p q = q

ingest_one-is_seen :
    (i : ℕ) (h : HybridSearchHit) (hs : Hits)
    → is_seen i hs ≡ false
    → (h.memory_id == i) ≡ false
    → is_seen i (ingest_one h hs) ≡ false
unfolding ingest_one
ingest_one-is_seen i h [] s k = or-false _ _ k refl
ingest_one-is_seen i h (g ∷ gs) s k =
    let r = or-neither (g.memory_id == i) _ s in
    elim (Bool-cases (g.memory_id == h.memory_id)) [
      | inl same ↦ rw (same) (
          or-false _ _ (either (ltb g.score h.score) (λ x. (x.memory_id == i) ≡ false) h g k r.0)
            r.1)
      | inr other ↦ rw (other) (or-false _ _ r.0 (ingest_one-is_seen i h gs r.1 k))
    ]

pub same_id : (a b : ℕ) → (a == b) ≡ true → a ≡ b
same_id a b h = ground (arith, h)

ingest_one-IsDistinct :
    (h : HybridSearchHit) (hs : Hits) → IsDistinct hs → IsDistinct (ingest_one h hs)
unfolding ingest_one
ingest_one-IsDistinct h [] d = (refl, tt)
ingest_one-IsDistinct h (g ∷ gs) d = elim (Bool-cases (g.memory_id == h.memory_id)) [
  | inl same ↦ rw (same) (
    either (ltb g.score h.score) (λ x. is_seen x.memory_id gs ≡ false) h g
        (subst (λ i. is_seen i gs ≡ false) (same_id g.memory_id h.memory_id same) d.0) d.0,
    d.1,
  )
  | inr other ↦ rw (other) (
    ingest_one-is_seen g.memory_id h gs d.0 (differ g.memory_id h.memory_id other),
    ingest_one-IsDistinct h gs d.1,
  )
]

-- the hits that a loop has seen
pub record IsSound (P : HybridSearchHit → Type 0) (hs : Hits) : Type 0 where
  pub all : All P hs
  pub distinct : IsDistinct hs

module _ (P : HybridSearchHit → Type 0) where
  ingest_one-All : (h : HybridSearchHit) (hs : Hits) → P h → All P hs → All P (ingest_one h hs)
  unfolding ingest_one
  ingest_one-All h [] p a = (p, tt)
  ingest_one-All h (g ∷ gs) p a = elim (Bool-cases (g.memory_id == h.memory_id)) [
    | inl same ↦ rw (same) (either (ltb g.score h.score) P h g p a.0, a.1)
    | inr other ↦ rw (other) (a.0, ingest_one-All h gs p a.1)
  ]

  pub ingest-IsSound :
      (hs seen : Hits) (added : ℕ) → All P hs → IsSound P seen → IsSound P (ingest hs seen added).0
  unfolding ingest
  ingest-IsSound [] seen added a s = s
  ingest-IsSound (h ∷ hs) seen added a s = ingest-IsSound hs (ingest_one h seen) _ a.1 (record {
    all = ingest_one-All h seen a.0 s.all;
    distinct = ingest_one-IsDistinct h seen s.distinct;
  })
