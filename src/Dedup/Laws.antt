-- ===== src/Dedup/Laws.antt =====
-- Title and body can be told apart in what `content_hash` of dedup.py hashes.
use kortex_memory.Prelude.{ℕ, ◌≡◌, ◌≢◌, refl, Bool, true, false, [], ◌∷◌, ◌++◌, Text, All, arith}
use kortex_memory.Dedup.{collapse, lstrip, rstrip, field_separator, normalize_content, payload}

-- no separator occurs in the text
abbrev IsFree : Text → Type 0
IsFree = All (λ (c : ℕ). c ≢ field_separator)

collapse-IsFree : (inside : Bool) (t : Text) → IsFree (collapse inside t)
unfolding collapse
collapse-IsFree inside [] = tt
collapse-IsFree inside (c ∷ cs) = ground (arith, collapse-IsFree true cs, collapse-IsFree false cs)

lstrip-IsFree : (t : Text) → IsFree t → IsFree (lstrip t)
unfolding lstrip
lstrip-IsFree [] h = tt
lstrip-IsFree (c ∷ cs) h = ground (arith, lstrip-IsFree cs h.1)

rstrip-IsFree : (t : Text) → IsFree t → IsFree (rstrip t)
unfolding rstrip
rstrip-IsFree [] h = tt
rstrip-IsFree (c ∷ cs) h = ground (arith, rstrip-IsFree cs h.1)

split_at_separator :
    (s t u v : Text)
    → IsFree s
    → IsFree t
    → s ++ field_separator ∷ u ≡ t ++ field_separator ∷ v
    → (s ≡ t) × (u ≡ v)
split_at_separator [] [] u v hs ht e = (refl, cc e)
split_at_separator [] (d ∷ t) u v hs ht e = ground arith
split_at_separator (c ∷ s) [] u v hs ht e = ground arith
split_at_separator (c ∷ s) (d ∷ t) u v hs ht e =
    let r = split_at_separator s t u v hs.1 ht.1 (cc e) in (cc (r.0, e), r.1)

module _ (nfkc : Text → Text) where
  normalize-IsFree : (t : Text) → IsFree (normalize_content nfkc t)
  unfolding normalize_content
  normalize-IsFree t =
      rstrip-IsFree (lstrip (collapse false (nfkc t)))
        (lstrip-IsFree (collapse false (nfkc t)) (collapse-IsFree false (nfkc t)))

  -- Whatever Unicode normalisation does: if the text that is hashed is the same for two memories, then
  -- their normalised titles are equal and their normalised bodies are equal, so no text moves between
  -- title and body.
  pub payload-eq :
      (title title' body body' : Text)
      → payload nfkc title body ≡ payload nfkc title' body'
      → (normalize_content nfkc title ≡ normalize_content nfkc title')
        × (normalize_content nfkc body ≡ normalize_content nfkc body')
  unfolding payload
  payload-eq title title' body body' e =
      split_at_separator (normalize_content nfkc title) (normalize_content nfkc title')
        (normalize_content nfkc body) (normalize_content nfkc body') (normalize-IsFree title)
        (normalize-IsFree title') e
