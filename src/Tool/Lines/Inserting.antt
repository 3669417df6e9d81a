-- ===== src/Tool/Lines/Inserting.antt =====
-- What an insertion of memory_tool.py leaves, line by line.
use kortex_memory.Prelude.{
  ℕ, ◌≤◌, ◌≡◌, refl, sym, ◌∙◌, ap, subst, List, [], ◌∷◌, ◌++◌, Text, take-All, drop-All, length,
  take, append_assoc, append-All, drop, arith,
}
use kortex_memory.Tool.Texts.{join_with, rstrip_of}
use kortex_memory.Tool.Texts.Splitting.{IsFree, parts, join-split, split-All}
use kortex_memory.Tool.Lines.{newline, lines_of, unlines, insert_line}
use kortex_memory.Tool.Lines.Laws.{lines_of-unlines}

unlines-joined :
    (u j : Text) (ys : List Text)
    → unlines ((u ++ newline ∷ j) ∷ ys) ≡ u ++ newline ∷ unlines (j ∷ ys)
unfolding join_with
unlines-joined u j [] = refl
unlines-joined u j (y ∷ ys) = append_assoc u (newline ∷ j) (newline ∷ unlines (y ∷ ys))

-- a joined text in the place of its lines
unlines-front :
    (u : Text) (us ys : List Text) → unlines (unlines (u ∷ us) ∷ ys) ≡ unlines (u ∷ (us ++ ys))
unfolding join_with
unlines-front u [] ys = refl
unlines-front u (v ∷ vs) ys =
    unlines-joined u (unlines (v ∷ vs)) ys ∙ ap (λ l. u ++ newline ∷ l) (unlines-front v vs ys)

unlines-nested :
    (xs : List Text) (u : Text) (us ys : List Text)
    → unlines (xs ++ unlines (u ∷ us) ∷ ys) ≡ unlines (xs ++ (u ∷ us ++ ys))
unfolding join_with
unlines-nested [] u us ys = unlines-front u us ys
unlines-nested (x ∷ []) u us ys = ap (λ l. x ++ newline ∷ l) (unlines-front u us ys)
unlines-nested (x ∷ y ∷ xs) u us ys = ap (λ l. x ++ newline ∷ l) (unlines-nested (y ∷ xs) u us ys)

length-middle : (xs : List Text) (u : Text) (us : List Text) → 1 ≤ length (xs ++ u ∷ us)
length-middle [] u us = omega arith
length-middle (x ∷ xs) u us = omega arith

-- After an insertion at line `n` the file has its first `n` lines, then the lines of the text without
-- the newlines at its end, then its other lines, and nothing else.
pub insert_line-lines :
    (n : ℕ) (t body : Text)
    → lines_of (insert_line n t body)
      ≡ take n (lines_of body) ++ (lines_of (rstrip_of newline t) ++ drop n (lines_of body))
unfolding insert_line
insert_line-lines n t body =
    let stripped : Text = rstrip_of newline t in
    let all : List Text = lines_of body in
    let p = parts newline stripped in
    let free =
      append-All (IsFree newline) (take n all) (lines_of stripped ++ drop n all)
        (take-All (IsFree newline) n all (split-All newline body))
        (append-All (IsFree newline) (lines_of stripped) (drop n all) (split-All newline stripped)
          (drop-All (IsFree newline) n all (split-All newline body))) in
    let text : unlines (p.first ∷ p.rest) ≡ stripped =
      ap unlines (sym p.split) ∙ join-split newline stripped in
    let back : p.first ∷ p.rest ≡ lines_of stripped = sym p.split in
    let some_line : 1 ≤ length (take n all ++ (lines_of stripped ++ drop n all)) =
      subst (λ ls. 1 ≤ length (take n all ++ (ls ++ drop n all))) back
        (length-middle (take n all) p.first (p.rest ++ drop n all)) in
    ap (λ u. lines_of (unlines (take n all ++ u ∷ drop n all))) (sym text)
    ∙ ap lines_of (unlines-nested (take n all) p.first p.rest (drop n all))
    ∙ ap (λ ls. lines_of (unlines (take n all ++ (ls ++ drop n all)))) back
    ∙ lines_of-unlines (take n all ++ (lines_of stripped ++ drop n all)) some_line free
