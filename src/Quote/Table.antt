-- ===== src/Quote/Table.antt =====
-- The two rows of wordRatio, nearquote.go.
use kgraph.Base.{Str, ℕ, ◌≡◌, refl, sym, ap, ◌∙◌, List, [], ◌∷◌, str_eq}
use kgraph.Quote.{shared_cell, shared_row, shared_rows, zeros, last_cell, shared_words}

-- The count by recursion, from the first words on.
unfoldable pub shared : List Str → List Str → ℕ
unfolding shared_cell
shared [] t = 0
shared (x ∷ s) [] = 0
shared (x ∷ s) (y ∷ t) = shared_cell (str_eq x y) (shared s (y ∷ t)) (shared (x ∷ s) t) (shared s t)

-- The list in front of `s`, turned around.
unfoldable pub turned : List Str → List Str → List Str
turned [] s = s
turned (x ∷ xs) s = turned xs (x ∷ s)

-- The row of the table for the words `s`, at the prefixes of a list of which `t` is behind.
row : List Str → List Str → List Str → List ℕ
unfolding shared
row s t [] = shared s t ∷ []
row s t (y ∷ ys) = shared s t ∷ row s (y ∷ t) ys

shared_row-row :
    (x : Str) (s t ys : List Str)
    → shared (x ∷ s) t ∷ shared_row x ys (row s t ys) (shared (x ∷ s) t) ≡ row (x ∷ s) t ys
unfolding shared_row row shared
shared_row-row x s t [] = refl
shared_row-row x s t (y ∷ []) = refl
shared_row-row x s t (y ∷ z ∷ zs) =
    ap (λ l. shared (x ∷ s) t ∷ l) (shared_row-row x s (y ∷ t) (z ∷ zs))

shared_rows-row : (xs s b : List Str) → shared_rows xs b (row s [] b) ≡ row (turned xs s) [] b
unfolding shared_rows turned row shared
shared_rows-row [] s b = refl
shared_rows-row (x ∷ xs) s b =
    ap (λ l. shared_rows xs b l) (shared_row-row x s [] b) ∙ shared_rows-row xs (x ∷ s) b

row-zeros : (t b : List Str) → row [] t b ≡ zeros b
unfolding row zeros shared
row-zeros t [] = refl
row-zeros t (y ∷ ys) = ap (λ l. 0 ∷ l) (row-zeros (y ∷ t) ys)

last_cell-row : (s t ys : List Str) → last_cell (row s t ys) ≡ shared s (turned ys t)
unfolding last_cell row turned
last_cell-row s t [] = refl
last_cell-row s t (y ∷ []) = refl
last_cell-row s t (y ∷ z ∷ zs) = last_cell-row s (y ∷ t) (z ∷ zs)

-- The two rows compute the count for the two lists, read from their last words on.
pub shared_words_lem : (a b : List Str) → shared_words a b ≡ shared (turned a []) (turned b [])
unfolding shared_words
shared_words_lem a b =
    ap (λ l. last_cell (shared_rows a b l)) (sym (row-zeros [] b))
    ∙ ap last_cell (shared_rows-row a [] b)
    ∙ last_cell-row (turned a []) [] b
