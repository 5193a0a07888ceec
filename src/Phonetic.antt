-- ===== src/Phonetic.antt =====
-- editDistance, phonetic.go: the distance of two texts by two rows of a table.
pub mod Least
pub mod Names
pub mod Numbers
use kgraph.Base.{
  Str, ℕ, ◌+◌, ◌≡◌, refl, sym, ap, ◌∙◌, inl, inr, Bool, true, false, if◌then◌else◌, List, [], ◌∷◌,
  arith, length, str_eq, str_eq_iff, ltb, ◌==◌, Bool-cases,
}

-- The cost of a substitution.
unfoldable pub cost : ℕ → ℕ → ℕ
cost x y = if x == y then 0 else 1

-- m := up + 1, lowered to left + 1 and to diagonal + cost where these are less.
unfoldable pub cell : ℕ → ℕ → ℕ → ℕ
cell up left diagonal =
    let m = up + 1 in
    let m = if ltb (left + 1) m then left + 1 else m in if ltb diagonal m then diagonal else m

-- The loop over j: the rest of the row after `left`, from the row above.
unfoldable pub fill : ℕ → Str → List ℕ → ℕ → List ℕ
unfolding cell cost
fill x (y ∷ ys) (diagonal ∷ up ∷ prev) left =
    cell up left (diagonal + cost x y) ∷ fill x ys (up ∷ prev) (cell up left (diagonal + cost x y))
fill x ys prev left = []

-- The loop over i, from the row before it.
unfoldable pub run : Str → Str → ℕ → List ℕ → List ℕ
unfolding fill
run [] b i prev = prev
run (x ∷ xs) b i prev = run xs b (i + 1) ((i + 1) ∷ fill x b prev (i + 1))

-- The first row.
unfoldable pub first_row : ℕ → Str → List ℕ
first_row j [] = j ∷ []
first_row j (y ∷ ys) = j ∷ first_row (j + 1) ys

-- prev[len(b)]
unfoldable pub last : List ℕ → ℕ
last [] = 0
last (n ∷ []) = n
last (n ∷ m ∷ ns) = last (m ∷ ns)

unfoldable pub edit_distance : Str → Str → ℕ
unfolding run first_row last
edit_distance a b = if str_eq a b then 0 else last (run a b 0 (first_row 0 b))

-- The recursive edit distance, read from the first characters on.
pub edits : Str → Str → ℕ
unfolding cell cost
edits [] t = length t
edits (x ∷ s) [] = length s + 1
edits (x ∷ s) (y ∷ t) = cell (edits s (y ∷ t)) (edits (x ∷ s) t) (edits s t + cost x y)

-- The text in front of `s`, turned around.
unfoldable pub turned : Str → Str → Str
turned [] s = s
turned (x ∷ xs) s = turned xs (x ∷ s)

-- The row of the table for the text `s`, at the prefixes of a text of which `t` is behind.
row : Str → Str → Str → List ℕ
unfolding edits
row s t [] = edits s t ∷ []
row s t (y ∷ ys) = edits s t ∷ row s (y ∷ t) ys

fill-row :
    (x : ℕ) (s t ys : Str)
    → edits (x ∷ s) t ∷ fill x ys (row s t ys) (edits (x ∷ s) t) ≡ row (x ∷ s) t ys
unfolding fill row edits
fill-row x s t [] = refl
fill-row x s t (y ∷ []) = refl
fill-row x s t (y ∷ z ∷ zs) = ap (λ l. edits (x ∷ s) t ∷ l) (fill-row x s (y ∷ t) (z ∷ zs))

run-row : (xs s b : Str) → run xs b (length s) (row s [] b) ≡ row (turned xs s) [] b
unfolding run turned row edits
run-row [] s b = refl
run-row (x ∷ xs) s b =
    ap (λ l. run xs b (length s + 1) l) (fill-row x s [] b)
    ∙ (ap (λ n. run xs b n (row (x ∷ s) [] b)) longer ∙ run-row xs (x ∷ s) b)
  where
    longer : length s + 1 ≡ length (x ∷ s)
    longer = omega arith

first_row-row : (t ys : Str) → first_row (length t) ys ≡ row [] t ys
unfolding first_row row edits
first_row-row t [] = refl
first_row-row t (y ∷ ys) =
    ap (λ l. length t ∷ l) (ap (λ n. first_row n ys) longer ∙ first_row-row (y ∷ t) ys)
  where
    longer : length t + 1 ≡ length (y ∷ t)
    longer = omega arith

last-row : (s t ys : Str) → last (row s t ys) ≡ edits s (turned ys t)
unfolding last row turned
last-row s t [] = refl
last-row s t (y ∷ []) = refl
last-row s t (y ∷ z ∷ zs) = last-row s (y ∷ t) (z ∷ zs)

cell-zero : (up left : ℕ) → cell up left 0 ≡ 0
unfolding cell
cell-zero up left = ground arith

cost_refl : (x : ℕ) → cost x x ≡ 0
unfolding cost
cost_refl x = ground arith

edits_refl : (s : Str) → edits s s ≡ 0
unfolding edits
edits_refl [] = refl
edits_refl (x ∷ s) =
    let none_needed : edits s s + cost x x ≡ 0 = omega (arith, edits_refl s, cost_refl x) in
    ap (λ n. cell (edits s (x ∷ s)) (edits (x ∷ s) s) n) none_needed
    ∙ cell-zero (edits s (x ∷ s)) (edits (x ∷ s) s)

-- The two rows compute the recursive edit distance of the two texts, read from their last characters
-- on, and the shortcut for equal texts agrees with it.
pub edit_distance_lem : (a b : Str) → edit_distance a b ≡ edits (turned a []) (turned b [])
unfolding edit_distance
edit_distance_lem a b = elim (Bool-cases (str_eq a b)) [
  | inl e ↦
      rw (e, edit_distance)
        (sym (
          ap (λ c. edits (turned a []) (turned c [])) (sym ((str_eq_iff a b).0 e))
          ∙ edits_refl (turned a [])))
  | inr e ↦
      rw (e, edit_distance)
        (ap (λ l. last (run a b 0 l)) (first_row-row [] b)
          ∙ (ap last (run-row a [] b) ∙ last-row (turned a []) [] b))
]
