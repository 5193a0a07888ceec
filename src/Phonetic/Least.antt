-- ===== src/Phonetic/Least.antt =====
-- Edits that turn one text into another.
use kgraph.Base.{
  Str, ℕ, ◌+◌, ◌≤◌, ◌≡◌, refl, sym, subst, ◌⊎◌, inl, inr, [], ◌∷◌, arith, length, ◌∙◌, ◌++◌,
  append-nil,
}
use kgraph.Phonetic.{edit_distance, edits, cell, cost, turned, edit_distance_lem}

-- `Script n s t`: n edits turn `s` into `t`, where keeping a character is no edit.
pub data Script : ℕ → Str → Str → Type 0 where
  done : Script 0 [] []
  drop_one : (n : ℕ) (s t : Str) (x : ℕ) → Script n s t → Script (n + 1) (x ∷ s) t
  add_one : (n : ℕ) (s t : Str) (y : ℕ) → Script n s t → Script (n + 1) s (y ∷ t)
  replace : (n : ℕ) (s t : Str) (x y : ℕ) → Script n s t → Script (n + cost x y) (x ∷ s) (y ∷ t)

cell-cases :
    (up left diagonal : ℕ)
    → (cell up left diagonal ≡ up + 1)
      ⊎ (cell up left diagonal ≡ left + 1)
      ⊎ (cell up left diagonal ≡ diagonal)
unfolding cell
cell-cases up left diagonal = ground arith

cell-le :
    (up left diagonal : ℕ)
    → (cell up left diagonal ≤ up + 1)
      × (cell up left diagonal ≤ left + 1)
      × (cell up left diagonal ≤ diagonal)
unfolding cell
cell-le up left diagonal = ground arith

edits-Script : (s t : Str) → Script (edits s t) s t
unfolding edits
edits-Script [] [] = done
edits-Script [] (y ∷ t) =
    subst (λ n. Script n [] (y ∷ t)) (omega arith) (add_one (length t) [] t y (edits-Script [] t))
edits-Script (x ∷ []) [] = drop_one 0 [] [] x done
edits-Script (x ∷ z ∷ s) [] =
    subst (λ n. Script n (x ∷ z ∷ s) []) (omega arith)
      (drop_one (length s + 1) (z ∷ s) [] x (edits-Script (z ∷ s) []))
edits-Script (x ∷ s) (y ∷ t) =
    elim (cell-cases (edits s (y ∷ t)) (edits (x ∷ s) t) (edits s t + cost x y)) [
      | inl e ↦
          subst (λ n. Script n (x ∷ s) (y ∷ t)) (sym e)
            (drop_one (edits s (y ∷ t)) s (y ∷ t) x (edits-Script s (y ∷ t)))
      | inr (inl e) ↦
          subst (λ n. Script n (x ∷ s) (y ∷ t)) (sym e)
            (add_one (edits (x ∷ s) t) (x ∷ s) t y (edits-Script (x ∷ s) t))
      | inr (inr e) ↦
          subst (λ n. Script n (x ∷ s) (y ∷ t)) (sym e)
            (replace (edits s t) s t x y (edits-Script s t))
    ]

edits-drop : (x : ℕ) (s t : Str) → edits (x ∷ s) t ≤ edits s t + 1
unfolding edits
edits-drop x [] [] = omega arith
edits-drop x (z ∷ s) [] = omega arith
edits-drop x s (y ∷ t) = (cell-le (edits s (y ∷ t)) (edits (x ∷ s) t) (edits s t + cost x y)).0

edits-add : (y : ℕ) (s t : Str) → edits s (y ∷ t) ≤ edits s t + 1
unfolding edits
edits-add y [] t = omega arith
edits-add y (x ∷ s) t = (cell-le (edits s (y ∷ t)) (edits (x ∷ s) t) (edits s t + cost x y)).1

edits-replace : (x y : ℕ) (s t : Str) → edits (x ∷ s) (y ∷ t) ≤ edits s t + cost x y
unfolding edits
edits-replace x y s t = (cell-le (edits s (y ∷ t)) (edits (x ∷ s) t) (edits s t + cost x y)).2

edits-least : (n : ℕ) (s t : Str) → Script n s t → edits s t ≤ n
unfolding edits
edits-least _ _ _ done = omega arith
edits-least _ _ _ (drop_one n s t x k) = omega (arith, edits-drop x s t, edits-least n s t k)
edits-least _ _ _ (add_one n s t y k) = omega (arith, edits-add y s t, edits-least n s t k)
edits-least _ _ _ (replace n s t x y k) = omega (arith, edits-replace x y s t, edits-least n s t k)

-- Edits can be read from either end.
Script-turned :
    (n m : ℕ) (s t u v : Str)
    → Script n s t
    → Script m u v
    → Script (n + m) (turned s u) (turned t v)
unfolding turned
Script-turned _ m _ _ u v done k = subst (λ n. Script n u v) (omega arith) k
Script-turned _ m _ _ u v (drop_one n s t x h) k =
    subst (λ i. Script i (turned s (x ∷ u)) (turned t v)) (omega arith)
      (Script-turned n (m + 1) s t (x ∷ u) v h (drop_one m u v x k))
Script-turned _ m _ _ u v (add_one n s t y h) k =
    subst (λ i. Script i (turned s u) (turned t (y ∷ v))) (omega arith)
      (Script-turned n (m + 1) s t u (y ∷ v) h (add_one m u v y k))
Script-turned _ m _ _ u v (replace n s t x y h) k =
    subst (λ i. Script i (turned s (x ∷ u)) (turned t (y ∷ v))) (omega arith)
      (Script-turned n (m + cost x y) s t (x ∷ u) (y ∷ v) h (replace m u v x y k))

turned_twice : (a s t : Str) → turned (turned a s) t ≡ turned s (a ++ t)
unfolding turned
turned_twice [] s t = refl
turned_twice (x ∷ a) s t = turned_twice a (x ∷ s) t

turned_back : (a : Str) → turned (turned a []) [] ≡ a
unfolding turned
turned_back a = turned_twice a [] [] ∙ append-nil a

-- The distance is the least number of insertions, deletions and substitutions that turn one text into
-- the other: so many edits do it, and no fewer.
pub edit_distance-least :
    (a b : Str) → Script (edit_distance a b) a b × ((n : ℕ) → Script n a b → edit_distance a b ≤ n)
edit_distance-least a b =
    let e = edit_distance_lem a b in
    let best : Script (edit_distance a b) (turned a []) (turned b []) =
      subst (λ n. Script n (turned a []) (turned b [])) (sym e)
        (edits-Script (turned a []) (turned b [])) in
    (
      forward (edit_distance a b) best,
      λ n k.
          let h =
            edits-least (n + 0) (turned a []) (turned b []) (Script-turned n 0 a b [] [] k done) in
          omega (arith, e, h),
    )
  where
    forward : (n : ℕ) → Script n (turned a []) (turned b []) → Script n a b
    forward n k =
        subst (λ u. Script n u b) (turned_back a)
          (subst (λ v. Script n (turned (turned a []) []) v) (turned_back b)
            (subst (λ i. Script i (turned (turned a []) []) (turned (turned b []) [])) (omega arith)
              (Script-turned n 0 (turned a []) (turned b []) [] [] k done)))
