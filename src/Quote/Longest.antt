-- ===== src/Quote/Longest.antt =====
-- What wordRatio of nearquote.go counts.
use kgraph.Base.{
  Str, ℕ, ◌+◌, ◌*◌, ◌≤◌, ◌≡◌, refl, sym, subst, ◌∙◌, ◌⊎◌, inl, inr, Bool, true, List, [], ◌∷◌, ◌++◌,
  append-nil, arith, length, str_eq, str_eq_iff, str_eq_refl,
}
use kgraph.Quote.{shared_cell, shared_words}
use kgraph.Quote.Table.{shared, turned, shared_words_lem}

-- `Common n s t`: n words stand in both lists, in one order.
pub data Common : ℕ → List Str → List Str → Type 0 where
  nothing : Common 0 [] []
  skip_left : (n : ℕ) (s t : List Str) (x : Str) → Common n s t → Common n (x ∷ s) t
  skip_right : (n : ℕ) (s t : List Str) (y : Str) → Common n s t → Common n s (y ∷ t)
  both : (n : ℕ) (s t : List Str) (x : Str) → Common n s t → Common (n + 1) (x ∷ s) (x ∷ t)

shared-nil : (s : List Str) → shared s [] ≡ 0
unfolding shared
shared-nil [] = refl
shared-nil (x ∷ s) = refl

cell-cases :
    (same : Bool) (up left diagonal : ℕ)
    → ((same ≡ true) × (shared_cell same up left diagonal ≡ diagonal + 1))
      ⊎ (shared_cell same up left diagonal ≡ up)
      ⊎ (shared_cell same up left diagonal ≡ left)
unfolding shared_cell
cell-cases same up left diagonal = ground arith

-- A cell is at most one more than its neighbours, and not less.
cell-near :
    (same : Bool) (up left diagonal : ℕ)
    → diagonal ≤ up
    → up ≤ diagonal + 1
    → diagonal ≤ left
    → left ≤ diagonal + 1
    → (up ≤ shared_cell same up left diagonal)
      × (shared_cell same up left diagonal ≤ up + 1)
      × (left ≤ shared_cell same up left diagonal)
      × (shared_cell same up left diagonal ≤ left + 1)
unfolding shared_cell
cell-near same up left diagonal a b c d = ground arith

-- A word more on one side counts for one at most, and never less.
shared-near :
    (x y : Str) (s t : List Str)
    → (shared s t ≤ shared (x ∷ s) t)
      × (shared (x ∷ s) t ≤ shared s t + 1)
      × (shared s t ≤ shared s (y ∷ t))
      × (shared s (y ∷ t) ≤ shared s t + 1)
unfolding shared
shared-near x y [] [] = (omega arith, omega arith, omega arith, omega arith)
shared-near x y [] (b ∷ t) =
    let (a, c, d, e) = shared-near x b [] t in
    let (f, g, h, i) =
      cell-near (str_eq x b) (shared [] (b ∷ t)) (shared (x ∷ []) t) (shared [] t) d e a c in
    (f, g, omega arith, omega arith)
shared-near x y (a ∷ s) [] =
    let (b, c, d, e) = shared-near a y s [] in
    let (f, g, h, i) =
      cell-near (str_eq a y) (shared s (y ∷ [])) (shared (a ∷ s) []) (shared s []) d e b c in
    (omega arith, omega arith, h, i)
shared-near x y (a ∷ s) (b ∷ t) =
    let (p, q, r, u) = shared-near x b (a ∷ s) t in
    let (f, g, h, i) =
      cell-near (str_eq x b) (shared (a ∷ s) (b ∷ t)) (shared (x ∷ a ∷ s) t) (shared (a ∷ s) t) r u
        p q in
    let (c, d, e, k) = shared-near a y s (b ∷ t) in
    let (l, m, n, o) =
      cell-near (str_eq a y) (shared s (y ∷ b ∷ t)) (shared (a ∷ s) (b ∷ t)) (shared s (b ∷ t)) e k
        c d in
    (f, g, n, o)

shared-Common : (s t : List Str) → Common (shared s t) s t
unfolding shared
shared-Common [] [] = nothing
shared-Common [] (y ∷ t) = skip_right 0 [] t y (shared-Common [] t)
shared-Common (x ∷ s) [] =
    skip_left 0 s [] x (subst (λ n. Common n s []) (shared-nil s) (shared-Common s []))
shared-Common (x ∷ s) (y ∷ t) =
    elim (cell-cases (str_eq x y) (shared s (y ∷ t)) (shared (x ∷ s) t) (shared s t)) [
      | inl (e, f) ↦
          subst (λ n. Common n (x ∷ s) (y ∷ t)) (sym f)
            (subst (λ z. Common (shared s t + 1) (x ∷ s) (z ∷ t)) ((str_eq_iff x y).0 e)
              (both (shared s t) s t x (shared-Common s t)))
      | inr (inl f) ↦
          subst (λ n. Common n (x ∷ s) (y ∷ t)) (sym f)
            (skip_left (shared s (y ∷ t)) s (y ∷ t) x (shared-Common s (y ∷ t)))
      | inr (inr f) ↦
          subst (λ n. Common n (x ∷ s) (y ∷ t)) (sym f)
            (skip_right (shared (x ∷ s) t) (x ∷ s) t y (shared-Common (x ∷ s) t))
    ]

shared-both : (x : Str) (s t : List Str) → shared (x ∷ s) (x ∷ t) ≡ shared s t + 1
unfolding shared shared_cell
shared-both x s t = rw (str_eq_refl x)

shared-most : (n : ℕ) (s t : List Str) → Common n s t → n ≤ shared s t
unfolding shared
shared-most _ _ _ nothing = omega arith
shared-most _ _ _ (skip_left n s t x k) =
    omega (arith, shared-most n s t k, (shared-near x x s t).0)
shared-most _ _ _ (skip_right n s t y k) =
    omega (arith, shared-most n s t k, (shared-near y y s t).2)
shared-most _ _ _ (both n s t x k) = omega (arith, shared-most n s t k, shared-both x s t)

Common-length : (n : ℕ) (s t : List Str) → Common n s t → (n ≤ length s) × (n ≤ length t)
Common-length _ _ _ nothing = (omega arith, omega arith)
Common-length _ _ _ (skip_left n s t x k) =
    let (a, b) = Common-length n s t k in (omega (arith, a), b)
Common-length _ _ _ (skip_right n s t y k) =
    let (a, b) = Common-length n s t k in (a, omega (arith, b))
Common-length _ _ _ (both n s t x k) =
    let (a, b) = Common-length n s t k in (omega (arith, a), omega (arith, b))

-- What stands in both lists can be read from either end.
Common-turned :
    (n m : ℕ) (s t u v : List Str)
    → Common n s t
    → Common m u v
    → Common (n + m) (turned s u) (turned t v)
unfolding turned
Common-turned _ m _ _ u v nothing k = subst (λ n. Common n u v) (omega arith) k
Common-turned _ m _ _ u v (skip_left n s t x h) k =
    Common-turned n m s t (x ∷ u) v h (skip_left m u v x k)
Common-turned _ m _ _ u v (skip_right n s t y h) k =
    Common-turned n m s t u (y ∷ v) h (skip_right m u v y k)
Common-turned _ m _ _ u v (both n s t x h) k =
    subst (λ i. Common i (turned s (x ∷ u)) (turned t (x ∷ v))) (omega arith)
      (Common-turned n (m + 1) s t (x ∷ u) (x ∷ v) h (both m u v x k))

turned_twice : (a s t : List Str) → turned (turned a s) t ≡ turned s (a ++ t)
unfolding turned
turned_twice [] s t = refl
turned_twice (x ∷ a) s t = turned_twice a (x ∷ s) t

turned_back : (a : List Str) → turned (turned a []) [] ≡ a
unfolding turned
turned_back a = turned_twice a [] [] ∙ append-nil a

-- wordRatio counts the most words that stand in both lists in one order, and never more than either
-- list has, so that the ratio of twice the count and the number of all words is at most one.
pub shared_words-most :
    (a b : List Str)
    → Common (shared_words a b) a b
      × ((n : ℕ) → Common n a b → n ≤ shared_words a b)
      × (2 * shared_words a b ≤ length a + length b)
shared_words-most a b =
    let e = shared_words_lem a b in
    let best : Common (shared_words a b) (turned a []) (turned b []) =
      subst (λ n. Common n (turned a []) (turned b [])) (sym e)
        (shared-Common (turned a []) (turned b [])) in
    let found = forward (shared_words a b) best in
    let (p, q) = Common-length (shared_words a b) a b found in
    (
      found,
      λ n k.
          let h =
            shared-most (n + 0) (turned a []) (turned b [])
              (Common-turned n 0 a b [] [] k nothing) in
          omega (arith, e, h),
      omega (arith, p, q),
    )
  where
    forward : (n : ℕ) → Common n (turned a []) (turned b []) → Common n a b
    forward n k =
        subst (λ u. Common n u b) (turned_back a)
          (subst (λ v. Common n (turned (turned a []) []) v) (turned_back b)
            (subst (λ i. Common i (turned (turned a []) []) (turned (turned b []) [])) (omega arith)
              (Common-turned n 0 (turned a []) (turned b []) [] [] k nothing)))
