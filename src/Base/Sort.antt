-- ===== src/Base/Sort.antt =====
-- The package sort: a stable sort by insertion, which is sort.SliceStable (and sort.Slice up to
-- ties) for a strict weak order, and sort.Strings.
use mathlib.Core.Path.{◌≡◌, refl, sym, ap, ◌∙◌}
use mathlib.Core.Logic.{◌↔◌, ◌⊎◌, inl, inr}
use mathlib.Core.Bool.{Bool, false}
use mathlib.Core.List.{List, [], ◌∷◌, ◌++◌}
use mathlib.Core.List.Permᴰ.{Permᴰ, nil, cons, swap, trans}
use native.Mathlib.Omega.{arith}
use Prim.Native.Nat.{suc, ◌+◌}
use kgraph.Base.Tests.{if◌then◌else◌, Bool-cases}
use kgraph.Base.Lists.{In, in-append, SameMembers, length}
use kgraph.Base.Text.{Str, str_lt, str_lt_trans, str_lt_asymm, str_lt_total}

module _ {ℓ} {A : Type ℓ} (less : A → A → Bool) where
  unfoldable pub insert : A → List A → List A
  insert x [] = x ∷ []
  insert x (y ∷ ys) = let rest = insert x ys in if less x y then x ∷ y ∷ ys else y ∷ rest

  insert_all : List A → List A → List A
  insert_all acc [] = acc
  insert_all acc (x ∷ xs) = insert_all (insert x acc) xs

  unfoldable pub sort_by : List A → List A
  unfolding insert_all
  sort_by xs = insert_all [] xs

  length-insert : (x : A) (ys : List A) → length (insert x ys) ≡ suc (length ys)
  unfolding insert
  length-insert x [] = refl
  length-insert x (y ∷ ys) = ground (arith, length-insert x ys)

  length-insert_all : (acc xs : List A) → length (insert_all acc xs) ≡ length acc + length xs
  unfolding insert_all
  length-insert_all acc [] = omega arith
  length-insert_all acc (x ∷ xs) =
      omega (arith, length-insert_all (insert x acc) xs, length-insert x acc)

  pub length-sort_by : (xs : List A) → length (sort_by xs) ≡ length xs
  unfolding sort_by
  length-sort_by xs = omega (arith, length-insert_all [] xs)

module _ {A : Type 0} (less : A → A → Bool) where
  in-insert : (a x : A) (ys : List A) → In a (insert less x ys) ↔ ((a ≡ x) ⊎ In a ys)
  unfolding insert
  in-insert a x [] = (λ h. h, λ h. h)
  in-insert a x (y ∷ ys) = ground (arith, in-insert a x ys)

  in-insert_all : (a : A) (acc xs : List A) → In a (insert_all less acc xs) ↔ (In a acc ⊎ In a xs)
  unfolding insert_all
  in-insert_all a acc [] = (inl, λ h. elim h [ inl i ↦ i | inr e ↦ absurd e ])
  in-insert_all a acc (x ∷ xs) =
      ground (arith, in-insert_all a (insert less x acc) xs, in-insert a x acc)

  -- Sorting keeps the members.
  pub in-sort_by : (a : A) (xs : List A) → In a (sort_by less xs) ↔ In a xs
  unfolding sort_by
  in-sort_by a xs = ground (arith, in-insert_all a [] xs)

unfoldable pub sort_strings : List Str → List Str
sort_strings = sort_by str_lt

pub in-sort_strings : (a : Str) (xs : List Str) → In a (sort_strings xs) ↔ In a xs
unfolding sort_strings
in-sort_strings a xs = in-sort_by str_lt a xs

pub length-sort_strings : (xs : List Str) → length (sort_strings xs) ≡ length xs
unfolding sort_strings
length-sort_strings xs = length-sort_by str_lt xs

-- Every text of the list is at least `s`.
abbrev pub AtLeast : Str → List Str → Type 0
AtLeast s [] = Unit
AtLeast s (x ∷ xs) = (str_lt x s ≡ false) × AtLeast s xs

abbrev pub IsSorted : List Str → Type 0
IsSorted [] = Unit
IsSorted (x ∷ xs) = AtLeast x xs × IsSorted xs

str_le_trans : (s t u : Str) → str_lt t s ≡ false → str_lt u t ≡ false → str_lt u s ≡ false
str_le_trans s t u h k = elim (Bool-cases (str_lt u s)) [
  | inr n ↦ n
  | inl l ↦ elim (Bool-cases (str_lt s t)) [
    | inl m ↦ cc (str_lt_trans u s t l m)
    | inr n ↦ cc (str_lt_total s t n h)
  ]
]

AtLeast-weaken : (s t : Str) (xs : List Str) → str_lt t s ≡ false → AtLeast t xs → AtLeast s xs
AtLeast-weaken s t [] h k = tt
AtLeast-weaken s t (x ∷ xs) h k = (str_le_trans s t x h k.0, AtLeast-weaken s t xs h k.1)

AtLeast-insert :
    (s x : Str) (ys : List Str) → str_lt x s ≡ false → AtLeast s ys → AtLeast s (insert str_lt x ys)
unfolding insert
AtLeast-insert s x [] h k = (h, tt)
AtLeast-insert s x (y ∷ ys) h k = ground (arith, AtLeast-insert s x ys)

IsSorted-insert : (x : Str) (ys : List Str) → IsSorted ys → IsSorted (insert str_lt x ys)
unfolding insert
IsSorted-insert x [] h = (tt, tt)
IsSorted-insert x (y ∷ ys) h = elim (Bool-cases (str_lt x y)) [
  | inl l ↦ rw l ((str_lt_asymm x y l, AtLeast-weaken x y ys (str_lt_asymm x y l) h.0), h)
  | inr n ↦ rw n (AtLeast-insert y x ys n h.0, IsSorted-insert x ys h.1)
]

IsSorted-insert_all : (acc xs : List Str) → IsSorted acc → IsSorted (insert_all str_lt acc xs)
unfolding insert_all
IsSorted-insert_all acc [] h = h
IsSorted-insert_all acc (x ∷ xs) h =
    IsSorted-insert_all (insert str_lt x acc) xs (IsSorted-insert x acc h)

pub IsSorted-sort_strings : (xs : List Str) → IsSorted (sort_strings xs)
unfolding sort_strings sort_by
IsSorted-sort_strings xs = IsSorted-insert_all [] xs tt

-- No text stands twice.
insert-insert :
    (a b : Str) (xs : List Str)
    → insert str_lt a (insert str_lt b xs) ≡ insert str_lt b (insert str_lt a xs)
unfolding insert
insert-insert a b [] = ground (arith, str_lt_total a b, str_lt_asymm a b)
insert-insert a b (y ∷ ys) = ground (
  arith,
  str_lt_total a b,
  str_lt_asymm a b,
  str_lt_trans a b y,
  str_lt_trans b a y,
  insert-insert a b ys,
)

insert_all-Permᴰ :
    {xs ys : List Str}
    → Permᴰ xs ys
    → (acc : List Str) → insert_all str_lt acc xs ≡ insert_all str_lt acc ys
unfolding insert_all
insert_all-Permᴰ nil acc = refl
insert_all-Permᴰ (cons {a} {b} {l₁} {l₂} e p) acc =
    ap (λ x. insert_all str_lt (insert str_lt x acc) l₁) e
    ∙ insert_all-Permᴰ p (insert str_lt b acc)
insert_all-Permᴰ (swap {a} {b} {a'} {b'} {l} e f) acc =
    ap (λ m. insert_all str_lt m l) (insert-insert b a acc ∙ cc (e, f))
insert_all-Permᴰ (trans p q) acc = insert_all-Permᴰ p acc ∙ insert_all-Permᴰ q acc

-- Sorting forgets the order, up to a proof that two lists are permutations.
pub sort_strings-Permᴰ : {xs ys : List Str} → Permᴰ xs ys → sort_strings xs ≡ sort_strings ys
unfolding sort_strings sort_by
sort_strings-Permᴰ p = insert_all-Permᴰ p []

abbrev pub NoRepeat : {A : Type 0} → List A → Type 0
NoRepeat [] = Unit
NoRepeat (x ∷ xs) = (¬ In x xs) × NoRepeat xs

pub NoRepeat-concat :
    {A : Type 0} (xs : List A) (x : A) → NoRepeat xs → ¬ In x xs → NoRepeat (xs ++ x ∷ [])
NoRepeat-concat [] x u n = ((λ i. i), tt)
NoRepeat-concat (y ∷ ys) x u n = (
  λ i. elim ((in-append y ys (x ∷ [])).0 i) [
    | inl j ↦ u.0 j
    | inr j ↦ elim j [ inl e ↦ n (inl (sym e)) | inr k ↦ k ]
  ],
  NoRepeat-concat ys x u.1 (λ i. n (inr i)),
)

AtLeast-in : (s a : Str) (xs : List Str) → AtLeast s xs → In a xs → str_lt a s ≡ false
AtLeast-in s a [] h i = absurd i
AtLeast-in s a (x ∷ xs) h (inl e) = rw e h.0
AtLeast-in s a (x ∷ xs) h (inr i) = AtLeast-in s a xs h.1 i

-- Two sorted lists with the same members and no repetition are one list, so what is sorted does
-- not show the order in which a Go map was read.
pub IsSorted-unique :
    (xs ys : List Str)
    → IsSorted xs
    → IsSorted ys
    → NoRepeat xs
    → NoRepeat ys
    → SameMembers xs ys
    → xs ≡ ys
IsSorted-unique [] [] sx sy nx ny h = refl
IsSorted-unique [] (y ∷ ys) sx sy nx ny h = absurd ((h y).1 (inl refl))
IsSorted-unique (x ∷ xs) [] sx sy nx ny h = absurd ((h x).0 (inl refl))
IsSorted-unique (x ∷ xs) (y ∷ ys) sx sy nx ny h =
    let same : x ≡ y = heads ((h x).0 (inl refl)) ((h y).1 (inl refl)) in
    λ i. same i ∷ IsSorted-unique xs ys sx.1 sy.1 nx.1 ny.1 (tails same) i
  where
    heads : In x (y ∷ ys) → In y (x ∷ xs) → x ≡ y
    heads (inl e) k = e
    heads (inr i) (inl e) = sym e
    heads (inr i) (inr k) = str_lt_total x y (AtLeast-in y x ys sy.0 i) (AtLeast-in x y xs sx.0 k)

    tails : x ≡ y → SameMembers xs ys
    tails e a = (
      λ i. elim ((h a).0 (inr i)) [ inl p ↦ absurd (nx.0 (rw (e ∙ sym p) i)) | inr q ↦ q ],
      λ i. elim ((h a).1 (inr i)) [ inl p ↦ absurd (ny.0 (rw (sym e ∙ sym p) i)) | inr q ↦ q ],
    )
