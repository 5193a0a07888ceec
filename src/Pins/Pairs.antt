-- ===== src/Pins/Pairs.antt =====
-- The nodes and hashes that a pin holds, of diff.go.
use kgraph.Base.{
  Str, ◌≡◌, refl, sym, ap, subst, ◌∙◌, ◌↔◌, ◌⊎◌, inl, inr, Bool, true, false, none, some, List, [],
  ◌∷◌, arith, In, in-keep, keep, is_empty, str_eq, str_eq_iff, str_eq_refl, Bool-cases, NoRepeat,
  sort_strings, in-sort_strings,
}
use kgraph.Pins.{order_of, hash_of, is_pinned, or_blank, equal}

pub equal_refl : (xs : List Str) → equal xs xs ≡ true
unfolding equal
equal_refl [] = refl
equal_refl (x ∷ xs) = ground (arith, str_eq_refl x, equal_refl xs)

pub equal_sound : (xs ys : List Str) → equal xs ys ≡ true → xs ≡ ys
unfolding equal
equal_sound [] [] h = refl
equal_sound [] (y ∷ ys) h = cc h
equal_sound (x ∷ xs) [] h = cc h
equal_sound (x ∷ xs) (y ∷ ys) h = ground (arith, str_eq_iff x y, equal_sound xs ys)

head_or : Str → List Str → Str
head_or d [] = d
head_or d (x ∷ xs) = x

rest_of : List Str → List Str
rest_of [] = []
rest_of (x ∷ xs) = xs

-- A list is empty exactly when it has no member.
pub is_empty_iff : (xs : List Str) → (is_empty xs ≡ true) ↔ ((a : Str) → ¬ In a xs)
is_empty_iff [] = (λ h a i. i, λ h. refl)
is_empty_iff (x ∷ xs) = (λ h. cc h, λ h. absurd (h x (inl refl)))

hash_of-cases :
    (m : List (Str × Str)) (id : Str)
    → ((hash_of m id ≡ none) × (¬ In id (order_of m)))
      ⊎ ((v : Str) × (hash_of m id ≡ some v) × In id (order_of m))
unfolding hash_of order_of
hash_of-cases [] id = inl (refl, λ i. i)
hash_of-cases ((k, v) ∷ m) id = elim (hash_of-cases m id) [
  | inr (w, e, i) ↦ inr (w, rw (e, hash_of), inr i)
  | inl (e, n) ↦ elim (Bool-cases (str_eq k id)) [
    | inl s ↦ inr (v, rw (e, s, hash_of), inl (sym ((str_eq_iff k id).0 s)))
    | inr s ↦ inl (
      rw (e, s, hash_of),
      λ i. elim i [ inl q ↦ cc (s, (str_eq_iff k id).1 (sym q)) | inr j ↦ n j ],
    )
  ]
]

pub is_pinned_iff : (m : List (Str × Str)) (id : Str) → (is_pinned m id ≡ true) ↔ In id (order_of m)
unfolding is_pinned
is_pinned_iff m id = elim (hash_of-cases m id) [
  | inl (e, n) ↦ rw (e, is_pinned) (λ h. cc h, λ i. absurd (n i))
  | inr (v, e, i) ↦ rw (e, is_pinned) (λ h. i, λ h. refl)
]

-- Where the id stands once, the map holds its own hash.
hash_of-head :
    (k v : Str) (m : List (Str × Str)) → ¬ In k (order_of m) → or_blank (hash_of ((k, v) ∷ m) k) ≡ v
unfolding hash_of or_blank
hash_of-head k v m h = elim (hash_of-cases m k) [
  | inl (e, n) ↦ rw (e, str_eq_refl k, hash_of)
  | inr (w, e, i) ↦ absurd (h i)
]

hash_of-tail :
    (k v id : Str) (m : List (Str × Str))
    → In id (order_of m)
    → hash_of ((k, v) ∷ m) id ≡ hash_of m id
unfolding hash_of
hash_of-tail k v id m i = elim (hash_of-cases m id) [
  | inl (e, n) ↦ absurd (n i)
  | inr (w, e, j) ↦ rw (e, hash_of)
]

-- Two lists with the same order and the same hashes are one list, where each id stands once.
pub same_pairs :
    (m n : List (Str × Str))
    → order_of m ≡ order_of n
    → NoRepeat (order_of m)
    → ((id : Str) → In id (order_of m) → or_blank (hash_of m id) ≡ or_blank (hash_of n id))
    → m ≡ n
unfolding order_of hash_of or_blank head_or rest_of
same_pairs [] [] e u h = refl
same_pairs [] (p ∷ n) e u h = cc e
same_pairs (p ∷ m) [] e u h = cc e
same_pairs ((k, v) ∷ m) ((j, w) ∷ n) e u h =
    λ i. (heads i, values i) ∷ same_pairs m n tails u.1 below i
  where
    heads : k ≡ j
    heads = ap (head_or k) e

    tails : order_of m ≡ order_of n
    tails = ap rest_of e

    values : v ≡ w
    values =
        sym (hash_of-head k v m u.0)
        ∙ h k (inl refl)
        ∙ subst (λ x. or_blank (hash_of ((j, w) ∷ n) x) ≡ w) (sym heads)
            (hash_of-head j w n (λ q. u.0 (rw (heads, tails) q)))

    below : (id : Str) → In id (order_of m) → or_blank (hash_of m id) ≡ or_blank (hash_of n id)
    below id q =
        ap or_blank (sym (hash_of-tail k v id m q))
        ∙ h id (inr q)
        ∙ ap or_blank (hash_of-tail j w id n (rw (← tails) q))

-- The filter keeps nothing exactly when it passes nothing.
pub is_empty-keep :
    (p : Str → Bool) (xs : List Str)
    → (is_empty (keep p xs) ≡ true) ↔ ((a : Str) → In a xs → p a ≡ false)
is_empty-keep p xs = (
  λ h a i. elim (Bool-cases (p a)) [
    | inl e ↦ absurd ((is_empty_iff (keep p xs)).0 h a ((in-keep p a xs).1 (i, e)))
    | inr e ↦ e
  ],
  λ h. (is_empty_iff (keep p xs)).1 (λ a i. let (j, e) = (in-keep p a xs).0 i in cc (h a j, e)),
)

pub is_empty-sort_strings : (xs : List Str) → is_empty (sort_strings xs) ≡ true → is_empty xs ≡ true
is_empty-sort_strings xs h =
    (is_empty_iff xs).1 (λ a i. (is_empty_iff (sort_strings xs)).0 h a ((in-sort_strings a xs).1 i))
