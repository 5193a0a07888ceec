-- ===== src/Base/Map.antt =====
-- Go maps as lists of pairs.
use mathlib.Core.Path.{◌≡◌, refl, ap, sym, subst}
use mathlib.Core.Logic.{◌⊎◌, inl, inr}
use mathlib.Core.Option.{Option, none, some}
use mathlib.Core.List.{List, [], ◌∷◌}
use native.Mathlib.Omega.{arith}
use kgraph.Base.Tests.{if◌then◌else◌, Bool-cases}
use kgraph.Base.Lists.{In}
use kgraph.Base.Text.{Str, str_eq, str_eq_iff}
use kgraph.Base.Sort.{NoRepeat}

-- m[k], with `none` where the key is missing.
unfoldable pub find_key {ℓ} : {V : Type ℓ} → List (Str × V) → Str → Option V
find_key [] k = none
find_key ((j, v) ∷ rest) k = if str_eq j k then some v else find_key rest k

-- m[k] = v
unfoldable pub put_key {ℓ} : {V : Type ℓ} → Str → V → List (Str × V) → List (Str × V)
put_key k v [] = (k, v) ∷ []
put_key k v ((j, w) ∷ m) =
    let rest = put_key k v m in if str_eq j k then (k, v) ∷ m else (j, w) ∷ rest

-- The keys of a map, each of which stands once.
abbrev pub keys_of {ℓ} : {V : Type ℓ} → List (Str × V) → List Str
keys_of [] = []
keys_of ((k, v) ∷ rest) = k ∷ keys_of rest

abbrev pub IsMap {ℓ} : {V : Type ℓ} → List (Str × V) → Type 0
IsMap m = NoRepeat (keys_of m)

module _ {V : Type 0} where
  pub find_key-in : (m : List (Str × V)) (k : Str) (v : V) → find_key m k ≡ some v → In (k, v) m
  unfolding find_key
  find_key-in [] k v h = cc
  find_key-in ((j, w) ∷ m) k v h = elim (Bool-cases (str_eq j k)) [
    | inl e ↦
        let p = (str_eq_iff j k).0 e in
        let q : some w ≡ some v = rw (e, find_key) at h in inl (λ i. (sym p i, value (sym q) i))
    | inr e ↦ inr (find_key-in m k v (rw (e, find_key) at h))
  ]
    where
      value : some v ≡ some w → v ≡ w
      value q = ap (λ (o : Option V). elim o [ some x ↦ x | none ↦ v ]) q

  pub in-keys_of : (m : List (Str × V)) (k : Str) (v : V) → In (k, v) m → In k (keys_of m)
  in-keys_of [] k v i = absurd i
  in-keys_of ((j, w) ∷ m) k v (inl e) = inl (ap (λ (p : Str × V). p.0) e)
  in-keys_of ((j, w) ∷ m) k v (inr i) = inr (in-keys_of m k v i)

  -- In a map a member is what a read of its key returns.
  pub in-find_key :
      (m : List (Str × V)) (k : Str) (v : V) → IsMap m → In (k, v) m → find_key m k ≡ some v
  unfolding find_key
  in-find_key [] k v u i = absurd i
  in-find_key ((j, w) ∷ m) k v u (inl e) =
      rw ((str_eq_iff j k).1 (sym (ap (λ (p : Str × V). p.0) e)), find_key)
        (ap some (sym (ap (λ (p : Str × V). p.1) e)))
  in-find_key ((j, w) ∷ m) k v u (inr i) = elim (Bool-cases (str_eq j k)) [
    | inl e ↦
        absurd
          (u.0 (subst (λ x. In x (keys_of m)) (sym ((str_eq_iff j k).0 e)) (in-keys_of m k v i)))
    | inr e ↦ rw (e, find_key) (in-find_key m k v u.1 i)
  ]

  pub find_key-none : (m : List (Str × V)) (k : Str) → ¬ In k (keys_of m) → find_key m k ≡ none
  unfolding find_key
  find_key-none [] k h = refl
  find_key-none ((j, w) ∷ m) k h = elim (Bool-cases (str_eq j k)) [
    | inl e ↦ absurd (h (inl (sym ((str_eq_iff j k).0 e))))
    | inr e ↦ rw (e, find_key) (find_key-none m k (λ i. h (inr i)))
  ]

  pub in-keys_of-value : (m : List (Str × V)) (k : Str) → In k (keys_of m) → (v : V) × In (k, v) m
  in-keys_of-value [] k i = absurd i
  in-keys_of-value ((j, w) ∷ m) k (inl e) = (w, inl (λ t. (e t, w)))
  in-keys_of-value ((j, w) ∷ m) k (inr i) = let (v, n) = in-keys_of-value m k i in (v, inr n)

  pub find_key-cases :
      (m : List (Str × V)) (k : Str)
      → ((find_key m k ≡ none) × (¬ In k (keys_of m)))
        ⊎ ((v : V) × (find_key m k ≡ some v) × In (k, v) m)
  unfolding find_key
  find_key-cases [] k = inl (refl, λ i. i)
  find_key-cases ((j, w) ∷ m) k = elim (Bool-cases (str_eq j k)) [
    | inl e ↦ inr (w, rw (e, find_key), inl (λ t. (sym ((str_eq_iff j k).0 e) t, w)))
    | inr e ↦ elim (find_key-cases m k) [
      | inr (v, p, i) ↦ inr (v, rw (e, find_key) p, inr i)
      | inl (p, n) ↦ inl (
        rw (e, find_key) p,
        λ i. elim i [ inl q ↦ cc (e, (str_eq_iff j k).1 (sym q)) | inr q ↦ n q ],
      )
    ]
  ]

  -- After m[k] = v, the value at k is v, and those at the other keys are as before.
  pub find_key-put_key :
      (k : Str) (v : V) (m : List (Str × V)) (j : Str)
      → find_key (put_key k v m) j ≡ (if str_eq k j then some v else find_key m j)
  unfolding find_key put_key
  find_key-put_key k v [] j = refl
  find_key-put_key k v ((i, w) ∷ m) j =
      ground (arith, str_eq_iff k j, str_eq_iff i k, str_eq_iff i j, find_key-put_key k v m j)
