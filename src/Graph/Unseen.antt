-- ===== src/Graph/Unseen.antt =====
-- How many nodes a walk has not seen: the measure that ends the walks of the program.
use kgraph.Base.{
  In, has_iff, find_key, Str, ℕ, suc, ◌≤◌, ◌<◌, ◌≡◌, false, if◌then◌else◌, some, List, [], ◌∷◌,
  arith, has, str_eq, str_eq_sound, Bool-cases, inl, inr, length,
}

pub unseen : {V : Type 0} → List (Str × V) → List Str → ℕ
unseen [] seen = 0
unseen ((id, n) ∷ rest) seen = if has seen id then unseen rest seen else suc (unseen rest seen)

unseen-cons-le :
    {V : Type 0} (ns : List (Str × V)) (seen : List Str) (a : Str)
    → unseen ns (a ∷ seen) ≤ unseen ns seen
unfolding unseen has
unseen-cons-le [] seen a = omega arith
unseen-cons-le ((id, n) ∷ rest) seen a = ground (arith, unseen-cons-le rest seen a)

-- Seeing a node of the graph for the first time lowers the measure.
pub unseen-cons-lt :
    {V : Type 0} (ns : List (Str × V)) (seen : List Str) (a : Str) (n : V)
    → find_key ns a ≡ some n
    → has seen a ≡ false
    → unseen ns (a ∷ seen) < unseen ns seen
unfolding unseen has find_key
unseen-cons-lt [] seen a n h k = cc
unseen-cons-lt ((id, m) ∷ rest) seen a n h k = elim (Bool-cases (str_eq id a)) [
  | inl e ↦ ground (arith, unseen-cons-le rest seen a, str_eq_sound id a e)
  | inr ne ↦ ground (arith, unseen-cons-lt rest seen a n)
]

pub unseen-le-length :
    {V : Type 0} (ns : List (Str × V)) (seen : List Str) → unseen ns seen ≤ length ns
unfolding unseen
unseen-le-length [] seen = omega arith
unseen-le-length ((id, n) ∷ rest) seen = ground (arith, unseen-le-length rest seen)

-- Seeing more leaves no more to see.
pub unseen_mono :
    {V : Type 0} (ns : List (Str × V)) (seen more : List Str)
    → ((x : Str) → In x seen → In x more)
    → unseen ns more ≤ unseen ns seen
unfolding unseen
unseen_mono [] seen more h = omega arith
unseen_mono ((id, n) ∷ rest) seen more h =
    ground (arith, unseen_mono rest seen more h, has_iff seen id, has_iff more id, h id)
