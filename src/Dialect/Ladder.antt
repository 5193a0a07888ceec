-- ===== src/Dialect/Ladder.antt =====
-- The ladder of a dialect.
use kgraph.Base.{
  Str, ◌≡◌, refl, ◌↔◌, ◌⊎◌, inl, inr, Bool, true, false, if◌then◌else◌, none, In, in-sort_by,
  str_eq, str_eq_iff, find_key, find_key-cases, in-keys_of, keys_of, Bool-cases, ltb,
}
use kgraph.Dialect.{Dialect, rank_of, ladder, valid_class, legal, engineering, weight}

-- A class may be authored exactly when it governs or stands on the ladder.
pub valid_class_exact :
    (d : Dialect) (class : Str)
    → (valid_class d class ≡ true) ↔ ((class ≡ d.governs) ⊎ In class (ladder d))
unfolding valid_class ladder
valid_class_exact d class = (
  λ v. elim (Bool-cases (str_eq class d.governs)) [
    | inl e ↦ inl ((str_eq_iff class d.governs).0 e)
    | inr e ↦ elim (find_key-cases d.rank class) [
      | inr (r, p, i) ↦ inr (climb (in-keys_of d.rank class r i))
      | inl (p, n) ↦ cc (rw (e, p, valid_class, rank_of) at v)
    ]
  ],
  λ h. elim h [
    | inl e ↦ rw ((str_eq_iff class d.governs).1 e, valid_class)
    | inr i ↦ elim (find_key-cases d.rank class) [
      | inl (p, n) ↦ absurd (n (down i))
      | inr (r, p, j) ↦ rw (p, valid_class, rank_of) (either (str_eq class d.governs))
    ]
  ],
)
  where
    stronger : Str → Str → Bool
    stronger a b = ltb (weight (rank_of d b)) (weight (rank_of d a))

    climb : In class (keys_of d.rank) → In class (ladder d)
    climb i = (in-sort_by stronger class (keys_of d.rank)).1 i

    down : In class (ladder d) → In class (keys_of d.rank)
    down i = (in-sort_by stronger class (keys_of d.rank)).0 i

    either : (b : Bool) → (if b then true else true) ≡ true
    either true = refl
    either false = refl

-- The class that governs has no rank in either built-in dialect.
governing_unranked :
    (rank_of legal legal.governs ≡ none) × (rank_of engineering engineering.governs ≡ none)
unfolding rank_of legal engineering find_key str_eq
governing_unranked = (refl, refl)
