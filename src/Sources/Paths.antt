-- ===== src/Sources/Paths.antt =====
-- The path in front of a line of a lock file, quoted or not.
use kgraph.Base.{
  Str, ℕ, ◌≡◌, refl, ap, ◌∙◌, ◌⊎◌, inl, inr, Bool, true, false, not, ◌||◌, some, [], ◌∷◌, ◌++◌,
  append_assoc, is_space, any, keep, ltb, Bool-cases, ◌==◌, arith,
}
use kgraph.Values.{split_fields}
use kgraph.Sources.{cut_at, cut_space, split_lock_path, needs_quotes, quote_lock_path}

-- A byte of a path: no double quote, and no white space but a space or a tab.
abbrev pub Plain : Str → Type 0
Plain [] = Unit
Plain (c ∷ s) =
    ((c == 34) ≡ false) × ((is_space c ≡ false) ⊎ (((c == 32) || (c == 9)) ≡ true)) × Plain s

-- A path that a lock file can hold: not empty, no comment, of plain bytes, and opening with an ASCII
-- byte unless it is quoted, since strings.TrimSpace of the line would take a Unicode space there.
abbrev pub IsLockable : Str → Type 0
IsLockable [] = ⊥
IsLockable (c ∷ s) =
    ((c == 35) ≡ false) × Plain (c ∷ s) × ((ltb c 128 ≡ true) ⊎ (needs_quotes (c ∷ s) ≡ true))

-- The mark is found behind a text that does not hold it.
cut_at-found :
    (mark : ℕ) (p rest : Str)
    → any (λ c. c == mark) p ≡ false
    → cut_at mark (p ++ (mark ∷ rest)) ≡ some (p, rest)
unfolding cut_at any
cut_at-found mark [] rest h = rw (self mark)
  where
    self : (m : ℕ) → (m == m) ≡ true
    self m = ground arith
cut_at-found mark (c ∷ p) rest h = elim (Bool-cases (c == mark)) [
  | inl e ↦ cc (rw e at h)
  | inr e ↦ rw e (rw (cut_at-found mark p rest (rw e at h)))
]

cut_space-found :
    (p rest : Str) → any (λ c. c == 32) p ≡ false → cut_space (p ++ (32 ∷ rest)) ≡ (p, rest)
unfolding cut_space
cut_space-found p rest h = rw (cut_at-found 32 p rest h, cut_space)

Plain-no_quote : (p : Str) → Plain p → any (λ c. c == 34) p ≡ false
unfolding any
Plain-no_quote [] h = refl
Plain-no_quote (c ∷ p) h = rw h.0 (Plain-no_quote p h.2)

Plain-keep : (p : Str) → Plain p → keep (λ c. not (c == 34)) p ≡ p
unfolding keep
Plain-keep [] h = refl
Plain-keep (c ∷ p) h = rw h.0 (ap (λ s. c ∷ s) (Plain-keep p h.2))

unquoted-no_space : (p : Str) → needs_quotes p ≡ false → any (λ c. c == 32) p ≡ false
unfolding needs_quotes any
unquoted-no_space [] h = refl
unquoted-no_space (c ∷ p) h = elim (Bool-cases (c == 32)) [
  | inl e ↦ cc (rw e at h)
  | inr e ↦ rw e (unquoted-no_space p (later (rest_false _ _ h)))
]
  where
    rest_false : (a b : Bool) → (a || b) ≡ false → b ≡ false
    rest_false true b k = cc k
    rest_false false b k = k

    later : any (λ x. (x == 32) || (x == 9) || (x == 34)) p ≡ false → needs_quotes p ≡ false
    later k = k

split_fields-blank : (rest : Str) → split_fields [] (32 ∷ rest) ≡ split_fields [] rest
unfolding split_fields
split_fields-blank rest = refl

-- The path in front of a line, quoted or not, is found again.
pub split-quote_lock_path :
    (p rest : Str)
    → IsLockable p
    → (tail : Str) × (split_lock_path (quote_lock_path p ++ (32 ∷ rest)) ≡ some (p, tail))
      × (split_fields [] tail ≡ split_fields [] rest)
unfolding split_lock_path quote_lock_path
split-quote_lock_path [] rest h = absurd h
split-quote_lock_path (c ∷ p) rest h = elim (Bool-cases (needs_quotes (c ∷ p))) [
  | inl e ↦ (
    32 ∷ rest,
    rw e (
        rw (Plain-keep (c ∷ p) h.1) (
          ap (cut_at 34) (append_assoc (c ∷ p) (34 ∷ []) (32 ∷ rest))
          ∙ cut_at-found 34 (c ∷ p) (32 ∷ rest) (Plain-no_quote (c ∷ p) h.1))),
    split_fields-blank rest,
  )
  | inr e ↦ (
    rest,
    rw (e, h.1.0) (ap some (cut_space-found (c ∷ p) rest (unquoted-no_space (c ∷ p) e))),
    refl,
  )
]

-- The first byte of a line is that of its path, or a double quote.
abbrev pub Opens : Str → Type 0
Opens [] = ⊥
Opens (c ∷ s) = (is_space c ≡ false) × ((c == 35) ≡ false)

is_space-double_quote : is_space 34 ≡ false
unfolding is_space
is_space-double_quote = refl

unquoted-solid :
    (c : ℕ) (p : Str)
    → needs_quotes (c ∷ p) ≡ false
    → ((is_space c ≡ false) ⊎ (((c == 32) || (c == 9)) ≡ true))
    → is_space c ≡ false
unfolding needs_quotes any
unquoted-solid c p e (inl s) = s
unquoted-solid c p e (inr s) = ground arith

pub quote_lock_path-Opens : (p : Str) → IsLockable p → Opens (quote_lock_path p)
unfolding quote_lock_path
quote_lock_path-Opens [] h = absurd h
quote_lock_path-Opens (c ∷ p) h = elim (Bool-cases (needs_quotes (c ∷ p))) [
  | inl e ↦ rw e (is_space-double_quote, refl)
  | inr e ↦ rw e (unquoted-solid c p e h.1.1, h.0)
]
