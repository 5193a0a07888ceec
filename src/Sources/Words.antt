-- ===== src/Sources/Words.antt =====
-- TrimSpace and Fields on a text of words with single spaces between them.
use mathlib.Core.List.{reverse, reverse-append}
use kgraph.Base.{
  Str, ℕ, ◌≡◌, refl, ap, ◌∙◌, inl, inr, Bool, true, false, ◌&&◌, if◌then◌else◌, [], ◌∷◌, ◌++◌,
  append_assoc, append-nil, is_space, is_empty, trim_left, trim_space, Bool-cases, List-cases,
}
use kgraph.Values.{split_fields}

-- No byte of the text is white space.
abbrev pub IsSolid : Str → Type 0
IsSolid [] = Unit
IsSolid (c ∷ s) = (is_space c ≡ false) × IsSolid s

-- The text without the white space at its end.
pub trim_end : Str → Str
trim_end [] = []
trim_end (c ∷ s) = let rest = trim_end s in if is_empty rest && is_space c then [] else c ∷ rest

is_empty-append : (x y : Str) → is_empty y ≡ false → is_empty (x ++ y) ≡ false
is_empty-append [] y h = h
is_empty-append (c ∷ x) y h = refl

trim_left-snoc :
    (xs : Str) (c : ℕ)
    → trim_left (xs ++ (c ∷ [])) ≡ (
        if is_empty (trim_left xs)
        then (if is_space c then [] else c ∷ [])
        else trim_left xs ++ (c ∷ []))
unfolding trim_left
trim_left-snoc [] c = refl
trim_left-snoc (x ∷ xs) c = elim (Bool-cases (is_space x)) [
  | inl e ↦ rw e (trim_left-snoc xs c)
  | inr e ↦ rw e
]

-- The tail of TrimSpace, read from the front.
trim_end_lem : (s : Str) → reverse (trim_left (reverse s)) ≡ trim_end s
unfolding trim_end trim_left
trim_end_lem [] = refl
trim_end_lem (c ∷ s) =
    rw (reverse-append (c ∷ []) s)
      (rw (trim_left-snoc (reverse s) c) (step (trim_left (reverse s)) (trim_end_lem s)))
  where
    step :
        (y : Str)
        → reverse y ≡ trim_end s
        → reverse (if is_empty y then (if is_space c then [] else c ∷ []) else y ++ (c ∷ []))
          ≡ (if is_empty (trim_end s) && is_space c then [] else c ∷ trim_end s)
    step [] e = elim (Bool-cases (is_space c)) [ inl h ↦ rw (← e) (rw h) | inr h ↦ rw (← e) (rw h) ]
    step (x ∷ y) e =
        reverse-append (x ∷ y) (c ∷ [])
        ∙ rw (← e) (
            rw
              (ap is_empty (reverse-append (x ∷ []) y) ∙ is_empty-append (reverse y) (x ∷ []) refl))

pub trim_end-append :
    (x y : Str) → is_empty (trim_end y) ≡ false → trim_end (x ++ y) ≡ x ++ trim_end y
unfolding trim_end
trim_end-append [] y h = refl
trim_end-append (c ∷ x) y h = rw (trim_end-append x y h, is_empty-append x (trim_end y) h)

pub trim_end-solid : (w : Str) → IsSolid w → trim_end w ≡ w
unfolding trim_end
trim_end-solid [] h = refl
trim_end-solid (c ∷ w) h = rw (h.0, trim_end-solid w h.1) (keep_all (is_empty w) _ _)
  where
    keep_all : (b : Bool) (x y : Str) → (if b && false then x else y) ≡ y
    keep_all true x y = refl
    keep_all false x y = refl

trim_space_lem : (s : Str) → trim_space s ≡ reverse (trim_left (reverse (trim_left s)))
unfolding trim_space
trim_space_lem s = refl

trim_left-front : (c : ℕ) (s : Str) → is_space c ≡ false → trim_left (c ∷ s) ≡ c ∷ s
unfolding trim_left
trim_left-front c s h = rw h

-- A text that begins with no white space loses only that at its end.
pub trim_space-front :
    (c : ℕ) (s : Str) → is_space c ≡ false → trim_space (c ∷ s) ≡ trim_end (c ∷ s)
trim_space-front c s h =
    trim_space_lem (c ∷ s)
    ∙ ap (λ t. reverse (trim_left (reverse t))) (trim_left-front c s h)
    ∙ trim_end_lem (c ∷ s)

-- The field that was begun grows by a word.
pub split_fields-word :
    (begun w s : Str) → IsSolid w → split_fields begun (w ++ s) ≡ split_fields (begun ++ w) s
unfolding split_fields
split_fields-word begun [] s h = rw append-nil
split_fields-word begun (c ∷ w) s h =
    rw (h.0, split_fields)
      (split_fields-word (begun ++ (c ∷ [])) w s h.1
        ∙ ap (λ b. split_fields b s) (append_assoc begun (c ∷ []) w))

pub trim_end-is_empty : (w : Str) → IsSolid w → is_empty w ≡ false → is_empty (trim_end w) ≡ false
trim_end-is_empty w h e = rw (trim_end-solid w h) e

-- A space ends the field that was begun.
pub split_fields-space :
    (begun s : Str)
    → is_empty begun ≡ false
    → split_fields begun (32 ∷ s) ≡ begun ∷ split_fields [] s
unfolding split_fields
split_fields-space begun s h = rw h

pub split_fields-end : (begun : Str) → is_empty begun ≡ false → split_fields begun [] ≡ begun ∷ []
unfolding split_fields
split_fields-end begun h = rw h

pub trim_end-space : (w : Str) → IsSolid w → trim_end (w ++ (32 ∷ [])) ≡ w
unfolding trim_end is_space
trim_end-space [] h = refl
trim_end-space (c ∷ w) h = elim (List-cases w) [
  | inl e ↦ rw e (rw h.0)
  | inr (d, v, e) ↦ rw (trim_end-space w h.1, h.0) (keep_all (is_empty w) _ _)
]
  where
    keep_all : (b : Bool) (x y : Str) → (if b && false then x else y) ≡ y
    keep_all true x y = refl
    keep_all false x y = refl

pub trim_end-front : (c : ℕ) (s : Str) → is_space c ≡ false → trim_end (c ∷ s) ≡ c ∷ trim_end s
unfolding trim_end
trim_end-front c s h = rw h (kept (is_empty (trim_end s)) _)
  where
    kept : (b : Bool) (y : Str) → (if b && false then [] else y) ≡ y
    kept true y = refl
    kept false y = refl
