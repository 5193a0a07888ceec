-- ===== src/Phonetic/Numbers.antt =====
-- A name that holds a digit is an identifier, and is not sounded out.
use kgraph.Base.{
  Str, ℕ, ◌≡◌, refl, ◌∙◌, inl, inr, Bool, true, false, ◌||◌, none, List, [], ◌∷◌, ◌++◌, arith, any,
  is_empty, Bool-cases,
}
use kgraph.Phonetic.Names.{
  is_lower, is_digit, is_word, lower, letters_of, sounds_like, flush, fields_from, name_fields,
  all_keys, name_keys, sounds_alike,
}

digit_not_lower : (c : ℕ) → is_digit c ≡ true → is_lower (lower c) ≡ false
unfolding is_digit is_lower lower
digit_not_lower c h = ground arith

digit_is_word : (c : ℕ) → is_digit c ≡ true → is_word c ≡ true
unfolding is_word
digit_is_word c h = ground arith

letters_of-digit : (s : Str) → any is_digit s ≡ true → letters_of s ≡ none
unfolding any letters_of
letters_of-digit [] h = cc h
letters_of-digit (c ∷ cs) h = elim (Bool-cases (is_digit c)) [
  | inl d ↦ rw (digit_not_lower c d, d, letters_of) refl
  | inr d ↦
      let rest = letters_of-digit cs (rw (d, any) at h) in
      elim (Bool-cases (is_lower (lower c))) [
        | inl l ↦ rw (l, rest, letters_of) refl
        | inr l ↦ rw (l, d, letters_of) rest
      ]
]

sounds_like-digit : (s : Str) → any is_digit s ≡ true → sounds_like s ≡ []
unfolding sounds_like
sounds_like-digit s h = rw (letters_of-digit s h, sounds_like) refl

all_keys-digit : (fs : List Str) → any (any is_digit) fs ≡ true → all_keys fs ≡ none
unfolding any all_keys
all_keys-digit [] h = cc h
all_keys-digit (f ∷ fs) h = elim (Bool-cases (any is_digit f)) [
  | inl d ↦ rw (sounds_like-digit f d, all_keys) refl
  | inr d ↦
      let rest = all_keys-digit fs (rw (d, any) at h) in
      elim (Bool-cases (is_empty (sounds_like f))) [
        | inl l ↦ rw (l, all_keys) refl
        | inr l ↦ rw (l, rest, all_keys) refl
      ]
]

any-append : (p : ℕ → Bool) (xs ys : Str) → any p (xs ++ ys) ≡ (any p xs || any p ys)
unfolding any
any-append p [] ys = refl
any-append p (x ∷ xs) ys = ground (arith, any-append p xs ys)

any-flush :
    (s : Str) (fs : List Str)
    → any (any is_digit) (flush s ++ fs) ≡ (any is_digit s || any (any is_digit) fs)
unfolding any flush
any-flush [] fs = refl
any-flush (c ∷ cs) fs = refl

fields_from-digit :
    (begun cs : Str)
    → (any is_digit begun || any is_digit cs) ≡ true
    → any (any is_digit) (fields_from begun cs) ≡ true
unfolding any fields_from
fields_from-digit [] [] h = cc h
fields_from-digit (x ∷ xs) [] h = ground (arith, h)
fields_from-digit begun (c ∷ cs) h = elim (Bool-cases (is_word c)) [
  | inl w ↦
      rw (w, fields_from)
        (fields_from-digit (begun ++ c ∷ []) cs
          (ground (arith, any-append is_digit begun (c ∷ []), h)))
  | inr w ↦ elim (Bool-cases (is_digit c)) [
    | inl d ↦ cc (w, digit_is_word c d)
    | inr d ↦
        rw (w, fields_from)
          (any-flush begun (fields_from [] cs) ∙ apart d (λ k. fields_from-digit [] cs k))
  ]
]
  where
    apart :
        is_digit c ≡ false
        → (any is_digit cs ≡ true → any (any is_digit) (fields_from [] cs) ≡ true)
        → (any is_digit begun || any (any is_digit) (fields_from [] cs)) ≡ true
    apart d rest = elim (Bool-cases (any is_digit begun)) [
      | inl b ↦ rw b refl
      | inr b ↦ rw b (rest (rw (b, d) at h))
    ]

-- A name with a digit sounds like no name, whatever the other one is.
pub sounds_alike-digit : (a b : Str) → any is_digit a ≡ true → sounds_alike a b ≡ false
unfolding sounds_alike name_keys name_fields any
sounds_alike-digit a b h =
    rw (all_keys-digit (fields_from [] a) (fields_from-digit [] a h), name_keys) refl
