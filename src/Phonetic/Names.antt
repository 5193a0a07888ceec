-- ===== src/Phonetic/Names.antt =====
-- phonetic.go: the phonetic key of a word and the comparison of names word for word. The words are
-- runs of ASCII letters and digits, so lower case is that of ASCII.
use kgraph.Base.{
  Str, lit, ℕ, ◌+◌, ◌≡◌, refl, Bool, true, false, not, ◌&&◌, ◌||◌, if◌then◌else◌, Option, none,
  some, List, [], ◌∷◌, ◌++◌, arith, length, take, map, any, str_eq, str_eq_comm, ltb, leb, ◌==◌,
  ◌>>=◌, is_empty, subst,
}
use kgraph.Phonetic.{edit_distance, cost}
use kgraph.Phonetic.Least.{Script, edit_distance-least, done, drop_one, add_one, replace}

unfoldable pub is_lower : ℕ → Bool
is_lower c = leb 97 c && leb c 122

unfoldable pub is_upper : ℕ → Bool
is_upper c = leb 65 c && leb c 90

unfoldable pub is_digit : ℕ → Bool
is_digit c = leb 48 c && leb c 57

unfoldable pub lower : ℕ → ℕ
unfolding is_upper
lower c = if is_upper c then c + 32 else c

-- The letters of a word in lower case, and `none` for a word with a digit.
unfoldable pub letters_of : Str → Option Str
unfolding is_lower is_digit lower
letters_of [] = some []
letters_of (c ∷ cs) =
    let rest = letters_of cs in
    if is_lower (lower c)
    then (rest >>= λ l. some (lower c ∷ l))
    else if is_digit c
    then none
    else rest

-- The code of a consonant, and 0 where there is none.
unfoldable pub code : ℕ → ℕ
code c =
    if any (λ x. x == c) (lit "bfpv")
    then 49
    else if any (λ x. x == c) (lit "cgjkqsxz")
    then 50
    else if any (λ x. x == c) (lit "dt")
    then 51
    else if any (λ x. x == c) (lit "l")
    then 52
    else if any (λ x. x == c) (lit "mn")
    then 53
    else if any (λ x. x == c) (lit "r")
    then 54
    else 0

-- The loop over the letters after the first, with the code written last.
unfoldable pub skeleton : ℕ → Str → Str
unfolding code
skeleton last [] = []
skeleton last (r ∷ rs) = elim (code r == 0) [
  | true ↦ skeleton 0 rs
  | false ↦ elim (code r == last) [
    | true ↦ skeleton last rs
    | false ↦ code r ∷ skeleton (code r) rs
  ]
]

unfoldable pub key_of : Str → Str
unfolding skeleton
key_of [] = []
key_of (r ∷ rs) = take 6 (r ∷ skeleton (code r) rs)

unfoldable pub sounds_like : Str → Str
unfolding letters_of key_of
sounds_like s = elim (letters_of s) [
  | none ↦ []
  | some ls ↦ if ltb (length ls) 3 then [] else key_of ls
]

unfoldable pub is_word : ℕ → Bool
unfolding is_lower is_upper is_digit
is_word c = is_lower c || is_upper c || is_digit c

unfoldable pub flush : Str → List Str
flush [] = []
flush (c ∷ cs) = (c ∷ cs) ∷ []

-- strings.FieldsFunc, with the word that was begun.
unfoldable pub fields_from : Str → Str → List Str
unfolding is_word flush
fields_from begun [] = flush begun
fields_from begun (c ∷ cs) = elim (is_word c) [
  | true ↦ fields_from (begun ++ c ∷ []) cs
  | false ↦ flush begun ++ fields_from [] cs
]

unfoldable pub name_fields : Str → List Str
unfolding fields_from
name_fields s = fields_from [] s

unfoldable pub all_keys : List Str → Option (List Str)
unfolding sounds_like
all_keys [] = some []
all_keys (f ∷ fs) =
    let rest = all_keys fs in
    if is_empty (sounds_like f) then none else (rest >>= λ ks. some (sounds_like f ∷ ks))

-- The keys of the words; a nil slice is an empty list.
unfoldable pub name_keys : Str → List Str
unfolding all_keys name_fields
name_keys s = elim (all_keys (name_fields s)) [ none ↦ [] | some ks ↦ ks ]

-- The words of two names, spelled with at most two edits between them.
unfoldable pub close_words : Str → Str → Bool
close_words v w = leb (edit_distance (map lower v) (map lower w)) 2

-- The loop over the keys.
unfoldable pub words_alike : List Str → List Str → List Str → List Str → Bool
unfolding close_words
words_alike (x ∷ xs) (y ∷ ys) (v ∷ vs) (w ∷ ws) =
    let rest = words_alike xs ys vs ws in str_eq x y && close_words v w && rest
words_alike xs ys vs ws = true

unfoldable pub sounds_alike : Str → Str → Bool
unfolding name_keys name_fields words_alike
sounds_alike a b =
    if length (name_keys a) == 0 || not (length (name_keys a) == length (name_keys b))
    then false
    else words_alike (name_keys a) (name_keys b) (name_fields a) (name_fields b)

cost_comm : (x y : ℕ) → cost x y ≡ cost y x
unfolding cost
cost_comm x y = ground arith

Script-flip : (n : ℕ) (s t : Str) → Script n s t → Script n t s
Script-flip _ _ _ done = done
Script-flip _ _ _ (drop_one n s t x k) = add_one n t s x (Script-flip n s t k)
Script-flip _ _ _ (add_one n s t y k) = drop_one n t s y (Script-flip n s t k)
Script-flip _ _ _ (replace n s t x y k) =
    subst (λ c. Script (n + c) (y ∷ t) (x ∷ s)) (cost_comm y x)
      (replace n t s y x (Script-flip n s t k))

edit_distance_comm : (a b : Str) → edit_distance a b ≡ edit_distance b a
edit_distance_comm a b =
    let (p, least) = edit_distance-least a b in
    let (q, least') = edit_distance-least b a in
    let h = least (edit_distance b a) (Script-flip (edit_distance b a) b a q) in
    let k = least' (edit_distance a b) (Script-flip (edit_distance a b) a b p) in
    omega (arith, h, k)

words_alike_comm : (xs ys vs ws : List Str) → words_alike xs ys vs ws ≡ words_alike ys xs ws vs
unfolding words_alike close_words
words_alike_comm (x ∷ xs) (y ∷ ys) (v ∷ vs) (w ∷ ws) =
    rw
      (
        words_alike_comm xs ys vs ws,
        str_eq_comm x y,
        edit_distance_comm (map lower v) (map lower w),
      )
      refl
words_alike_comm [] [] vs ws = refl
words_alike_comm [] (y ∷ ys) vs ws = refl
words_alike_comm (x ∷ xs) [] vs ws = refl
words_alike_comm (x ∷ xs) (y ∷ ys) [] [] = refl
words_alike_comm (x ∷ xs) (y ∷ ys) [] (w ∷ ws) = refl
words_alike_comm (x ∷ xs) (y ∷ ys) (v ∷ vs) [] = refl

-- Whether two names sound alike does not depend on which of them comes first.
pub sounds_alike_comm : (a b : Str) → sounds_alike a b ≡ sounds_alike b a
unfolding sounds_alike
sounds_alike_comm a b =
    ground (arith, words_alike_comm (name_keys a) (name_keys b) (name_fields a) (name_fields b))
