-- ===== src/Query/Lex/Ends.antt =====
-- The lexer takes a byte or more in each round.
use kgraph.Base.{
  Str, ℕ, zero, suc, ◌≤◌, ◌≡◌, ◌≢◌, refl, Bool, true, false, ◌&&◌, ◌||◌, if◌then◌else◌, Option,
  none, some, [], ◌∷◌, arith, length, ◌==◌,
}
use kgraph.Query.Lex.{
  Tok, quoted, punct, Lexed, tokens, rejected, unfinished, put_token, Step, skip, emit, refuse, lex,
  lex_from, lex_step, symbol, scan_word, scan_quoted, in_word, opens_word, is_blank, is_digit,
  is_letter, is_single, is_double,
}

-- What a step leaves is at most `n` bytes long.
abbrev Leaves : ℕ → Step → Type 0
Leaves n (skip s) = length s ≤ n
Leaves n (emit t s) = length s ≤ n
Leaves n refuse = Unit

Leaves-if :
    (n : ℕ) (b : Bool) (x y : Step) → Leaves n x → Leaves n y → Leaves n (if b then x else y)
Leaves-if n true x y h k = h
Leaves-if n false x y h k = k

shorter :
    (n : ℕ) (b : Bool) (x y : Str × Str)
    → length x.1 ≤ n
    → length y.1 ≤ n
    → length (if b then x else y).1 ≤ n
shorter n true x y h k = h
shorter n false x y h k = k

length-scan_word : (s : Str) → length (scan_word s).1 ≤ length s
unfolding scan_word
length-scan_word [] = omega arith
length-scan_word (c ∷ s) =
    shorter (length (c ∷ s)) (in_word c || ((c == 45) && opens_word s))
      (c ∷ (scan_word s).0, (scan_word s).1) ([], c ∷ s) (omega (arith, length-scan_word s))
      (omega arith)

-- A byte that starts a word is taken.
length-scan_word_on : (c : ℕ) (s : Str) → in_word c ≡ true → length (scan_word (c ∷ s)).1 ≤ length s
unfolding scan_word
length-scan_word_on c s h = rw h (length-scan_word s)

Leaves-scan_quoted :
    (n : ℕ) (s : Str)
    → length s ≤ n
    → Leaves n
        (elim (scan_quoted s) as (λ _. Step) [ none ↦ refuse | some (a, b) ↦ emit (quoted a) b ])
unfolding scan_quoted
Leaves-scan_quoted n [] h = tt
Leaves-scan_quoted n (c ∷ s) h =
    go (c == 34) (scan_quoted s) (Leaves-scan_quoted n s (omega (arith, h)))
  where
    go :
        (b : Bool) (o : Option (Str × Str))
        → Leaves n (elim o as (λ _. Step) [ none ↦ refuse | some (x, y) ↦ emit (quoted x) y ])
        → Leaves n
            (elim (if b then some ([], s) else elim o as (λ _. Option (Str × Str)) [
              | none ↦ none
              | some (x, y) ↦ some (c ∷ x, y)
            ])
              as (λ _. Step) [ none ↦ refuse | some (x, y) ↦ emit (quoted x) y ])
    go true o k = omega (arith, h)
    go false none k = tt
    go false (some (x, y)) k = k

Leaves-symbol : (c n : ℕ) (s : Str) → length s ≤ n → Leaves n (symbol c s)
unfolding symbol
Leaves-symbol c n [] h = Leaves-if n (is_single c) (emit (punct (c ∷ [])) []) refuse h tt
Leaves-symbol c n (d ∷ s) h =
    Leaves-if n (is_double c d) _ _ (omega (arith, h))
      (Leaves-if n (is_single c) (emit (punct (c ∷ [])) (d ∷ s)) refuse h tt)

Leaves-when :
    (n : ℕ) (b : Bool) (x y : Step)
    → (b ≡ true → Leaves n x)
    → Leaves n y
    → Leaves n (if b then x else y)
Leaves-when n true x y h k = h refl
Leaves-when n false x y h k = k

digit_in_word : (c : ℕ) → is_digit c ≡ true → in_word c ≡ true
unfolding in_word
digit_in_word c h = ground arith

start_in_word : (c : ℕ) → (is_letter c || (c == 95)) ≡ true → in_word c ≡ true
unfolding in_word
start_in_word c h = ground arith

Leaves-lex_step : (c : ℕ) (s : Str) → Leaves (length s) (lex_step c s)
unfolding lex_step
Leaves-lex_step c s =
    let n = length s in
    Leaves-if n (is_blank c) _ _ (omega arith) (
      Leaves-if n (c == 34) _ _ (Leaves-scan_quoted n s (omega arith)) (
        Leaves-when n (is_digit c) _ _ (λ h. length-scan_word_on c s (digit_in_word c h))
          (Leaves-when n (is_letter c || (c == 95)) _ _
            (λ h. length-scan_word_on c s (start_in_word c h))
            (Leaves-symbol c n s (omega arith)))))

put_token-ends : (t : Tok) (l : Lexed) → l ≢ unfinished → put_token t l ≢ unfinished
unfolding put_token
put_token-ends t (tokens ts) h e = cc e
put_token-ends t rejected h e = cc e
put_token-ends t unfinished h e = h refl

lex_from-ends : (fuel : ℕ) (s : Str) → length s ≤ fuel → lex_from fuel s ≢ unfinished
unfolding lex_from
lex_from-ends fuel [] h e = cc e
lex_from-ends zero (c ∷ s) h e = absurd (omega arith)
lex_from-ends (suc fuel) (c ∷ s) h e =
    go (λ rest k. lex_from-ends fuel rest (omega (arith, h, k))) (lex_step c s)
      (Leaves-lex_step c s) e
  where
    go :
        ((rest : Str) → length rest ≤ length s → lex_from fuel rest ≢ unfinished)
        → (x : Step) → Leaves (length s) x
        → (elim x as (λ _. Lexed) [
          | skip rest ↦ lex_from fuel rest
          | emit t rest ↦ put_token t (lex_from fuel rest)
          | refuse ↦ rejected
        ])
          ≢ unfinished
    go ends (skip rest) k e = ends rest k e
    go ends (emit t rest) k e = put_token-ends t (lex_from fuel rest) (ends rest k) e
    go ends refuse k e = cc e

pub lex-ends : (src : Str) → lex src ≢ unfinished
unfolding lex
lex-ends src = lex_from-ends (length src) src (omega arith)
