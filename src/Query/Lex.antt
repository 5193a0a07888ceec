-- ===== src/Query/Lex.antt =====
-- The lexer of query.go. The position of a token, which only messages show, is left out.
pub mod Ends
use kgraph.Base.{
  Str, lit, ℕ, zero, suc, ◌+◌, ◌≤◌, ◌<◌, ◌≡◌, ◌≢◌, refl, Bool, true, false, not, ◌&&◌, ◌||◌,
  if◌then◌else◌, Option, none, some, List, [], ◌∷◌, ◌++◌, any, length, ltb, leb, ◌==◌, arith,
  str_eq, has,
}

pub data Tok : Type 0 where
  eof : Tok
  ident value quoted punct : Str → Tok

-- unicode.IsDigit and unicode.IsLetter of rune(c) for a byte c.
unfoldable pub is_digit : ℕ → Bool
is_digit c = leb 48 c && leb c 57

unfoldable pub is_letter : ℕ → Bool
is_letter c =
    (leb 65 c && leb c 90)
    || (leb 97 c && leb c 122)
    || (c == 170)
    || (c == 181)
    || (c == 186)
    || (leb 192 c && not (c == 215) && not (c == 247))

unfoldable pub in_word : ℕ → Bool
unfolding is_digit is_letter
in_word c = is_letter c || is_digit c || (c == 95) || (c == 46)

unfoldable pub opens_word : Str → Bool
unfolding is_digit is_letter
opens_word [] = false
opens_word (d ∷ s) = is_letter d || is_digit d

-- The word in front, and what is behind it.
unfoldable pub scan_word : Str → Str × Str
unfolding in_word opens_word
scan_word [] = ([], [])
scan_word (c ∷ s) =
    let rest = scan_word s in
    if in_word c || ((c == 45) && opens_word s) then (c ∷ rest.0, rest.1) else ([], c ∷ s)

-- The text up to the closing quote, and what is behind it.
unfoldable pub scan_quoted : Str → Option (Str × Str)
scan_quoted [] = none
scan_quoted (c ∷ s) =
    let rest = scan_quoted s in
    if c == 34 then some ([], s) else elim rest [ none ↦ none | some (a, b) ↦ some (c ∷ a, b) ]

unfoldable pub is_blank : ℕ → Bool
is_blank c = (c == 32) || (c == 9) || (c == 10) || (c == 13)

unfoldable pub is_single : ℕ → Bool
is_single c = any (λ x. x == c) (lit "()[]#@~&|!,*=<>-")

unfoldable pub is_double : ℕ → ℕ → Bool
is_double c d = has (lit "->" ∷ lit "<-" ∷ lit "!=" ∷ lit "<=" ∷ lit ">=" ∷ []) (c ∷ d ∷ [])

pub data Lexed : Type 0 where
  tokens : List Tok → Lexed
  rejected unfinished : Lexed

unfoldable pub put_token : Tok → Lexed → Lexed
put_token t (tokens ts) = tokens (t ∷ ts)
put_token t rejected = rejected
put_token t unfinished = unfinished

-- The token that starts with the byte `c`, and what is behind it: `inr` for a byte that starts none.
pub data Step : Type 0 where
  skip : Str → Step
  emit : Tok → Str → Step
  refuse : Step

unfoldable pub symbol : ℕ → Str → Step
unfolding is_single is_double
symbol c [] = if is_single c then emit (punct (c ∷ [])) [] else refuse
symbol c (d ∷ s) =
    if is_double c d
    then emit (punct (c ∷ d ∷ [])) s
    else if is_single c
    then emit (punct (c ∷ [])) (d ∷ s)
    else refuse

unfoldable pub lex_step : ℕ → Str → Step
unfolding is_blank scan_quoted scan_word symbol is_digit is_letter
lex_step c s =
    if is_blank c
    then skip s
    else if c == 34
    then elim (scan_quoted s) [ none ↦ refuse | some (a, b) ↦ emit (quoted a) b ]
    else if is_digit c
    then emit (value (scan_word (c ∷ s)).0) (scan_word (c ∷ s)).1
    else if is_letter c || (c == 95)
    then emit (ident (scan_word (c ∷ s)).0) (scan_word (c ∷ s)).1
    else symbol c s

-- The loop of lex, which looks at one byte or more in each round.
unfoldable pub lex_from : ℕ → Str → Lexed
unfolding lex_step put_token
lex_from fuel [] = tokens (eof ∷ [])
lex_from zero (c ∷ s) = unfinished
lex_from (suc fuel) (c ∷ s) = elim (lex_step c s) [
  | skip rest ↦ lex_from fuel rest
  | emit t rest ↦ put_token t (lex_from fuel rest)
  | refuse ↦ rejected
]

unfoldable pub lex : Str → Lexed
unfolding lex_from
lex src = lex_from (length src) src
