-- ===== src/Query/Panics.antt =====
-- ParseQuery of query.go on a comparison that the text breaks off: a value is read by `next`, which
-- also steps over the end of the text.
use kgraph.Base.{Str, lit, ℕ, suc, any, str_eq, ◌≡◌, true, List, [], ◌∷◌, In, inl, inr}
use kgraph.Query.{Query}
use kgraph.Query.Lex.{Tok, eof, ident, punct, tokens, lex}
use kgraph.Query.Parse.{panic, operators, is_kind, Parser, bind, pred_tail, atom, atom_kinds}
use kgraph.Query.Descent.{pattern, primary, unary, inter, union, parse_tokens, parse_query}

-- `kind[key op`, and nothing behind it.
abbrev pub broken_off : Str → Str → Str → List Tok
broken_off kind key op = ident kind ∷ punct (lit "[") ∷ ident key ∷ punct op ∷ eof ∷ []

-- The value list reads the end of the text, and then looks behind it.
pred_tail-panics : (key op : Str) → In op operators → pred_tail key (punct op ∷ eof ∷ []) ≡ panic
unfolding operators pred_tail any str_eq
pred_tail-panics key op (inl e) = rw e
pred_tail-panics key op (inr (inl e)) = rw e
pred_tail-panics key op (inr (inr (inl e))) = rw e
pred_tail-panics key op (inr (inr (inr (inl e)))) = rw e
pred_tail-panics key op (inr (inr (inr (inr (inl e))))) = rw e
pred_tail-panics key op (inr (inr (inr (inr (inr (inl e)))))) = rw e
pred_tail-panics key op (inr (inr (inr (inr (inr (inr i)))))) = absurd i

-- A panic below is one of every parser around it.
module _ (kind key op : Str) (k : is_kind kind ≡ true) (i : In op operators) (n : ℕ) where
  atom-panics : atom (suc n) (broken_off kind key op) ≡ panic
  unfolding atom atom_kinds str_eq
  atom-panics = rw k (rw (pred_tail-panics key op i))

  pattern-panics : pattern (suc n) (broken_off kind key op) ≡ panic
  unfolding pattern
  pattern-panics = rw atom-panics

  inter-panics : (sub : Parser Query) → inter (suc n) sub (broken_off kind key op) ≡ panic
  unfolding inter unary primary
  inter-panics sub = rw pattern-panics

  union-panics : union (suc n) (broken_off kind key op) ≡ panic
  unfolding union
  union-panics = rw (inter-panics (union n))

parse_tokens-panics :
    (kind key op : Str)
    → is_kind kind ≡ true
    → In op operators
    → parse_tokens (broken_off kind key op) ≡ panic
unfolding parse_tokens bind
parse_tokens-panics kind key op k i = rw (union-panics kind key op k i 5)

-- Where the text is a kind, a bracket, a field and one of the six comparisons, with nothing behind
-- them, ParseQuery panics instead of returning an error.
pub parse_query-panics :
    (src kind key op : Str)
    → is_kind kind ≡ true
    → In op operators
    → lex src ≡ tokens (broken_off kind key op)
    → parse_query src ≡ panic
unfolding parse_query
parse_query-panics src kind key op k i e = rw (e, parse_query) (parse_tokens-panics kind key op k i)
