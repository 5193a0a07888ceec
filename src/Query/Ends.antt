-- ===== src/Query/Ends.antt =====
-- The fuel of ParseQuery is enough for every text.
use kgraph.Base.{
  Str, lit, ℕ, zero, suc, ◌≤◌, ◌<◌, ◌≡◌, ◌≢◌, refl, Bool, true, false, if◌then◌else◌, Option, none,
  some, List, [], ◌∷◌, arith, length, str_eq,
}
use kgraph.Query.{Query, Temporal, more, no_queries, named}
use kgraph.Query.Lex.{
  Tok, eof, ident, value, quoted, punct, Lexed, tokens, rejected, unfinished, lex,
}
use kgraph.Query.Lex.Ends.{lex-ends}
use kgraph.Query.Parse.{
  Out, ok, refused, panic, out_of_fuel, Parser, bind, is_p, is_word, accept, expect, atom, chain,
}
use kgraph.Query.Descent.{
  window, temporal, suffix_at, sort_key, sort_keys, suffix_sort, pattern, kind_list, bracketed,
  reference, primary, unary, terms, inter, union, at_end, parse_tokens, parse_query,
}
use kgraph.Query.Total.{
  Within, Within-bind, Within-if, Within-expect, Within-separated, Within-atom, Within-chain,
}

Within-window : (n : ℕ) (ts : List Tok) → length ts ≤ n → Within n (window ts)
unfolding window
Within-window n [] h = tt
Within-window n (a ∷ ts) h =
    Within-bind n n (expect (lit ",") tt ts) _ (Within-expect (lit ",") tt n ts (omega (arith, h)))
      (λ _. elim [ [] ↦ λ k. tt | b ∷ vs ↦ λ k. Within-expect (lit "]") _ n vs (omega (arith, k)) ])

Within-temporal : (n : ℕ) (ts : List Tok) → length ts ≤ n → Within n (temporal ts)
unfolding temporal
Within-temporal n [] h = tt
Within-temporal n (t ∷ ts) h =
    Within-if n (is_word (lit "now") t) _ _ l
      (Within-if n (is_p (lit "[") t) _ _ (Within-window n ts l) (dated t))
  where
    l : length ts ≤ n
    l = omega (arith, h)

    dated :
        (t : Tok)
        → Within n (elim t as (λ _. Out Temporal) [
          | value d ↦ ok (record { now = false; starts = d; ends = d }) ts
          | _ ↦ refused
        ])
    dated eof = tt
    dated (ident _) = tt
    dated (value d) = l
    dated (quoted _) = tt
    dated (punct _) = tt

Within-suffix_at : (n : ℕ) (ts : List Tok) → length ts ≤ n → Within n (suffix_at ts)
unfolding suffix_at
Within-suffix_at n [] h = tt
Within-suffix_at n (t ∷ ts) h =
    Within-if n (is_p (lit "@") t) _ _
      (Within-bind n n (temporal ts) _ (Within-temporal n ts (omega (arith, h))) (λ a us k. k)) h

Within-sort_key : (n : ℕ) (ts : List Tok) → length ts ≤ suc n → Within n (sort_key ts)
unfolding sort_key
Within-sort_key n [] h = tt
Within-sort_key n (ident k ∷ []) h = tt
Within-sort_key n (ident k ∷ u ∷ ts) h =
    Within-if n (is_word (lit "desc") u) _ _ (omega (arith, h))
      (Within-if n (is_word (lit "asc") u) _ _ (omega (arith, h)) (omega (arith, h)))
Within-sort_key n (eof ∷ ts) h = tt
Within-sort_key n (value _ ∷ ts) h = tt
Within-sort_key n (quoted _ ∷ ts) h = tt
Within-sort_key n (punct _ ∷ ts) h = tt

Within-sort_keys :
    (fuel n : ℕ) (ts : List Tok) → length ts < fuel → length ts ≤ n → Within n (sort_keys fuel ts)
unfolding sort_keys sort_key bind
Within-sort_keys zero n ts h k = absurd (omega arith)
Within-sort_keys (suc fuel) n [] h k = tt
Within-sort_keys (suc fuel) n (t ∷ ts) h k =
    Within-separated (lit ",") (length ts) n (sort_key (t ∷ ts)) _ _ (omega (arith, k))
      (Within-sort_key (length ts) (t ∷ ts) (omega arith))
      (λ p vs l.
        Within-bind n n (sort_keys fuel vs) _
          (Within-sort_keys fuel n vs (omega (arith, h, l)) (omega (arith, k, l))) (λ ps xs m. m))

Within-suffix_sort :
    (fuel n : ℕ) (ts : List Tok) → length ts ≤ fuel → length ts ≤ n → Within n (suffix_sort fuel ts)
unfolding suffix_sort
Within-suffix_sort fuel n [] h k = tt
Within-suffix_sort fuel n (t ∷ ts) h k =
    Within-if n (is_word (lit "sort") t) _ _
      (Within-sort_keys fuel n ts (omega (arith, h)) (omega (arith, k))) k

Within-pattern :
    (fuel n : ℕ) (ts : List Tok) → n < fuel → length ts ≤ n → Within n (pattern fuel ts)
unfolding pattern
Within-pattern fuel n ts h k =
    Within-bind n n (atom fuel ts) _
      (Within-atom fuel n ts (omega (arith, h, k)) k (omega (arith, h)))
      (λ a us i.
        Within-bind n n (chain fuel us) _ (Within-chain fuel n us (omega (arith, h, i)) i)
          (λ rest vs j. Within-bind n n (suffix_at vs) _ (Within-suffix_at n vs j) (λ at ws l.
            Within-bind n n (suffix_sort fuel ws) _
              (Within-suffix_sort fuel n ws (omega (arith, h, l)) l) (λ keys xs m. m))))

-- The parser inside parentheses is good for every input that is shorter than `n`.
abbrev Total : ℕ → Parser Query → Type 0
Total n sub = (m : ℕ) (ts : List Tok) → m < n → length ts ≤ m → Within m (sub ts)

Within-bracketed :
    (fuel n : ℕ) (sub : Parser Query) (ts : List Tok)
    → Total (suc n) sub
    → n < fuel
    → length ts ≤ n
    → Within n (bracketed fuel sub ts)
unfolding bracketed
Within-bracketed fuel n sub ts t h k =
    Within-bind n n (sub ts) _ (t n ts (omega arith) k) (λ q us i.
      Within-bind n n (expect (lit ")") tt us) _ (Within-expect (lit ")") tt n us i) (λ _ vs j.
        Within-bind n n (suffix_at vs) _ (Within-suffix_at n vs j) (λ at ws l.
          Within-bind n n (suffix_sort fuel ws) _
            (Within-suffix_sort fuel n ws (omega (arith, h, l)) l) (λ keys xs m. m))))

Within-reference :
    (fuel n : ℕ) (t : Tok) (ts : List Tok)
    → n < fuel
    → length (t ∷ ts) ≤ n
    → Within n (reference fuel t ts)
unfolding reference
Within-reference fuel n t [] h k = tt
Within-reference fuel n t (ident name ∷ ts) h k =
    Within-if n (str_eq name (lit "now")) (pattern fuel (t ∷ ident name ∷ ts)) (ok (named name) ts)
      (Within-pattern fuel n (t ∷ ident name ∷ ts) h k) (omega (arith, k))
Within-reference fuel n t (eof ∷ ts) h k = Within-pattern fuel n (t ∷ eof ∷ ts) h k
Within-reference fuel n t (value s ∷ ts) h k = Within-pattern fuel n (t ∷ value s ∷ ts) h k
Within-reference fuel n t (quoted s ∷ ts) h k = Within-pattern fuel n (t ∷ quoted s ∷ ts) h k
Within-reference fuel n t (punct s ∷ ts) h k = Within-pattern fuel n (t ∷ punct s ∷ ts) h k

Within-weaken : {A : Type 0} (n m : ℕ) (o : Out A) → n ≤ m → Within n o → Within m o
Within-weaken n m (ok a rest) h k = omega (arith, h, k)
Within-weaken n m refused h k = tt
Within-weaken n m panic h k = tt
Within-weaken n m out_of_fuel h k = absurd k

Within-primary :
    (fuel n : ℕ) (sub : Parser Query) (ts : List Tok)
    → Total n sub
    → n < fuel
    → length ts ≤ n
    → Within n (primary fuel sub ts)
unfolding primary
Within-primary fuel n sub [] s h k = tt
Within-primary fuel zero sub (t ∷ ts) s h k = absurd (omega arith)
Within-primary fuel (suc n) sub (t ∷ ts) s h k =
    Within-if (suc n) (is_p (lit "@") t) _ _ (Within-reference fuel (suc n) t ts h k) (
      Within-if (suc n) (is_p (lit "(") t) _ _ (opened (kind_list ts))
        (Within-pattern fuel (suc n) (t ∷ ts) h k))
  where
    opened :
        (o : Option Bool)
        → Within (suc n) (elim o as (λ _. Out Query) [
          | none ↦ panic
          | some b ↦ elim b as (λ _. Out Query) [
            | true ↦ pattern fuel (t ∷ ts)
            | false ↦ bracketed fuel sub ts
          ]
        ])
    opened none = tt
    opened (some true) = Within-pattern fuel (suc n) (t ∷ ts) h k
    opened (some false) =
        Within-weaken n (suc n) (bracketed fuel sub ts) (omega arith)
          (Within-bracketed fuel n sub ts s (omega (arith, h)) (omega (arith, k)))

Within-unary :
    (fuel n : ℕ) (sub : Parser Query) (ts : List Tok)
    → Total n sub
    → n < fuel
    → length ts ≤ n
    → Within n (unary fuel sub ts)
unfolding unary
Within-unary fuel n sub [] s h k = tt
Within-unary fuel n sub (t ∷ ts) s h k =
    Within-if n (is_p (lit "!") t) _ _
      (Within-bind n n (unary fuel sub ts) _ (Within-unary fuel n sub ts s h (omega (arith, k)))
        (λ q us m. m))
      (Within-primary fuel n sub (t ∷ ts) s h k)

-- A separator that is there is taken.
Within-after :
    {B : Type 0} (sep : Str) (n m : ℕ) (us : List Tok) (stop : Parser B) (next : Parser B)
    → n ≤ m
    → length us ≤ n
    → ((vs : List Tok) → length vs ≤ n → Within m (stop vs))
    → ((vs : List Tok) → length vs < n → Within m (next vs))
    → Within m (bind (accept sep us) (λ b vs. if b then next vs else stop vs))
unfolding accept bind
Within-after sep n m [] stop next nm h j k = tt
Within-after {B} sep n m (t ∷ ts) stop next nm h j k = go (is_p sep t)
  where
    go :
        (c : Bool)
        → Within m (
            bind {A = Bool} {B = B}
              (if c then ok true ts else ok false (t ∷ ts))
              (λ b vs. if b then next vs else stop vs))
    go true = k ts (omega (arith, h))
    go false = j (t ∷ ts) h

Within-terms :
    (fuel n m : ℕ) (sep : Str) (p : Parser Query) (ts : List Tok)
    → Total n p
    → length ts < fuel
    → length ts < n
    → length ts ≤ m
    → Within m (terms fuel sep p ts)
unfolding terms
Within-terms zero n m sep p ts t h k l = absurd (omega arith)
Within-terms (suc fuel) n m sep p ts t h k l =
    Within-bind (length ts) m (p ts) _ (t (length ts) ts k (omega arith)) (λ q us i.
      Within-after sep (length ts) m us (λ vs. ok (more q no_queries) vs)
        (λ vs. bind (terms fuel sep p vs) (λ qs ws. ok (more q qs) ws)) l i
        (λ vs j. omega (arith, j, l))
        (λ vs j.
          Within-bind m m (terms fuel sep p vs) _
            (Within-terms fuel n m sep p vs t (omega (arith, h, j)) (omega (arith, k, j))
              (omega (arith, l, j)))
            (λ qs ws o. o)))

Total-inter :
    (fuel n : ℕ) (sub : Parser Query) → Total n sub → n < fuel → Total (suc n) (inter fuel sub)
unfolding inter
Total-inter fuel n sub t h m ts k l =
    Within-bind m m (terms fuel (lit "&") (unary fuel sub) ts) _
      (Within-terms fuel (suc n) m (lit "&") (unary fuel sub) ts
        (λ i us j o.
          Within-unary fuel i sub us (λ a vs b c. t a vs (omega (arith, b, j)) c)
            (omega (arith, j, h)) o)
        (omega (arith, h, k, l)) (omega (arith, k, l)) l)
      (λ qs us o. o)

Total-union : (fuel : ℕ) → Total fuel (union fuel)
unfolding union
Total-union zero m ts k l = absurd (omega arith)
Total-union (suc fuel) m ts k l =
    Within-bind m m (terms (suc fuel) (lit "|") (inter (suc fuel) (union fuel)) ts) _
      (Within-terms (suc fuel) (suc fuel) m (lit "|") (inter (suc fuel) (union fuel)) ts
        (Total-inter (suc fuel) fuel (union fuel) (Total-union fuel) (omega arith))
        (omega (arith, k, l)) (omega (arith, k, l)) l)
      (λ qs us o. o)

at_end-ends : (q : Query) (ts : List Tok) → at_end q ts ≢ out_of_fuel
unfolding at_end
at_end-ends q [] h = cc h
at_end-ends q (eof ∷ ts) h = cc h
at_end-ends q (ident _ ∷ ts) h = cc h
at_end-ends q (value _ ∷ ts) h = cc h
at_end-ends q (quoted _ ∷ ts) h = cc h
at_end-ends q (punct _ ∷ ts) h = cc h

bind-ends :
    (n : ℕ) (o : Out Query) (f : Query → Parser Query)
    → Within n o
    → ((q : Query) (ts : List Tok) → f q ts ≢ out_of_fuel)
    → bind o f ≢ out_of_fuel
unfolding bind
bind-ends n (ok q ts) f h k e = k q ts e
bind-ends n refused f h k e = cc e
bind-ends n panic f h k e = cc e
bind-ends n out_of_fuel f h k e = h

-- The recursion of the parser is never deeper, and no loop of it longer, than there are tokens.
parse_tokens-ends : (ts : List Tok) → parse_tokens ts ≢ out_of_fuel
unfolding parse_tokens
parse_tokens-ends ts =
    bind-ends (length ts) (union (suc (length ts)) ts) at_end
      (Total-union (suc (length ts)) (length ts) ts (omega arith) (omega arith)) at_end-ends

-- ParseQuery never stops for want of fuel: it returns a query or an error, or it indexes behind the
-- last token.
pub parse_query-ends : (src : Str) → parse_query src ≢ out_of_fuel
unfolding parse_query
parse_query-ends src = go (lex src) refl
  where
    go :
        (l : Lexed)
        → lex src ≡ l
        → (elim l as (λ _. Out Query) [
          | tokens ts ↦ parse_tokens ts
          | rejected ↦ refused
          | unfinished ↦ out_of_fuel
        ])
          ≢ out_of_fuel
    go (tokens ts) p e = parse_tokens-ends ts e
    go rejected p e = cc e
    go unfinished p e = lex-ends src p
