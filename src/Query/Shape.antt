-- ===== src/Query/Shape.antt =====
-- The shape of the trees that ParseQuery of query.go returns.
use kgraph.Base.{
  Str, lit, ℕ, zero, suc, ◌≡◌, refl, ap, subst, ◌⊎◌, inl, inr, Bool, true, false, if◌then◌else◌,
  Option, none, some, List, [], ◌∷◌, any, length, str_eq, is_empty,
}
use kgraph.Closure.{Hop}
use kgraph.Query.{
  Query, Queries, no_queries, more, union_of, inter_of, complement, named, matching, scoped,
  Temporal, SortKey, Pred, Atom, Pattern,
}
use kgraph.Query.Lex.{
  Tok, eof, ident, value, quoted, punct, Lexed, tokens, rejected, unfinished, lex,
}
use kgraph.Query.Parse.{
  Out, ok, refused, panic, out_of_fuel, Parser, bind, is_p, is_word, text_of, accept, expect, vals,
  operators, compared, pred_tail, pred, preds, atom_kinds, atom_id, atom_preds, atom_text,
  is_blank_atom, finish_atom, atom, hop, chain,
}
use kgraph.Query.Descent.{
  suffix_at, suffix_sort, pattern, kind_list, in_scope, bracketed, reference, primary, unary, terms,
  inter_all, union_all, inter, union, at_end, parse_tokens, parse_query,
}

-- A predicate asks for presence, or has a value to compare with.
abbrev pub HasValue : Pred → Type 0
HasValue p = (p.op ≡ lit "has") ⊎ (is_empty p.vals ≡ false)

abbrev pub HaveValues : List Pred → Type 0
HaveValues [] = Unit
HaveValues (p ∷ ps) = HasValue p × HaveValues ps

abbrev pub AtomsHaveValues : List Atom → Type 0
AtomsHaveValues [] = Unit
AtomsHaveValues (a ∷ later) = HaveValues a.preds × AtomsHaveValues later

-- One atom more than there are hops.
abbrev pub IsShapedPattern : Pattern → Type 0
IsShapedPattern p = (length p.atoms ≡ suc (length p.hops)) × AtomsHaveValues p.atoms

unfoldable mutual
  pub IsShaped : Query → Type 0
  IsShaped (union_of qs) = AreShaped qs
  IsShaped (inter_of qs) = AreShaped qs
  IsShaped (complement q) = IsShaped q
  IsShaped (named name) = Unit
  IsShaped (matching p) = IsShapedPattern p
  IsShaped (scoped q at sort) = IsShaped q

  pub AreShaped : Queries → Type 0
  AreShaped no_queries = Unit
  AreShaped (more q qs) = IsShaped q × AreShaped qs

-- What the parser returns, where it returns, is as stated.
abbrev pub Yields : {A : Type 0} → (A → Type 0) → Out A → Type 0
Yields P (ok a rest) = P a
Yields P refused = Unit
Yields P panic = Unit
Yields P out_of_fuel = Unit

Yields-bind :
    {A B : Type 0} (P : A → Type 0) (Q : B → Type 0) (o : Out A) (f : A → Parser B)
    → Yields P o
    → ((a : A) (rest : List Tok) → P a → Yields Q (f a rest))
    → Yields Q (bind o f)
unfolding bind
Yields-bind P Q (ok a rest) f h k = k a rest h
Yields-bind P Q refused f h k = tt
Yields-bind P Q panic f h k = tt
Yields-bind P Q out_of_fuel f h k = tt

Yields-any : {A : Type 0} (o : Out A) → Yields (λ a. Unit) o
Yields-any (ok a rest) = tt
Yields-any refused = tt
Yields-any panic = tt
Yields-any out_of_fuel = tt

-- What is read first does not matter.
Yields-after :
    {A B : Type 0} (Q : B → Type 0) (o : Out A) (f : A → Parser B)
    → ((a : A) (rest : List Tok) → Yields Q (f a rest))
    → Yields Q (bind o f)
Yields-after Q o f k = Yields-bind (λ a. Unit) Q o f (Yields-any o) (λ a rest u. k a rest)

Yields-if :
    {A : Type 0} (P : A → Type 0) (b : Bool) (x y : Out A)
    → Yields P x
    → Yields P y
    → Yields P (if b then x else y)
Yields-if P true x y h k = h
Yields-if P false x y h k = k

Yields-expect :
    {A : Type 0} (P : A → Type 0) (s : Str) (a : A) (ts : List Tok) → P a → Yields P (expect s a ts)
unfolding expect
Yields-expect P s a [] h = tt
Yields-expect P s a (t ∷ ts) h = Yields-if P (is_p s t) _ _ h tt

Yields-vals : (sep : Str) (ts : List Tok) → Yields (λ vs. is_empty vs ≡ false) (vals sep ts)
unfolding vals
Yields-vals sep [] = tt
Yields-vals sep (t ∷ []) = tt
Yields-vals sep (t ∷ u ∷ ts) =
    Yields-if _ (is_p sep u) _ _ (Yields-after _ (vals sep ts) _ (λ vs us. refl)) refl

HasValue-compared :
    (key op : Str) (vs : List Str) → is_empty vs ≡ false → HasValue (compared key op vs)
unfolding compared
HasValue-compared key op [] h = cc h
HasValue-compared key op (v ∷ []) h = inr refl
HasValue-compared key op (v ∷ w ∷ vs) h = inr refl

Yields-pred_tail : (key : Str) (ts : List Tok) → Yields HasValue (pred_tail key ts)
unfolding pred_tail
Yields-pred_tail key [] = tt
Yields-pred_tail key (t ∷ ts) =
    Yields-if HasValue (is_word (lit "in") t) _ _
      (Yields-after HasValue (expect (lit "(") tt ts) _ (λ _ us.
        Yields-bind _ HasValue (vals (lit ",") us) _ (Yields-vals (lit ",") us)
          (λ vs ws h. Yields-expect HasValue (lit ")") _ ws (inr h))))
      (Yields-if HasValue (any (λ op. is_p op t) operators) _ _
        (Yields-bind _ HasValue (vals (lit "|") ts) _ (Yields-vals (lit "|") ts)
          (λ vs us h. HasValue-compared key (text_of t) vs h))
        (inl refl))

Yields-pred : (ts : List Tok) → Yields HasValue (pred ts)
unfolding pred
Yields-pred [] = tt
Yields-pred (ident key ∷ ts) = Yields-pred_tail key ts
Yields-pred (eof ∷ ts) = tt
Yields-pred (value _ ∷ ts) = tt
Yields-pred (quoted _ ∷ ts) = tt
Yields-pred (punct _ ∷ ts) = tt

Yields-preds : (fuel : ℕ) (ts : List Tok) → Yields HaveValues (preds fuel ts)
unfolding preds
Yields-preds zero ts = tt
Yields-preds (suc fuel) ts = Yields-bind HasValue HaveValues (pred ts) _ (Yields-pred ts) (λ p us h.
    Yields-after HaveValues (accept (lit ",") us) _ (λ b ws.
      Yields-if HaveValues b _ _
        (Yields-bind HaveValues HaveValues (preds fuel ws) _ (Yields-preds fuel ws)
          (λ ps xs k. (h, k)))
        (h, tt)))

Yields-atom_preds : (fuel : ℕ) (ts : List Tok) → Yields HaveValues (atom_preds fuel ts)
unfolding atom_preds
Yields-atom_preds fuel [] = tt
Yields-atom_preds fuel (t ∷ ts) =
    Yields-if HaveValues (is_p (lit "[") t) _ _
      (Yields-bind HaveValues HaveValues (preds fuel ts) _ (Yields-preds fuel ts)
        (λ ps us h. Yields-expect HaveValues (lit "]") ps us h))
      tt

abbrev AtomHasValues : Atom → Type 0
AtomHasValues a = HaveValues a.preds

Yields-finish_atom :
    (a : Atom) (ts : List Tok) → AtomHasValues a → Yields AtomHasValues (finish_atom a ts)
unfolding finish_atom
Yields-finish_atom a [] h = Yields-if AtomHasValues (is_blank_atom a) _ _ tt h
Yields-finish_atom a (t ∷ ts) h = Yields-if AtomHasValues (is_blank_atom a) _ _ tt h

Yields-atom : (fuel : ℕ) (ts : List Tok) → Yields AtomHasValues (atom fuel ts)
unfolding atom
Yields-atom fuel ts = Yields-after AtomHasValues (atom_kinds ts) _ (λ ks us.
    Yields-after AtomHasValues (atom_id us) _ (λ id vs.
      Yields-bind HaveValues AtomHasValues (atom_preds fuel vs) _ (Yields-atom_preds fuel vs)
        (λ ps ws h.
          Yields-after AtomHasValues (atom_text ws) _ (λ text xs. Yields-finish_atom _ xs h))))

abbrev IsChain : List Hop × List Atom → Type 0
IsChain (hs, as_) = (length as_ ≡ length hs) × AtomsHaveValues as_

Yields-chain : (fuel : ℕ) (ts : List Tok) → Yields IsChain (chain fuel ts)
unfolding chain
Yields-chain zero ts = tt
Yields-chain (suc fuel) ts = Yields-after IsChain (hop ts) _ (elim [
  | none ↦ λ us. (refl, tt)
  | some h ↦ λ us.
      Yields-bind AtomHasValues IsChain (atom fuel us) _ (Yields-atom fuel us) (λ a vs k.
        Yields-bind IsChain IsChain (chain fuel vs) _ (Yields-chain fuel vs)
          (λ rest ws c. (ap suc c.0, (k, c.1))))
])

Yields-pattern : (fuel : ℕ) (ts : List Tok) → Yields IsShaped (pattern fuel ts)
unfolding pattern IsShaped
Yields-pattern fuel ts =
    Yields-bind AtomHasValues IsShaped (atom fuel ts) _ (Yields-atom fuel ts) (λ a us h.
      Yields-bind IsChain IsShaped (chain fuel us) _ (Yields-chain fuel us) (λ rest vs c.
        Yields-after IsShaped (suffix_at vs) _ (λ at ws.
          Yields-after IsShaped (suffix_sort fuel ws) _ (λ keys xs. (ap suc c.0, (h, c.1))))))

IsShaped-in_scope :
    (q : Query) (at : Option Temporal) (keys : List SortKey)
    → IsShaped q
    → IsShaped (in_scope q at keys)
unfolding in_scope IsShaped
IsShaped-in_scope q none [] h = h
IsShaped-in_scope q none (k ∷ ks) h = h
IsShaped-in_scope q (some t) keys h = h

module _ (sub : Parser Query) (sub_shaped : (ts : List Tok) → Yields IsShaped (sub ts)) where
  Yields-bracketed : (fuel : ℕ) (ts : List Tok) → Yields IsShaped (bracketed fuel sub ts)
  unfolding bracketed
  Yields-bracketed fuel ts = Yields-bind IsShaped IsShaped (sub ts) _ (sub_shaped ts) (λ q us h.
      Yields-after IsShaped (expect (lit ")") tt us) _ (λ _ vs.
        Yields-after IsShaped (suffix_at vs) _ (λ at ws.
          Yields-after IsShaped (suffix_sort fuel ws) _
            (λ keys xs. IsShaped-in_scope q at keys h))))

  Yields-reference : (fuel : ℕ) (t : Tok) (ts : List Tok) → Yields IsShaped (reference fuel t ts)
  unfolding reference IsShaped
  Yields-reference fuel t [] = tt
  Yields-reference fuel t (ident name ∷ ts) =
      Yields-if IsShaped (str_eq name (lit "now")) _ _ (Yields-pattern fuel (t ∷ ident name ∷ ts))
        tt
  Yields-reference fuel t (eof ∷ ts) = Yields-pattern fuel (t ∷ eof ∷ ts)
  Yields-reference fuel t (value v ∷ ts) = Yields-pattern fuel (t ∷ value v ∷ ts)
  Yields-reference fuel t (quoted v ∷ ts) = Yields-pattern fuel (t ∷ quoted v ∷ ts)
  Yields-reference fuel t (punct v ∷ ts) = Yields-pattern fuel (t ∷ punct v ∷ ts)

  Yields-primary : (fuel : ℕ) (ts : List Tok) → Yields IsShaped (primary fuel sub ts)
  unfolding primary
  Yields-primary fuel [] = tt
  Yields-primary fuel (t ∷ ts) =
      Yields-if IsShaped (is_p (lit "@") t) _ _ (Yields-reference fuel t ts) (
        Yields-if IsShaped (is_p (lit "(") t) _ _ (listed (kind_list ts))
          (Yields-pattern fuel (t ∷ ts)))
    where
      listed :
          (o : Option Bool)
          → Yields IsShaped (elim o as (λ _. Out Query) [
            | none ↦ panic
            | some true ↦ pattern fuel (t ∷ ts)
            | some false ↦ bracketed fuel sub ts
          ])
      listed none = tt
      listed (some true) = Yields-pattern fuel (t ∷ ts)
      listed (some false) = Yields-bracketed fuel ts

  Yields-unary : (fuel : ℕ) (ts : List Tok) → Yields IsShaped (unary fuel sub ts)
  unfolding unary IsShaped
  Yields-unary fuel [] = tt
  Yields-unary fuel (t ∷ ts) =
      Yields-if IsShaped (is_p (lit "!") t) _ _
        (Yields-bind IsShaped IsShaped (unary fuel sub ts) _ (Yields-unary fuel ts) (λ q us h. h))
        (Yields-primary fuel (t ∷ ts))

Yields-terms :
    (sep : Str) (p : Parser Query)
    → ((ts : List Tok) → Yields IsShaped (p ts))
    → (fuel : ℕ) (ts : List Tok) → Yields AreShaped (terms fuel sep p ts)
unfolding terms AreShaped
Yields-terms sep p h zero ts = tt
Yields-terms sep p h (suc fuel) ts = Yields-bind IsShaped AreShaped (p ts) _ (h ts) (λ q us k.
    Yields-after AreShaped (accept sep us) _ (λ b vs.
      Yields-if AreShaped b _ _
        (Yields-bind AreShaped AreShaped (terms fuel sep p vs) _ (Yields-terms sep p h fuel vs)
          (λ qs ws m. (k, m)))
        (k, tt)))

IsShaped-inter_all : (qs : Queries) → AreShaped qs → IsShaped (inter_all qs)
unfolding inter_all AreShaped
IsShaped-inter_all no_queries h = h
IsShaped-inter_all (more q no_queries) h = h.0
IsShaped-inter_all (more q (more r qs)) h = h

IsShaped-union_all : (qs : Queries) → AreShaped qs → IsShaped (union_all qs)
unfolding union_all AreShaped
IsShaped-union_all no_queries h = h
IsShaped-union_all (more q no_queries) h = h.0
IsShaped-union_all (more q (more r qs)) h = h

Yields-union : (fuel : ℕ) (ts : List Tok) → Yields IsShaped (union fuel ts)
unfolding union inter
Yields-union zero ts = tt
Yields-union (suc fuel) ts =
    Yields-bind AreShaped IsShaped (terms (suc fuel) (lit "|") (inter (suc fuel) (union fuel)) ts) _
      (Yields-terms (lit "|") _
        (λ us.
          Yields-bind AreShaped IsShaped
            (terms (suc fuel) (lit "&") (unary (suc fuel) (union fuel)) us) _
            (Yields-terms (lit "&") _ (Yields-unary (union fuel) (Yields-union fuel) (suc fuel))
              (suc fuel) us)
            (λ qs vs h. IsShaped-inter_all qs h))
        (suc fuel) ts)
      (λ qs us h. IsShaped-union_all qs h)

Yields-at_end : (q : Query) (ts : List Tok) → IsShaped q → Yields IsShaped (at_end q ts)
unfolding at_end
Yields-at_end q [] h = tt
Yields-at_end q (eof ∷ ts) h = h
Yields-at_end q (ident _ ∷ ts) h = tt
Yields-at_end q (value _ ∷ ts) h = tt
Yields-at_end q (quoted _ ∷ ts) h = tt
Yields-at_end q (punct _ ∷ ts) h = tt

pub parse_query-IsShaped :
    (src : Str) (q : Query) (rest : List Tok) → parse_query src ≡ ok q rest → IsShaped q
unfolding parse_query parse_tokens
parse_query-IsShaped src q rest e = subst (Yields IsShaped) e (whole (lex src))
  where
    whole :
        (l : Lexed)
        → Yields IsShaped (elim l as (λ _. Out Query) [
          | tokens ts ↦ parse_tokens ts
          | rejected ↦ refused
          | unfinished ↦ out_of_fuel
        ])
    whole (tokens ts) =
        Yields-bind IsShaped IsShaped (union (suc (length ts)) ts) _
          (Yields-union (suc (length ts)) ts) (λ r us h. Yields-at_end r us h)
    whole rejected = tt
    whole unfinished = tt
