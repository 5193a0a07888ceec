-- ===== src/Query/Total.antt =====
-- The lexer and the parser never run out of fuel.
use kgraph.Base.{
  Str, lit, ℕ, zero, suc, ◌≤◌, ◌<◌, Bool, true, false, if◌then◌else◌, Option, none, some, List, [],
  ◌∷◌, arith, length, any, find_key,
}
use kgraph.Model.{EdgeType, forward_edge}
use kgraph.Closure.{Hop}
use kgraph.Query.{Atom}
use kgraph.Query.Lex.{Tok, eof, ident, value, quoted, punct}
use kgraph.Query.Parse.{
  Out, ok, refused, panic, out_of_fuel, Parser, bind, is_p, accept, expect, vals, operators,
  pred_tail, pred, preds, kinds, atom_kinds, node_ref, atom_id, atom_preds, search_text, atom_text,
  finish_atom, is_blank_atom, atom, close_hop, hop_body, hop, chain, is_word, is_kind,
}

-- The result leaves at most `n` tokens, and is not the end of the fuel.
abbrev pub Within : {A : Type 0} → ℕ → Out A → Type 0
Within n (ok a rest) = length rest ≤ n
Within n refused = Unit
Within n panic = Unit
Within n out_of_fuel = ⊥

pub Within-bind :
    {A B : Type 0} (n m : ℕ) (o : Out A) (f : A → Parser B)
    → Within n o
    → ((a : A) (rest : List Tok) → length rest ≤ n → Within m (f a rest))
    → Within m (bind o f)
unfolding bind
Within-bind n m (ok a rest) f h k = k a rest h
Within-bind n m refused f h k = tt
Within-bind n m panic f h k = tt
Within-bind n m out_of_fuel f h k = absurd h

pub Within-if :
    {A : Type 0} (n : ℕ) (b : Bool) (x y : Out A)
    → Within n x
    → Within n y
    → Within n (if b then x else y)
Within-if n true x y h k = h
Within-if n false x y h k = k

pub Within-accept : (s : Str) (n : ℕ) (ts : List Tok) → length ts ≤ n → Within n (accept s ts)
unfolding accept
Within-accept s n [] h = tt
Within-accept s n (t ∷ ts) h = Within-if n (is_p s t) _ _ (omega (arith, h)) h

pub Within-expect :
    {A : Type 0} (s : Str) (a : A) (n : ℕ) (ts : List Tok)
    → length ts ≤ n
    → Within n (expect s a ts)
unfolding expect
Within-expect s a n [] h = tt
Within-expect s a n (t ∷ ts) h = Within-if n (is_p s t) _ _ (omega (arith, h)) tt

pub Within-vals : (sep : Str) (n : ℕ) (ts : List Tok) → length ts ≤ n → Within n (vals sep ts)
unfolding vals
Within-vals sep n [] h = tt
Within-vals sep n (t ∷ []) h = tt
Within-vals sep n (t ∷ u ∷ ts) h =
    Within-if n (is_p sep u) _ _
      (Within-bind n n (vals sep ts) _ (Within-vals sep n ts (omega (arith, h))) (λ vs us k. k))
      (omega (arith, h))

Within-pred_tail : (key : Str) (n : ℕ) (ts : List Tok) → length ts ≤ n → Within n (pred_tail key ts)
unfolding pred_tail
Within-pred_tail key n [] h = tt
Within-pred_tail key n (t ∷ ts) h =
    let l : length ts ≤ n = omega (arith, h) in
    Within-if n (is_word (lit "in") t) _ _
      (Within-bind n n (expect (lit "(") tt ts) _ (Within-expect (lit "(") tt n ts l) (λ _ us k.
        Within-bind n n (vals (lit ",") us) _ (Within-vals (lit ",") n us k)
          (λ vs ws m. Within-expect (lit ")") _ n ws m)))
      (Within-if n (any (λ op. is_p op t) operators) _ _
        (Within-bind n n (vals (lit "|") ts) _ (Within-vals (lit "|") n ts l) (λ vs us k. k)) h)

pub Within-pred : (n : ℕ) (ts : List Tok) → length ts ≤ suc n → Within n (pred ts)
unfolding pred
Within-pred n [] h = tt
Within-pred n (ident key ∷ ts) h = Within-pred_tail key n ts (omega (arith, h))
Within-pred n (eof ∷ ts) h = tt
Within-pred n (value _ ∷ ts) h = tt
Within-pred n (quoted _ ∷ ts) h = tt
Within-pred n (punct _ ∷ ts) h = tt

-- A loop of a body that leaves at most `n` tokens, and a separator.
pub Within-separated :
    {A B : Type 0} (sep : Str) (n m : ℕ) (body : Out A) (last : A → B) (next : A → Parser B)
    → n ≤ m
    → Within n body
    → ((a : A) (ts : List Tok) → length ts ≤ n → Within m (next a ts))
    → Within m
        (bind body (λ a us. bind (accept sep us) (λ b vs. if b then next a vs else ok (last a) vs)))
Within-separated sep n m body last next nm h k = Within-bind n m body _ h (λ a us l.
    Within-bind n m (accept sep us) _ (Within-accept sep n us l)
      (λ b vs j. Within-if m b _ _ (k a vs j) (omega (arith, nm, j))))

Within-preds :
    (fuel n : ℕ) (ts : List Tok) → length ts < fuel → length ts ≤ suc n → Within n (preds fuel ts)
unfolding preds pred bind
Within-preds zero n ts h k = absurd (omega arith)
Within-preds (suc fuel) n [] h k = tt
Within-preds (suc fuel) n (t ∷ ts) h k =
    Within-separated (lit ",") (length ts) n (pred (t ∷ ts)) (λ p. p ∷ [])
      (λ p vs. bind (preds fuel vs) (λ ps xs. ok (p ∷ ps) xs)) (omega (arith, k))
      (Within-pred (length ts) (t ∷ ts) (omega arith))
      (λ p vs l.
        Within-bind n n (preds fuel vs) _
          (Within-preds fuel n vs (omega (arith, h, l)) (omega (arith, k, l))) (λ ps xs m. m))

Within-kinds : (n : ℕ) (ts : List Tok) → length ts ≤ n → Within n (kinds ts)
unfolding kinds
Within-kinds n [] h = tt
Within-kinds n (ident k ∷ []) h = tt
Within-kinds n (ident k ∷ u ∷ ts) h =
    Within-if n (is_p (lit "|") u) _ _
      (Within-bind n n (kinds ts) _ (Within-kinds n ts (omega (arith, h))) (λ ks us m. m))
      (omega (arith, h))
Within-kinds n (eof ∷ ts) h = tt
Within-kinds n (value _ ∷ ts) h = tt
Within-kinds n (quoted _ ∷ ts) h = tt
Within-kinds n (punct _ ∷ ts) h = tt

Within-kinds_in :
    (n : ℕ) (t : Tok) (ts : List Tok)
    → length (t ∷ ts) ≤ n
    → Within n (
        if is_p (lit "(") t
        then bind (kinds ts) (λ ks us. expect (lit ")") ks us)
        else ok [] (t ∷ ts))
Within-kinds_in n t ts h =
    Within-if n (is_p (lit "(") t) _ _
      (Within-bind n n (kinds ts) _ (Within-kinds n ts (omega (arith, h)))
        (λ ks us m. Within-expect (lit ")") ks n us m))
      h

Within-atom_kinds : (n : ℕ) (ts : List Tok) → length ts ≤ n → Within n (atom_kinds ts)
unfolding atom_kinds
Within-atom_kinds n [] h = tt
Within-atom_kinds n (ident k ∷ ts) h = Within-if n (is_kind k) _ _ (omega (arith, h)) h
Within-atom_kinds n (eof ∷ ts) h = Within-kinds_in n eof ts h
Within-atom_kinds n (value s ∷ ts) h = Within-kinds_in n (value s) ts h
Within-atom_kinds n (quoted s ∷ ts) h = Within-kinds_in n (quoted s) ts h
Within-atom_kinds n (punct s ∷ ts) h = Within-kinds_in n (punct s) ts h

Within-node_ref : (n : ℕ) (ts : List Tok) → length ts ≤ n → Within n (node_ref ts)
unfolding node_ref
Within-node_ref n [] h = tt
Within-node_ref n (ident s ∷ ts) h = omega (arith, h)
Within-node_ref n (value s ∷ ts) h = omega (arith, h)
Within-node_ref n (quoted s ∷ ts) h = omega (arith, h)
Within-node_ref n (eof ∷ ts) h = tt
Within-node_ref n (punct _ ∷ ts) h = tt

Within-atom_id : (n : ℕ) (ts : List Tok) → length ts ≤ n → Within n (atom_id ts)
unfolding atom_id
Within-atom_id n [] h = tt
Within-atom_id n (t ∷ ts) h =
    Within-if n (is_p (lit "#") t) _ _ (Within-node_ref n ts (omega (arith, h))) h

Within-atom_preds :
    (fuel n : ℕ) (ts : List Tok) → length ts ≤ fuel → length ts ≤ n → Within n (atom_preds fuel ts)
unfolding atom_preds
Within-atom_preds fuel n [] h k = tt
Within-atom_preds fuel n (t ∷ ts) h k =
    Within-if n (is_p (lit "[") t) _ _
      (Within-bind n n (preds fuel ts) _
        (Within-preds fuel n ts (omega (arith, h)) (omega (arith, k)))
        (λ ps us m. Within-expect (lit "]") ps n us m))
      k

Within-search_text : (n : ℕ) (ts : List Tok) → length ts ≤ n → Within n (search_text ts)
unfolding search_text
Within-search_text n [] h = tt
Within-search_text n (quoted s ∷ ts) h = omega (arith, h)
Within-search_text n (eof ∷ ts) h = tt
Within-search_text n (value _ ∷ ts) h = tt
Within-search_text n (ident _ ∷ ts) h = tt
Within-search_text n (punct _ ∷ ts) h = tt

Within-atom_text : (n : ℕ) (ts : List Tok) → length ts ≤ n → Within n (atom_text ts)
unfolding atom_text
Within-atom_text n [] h = tt
Within-atom_text n (t ∷ ts) h =
    Within-if n (is_p (lit "~") t) _ _ (Within-search_text n ts (omega (arith, h))) h

Within-finish_atom :
    (a : Atom) (n : ℕ) (ts : List Tok) → length ts ≤ n → Within n (finish_atom a ts)
unfolding finish_atom
Within-finish_atom a n [] h = Within-if n (is_blank_atom a) panic (ok a []) tt h
Within-finish_atom a n (t ∷ ts) h = Within-if n (is_blank_atom a) refused (ok a (t ∷ ts)) tt h

pub Within-atom :
    (fuel n : ℕ) (ts : List Tok)
    → length ts ≤ fuel
    → length ts ≤ n
    → n ≤ fuel
    → Within n (atom fuel ts)
unfolding atom
Within-atom fuel n ts h k l =
    Within-bind n n (atom_kinds ts) _ (Within-atom_kinds n ts k) (λ ks us i.
      Within-bind n n (atom_id us) _ (Within-atom_id n us i) (λ id vs j.
        Within-bind n n (atom_preds fuel vs) _ (Within-atom_preds fuel n vs (omega (arith, j, l)) j)
          (λ ps ws o.
            Within-bind n n (atom_text ws) _ (Within-atom_text n ws o)
              (λ text xs q. Within-finish_atom _ n xs q))))

Within-close_hop :
    (back : Bool) (type : EdgeType) (star : Bool) (n : ℕ) (ts : List Tok)
    → length ts ≤ n
    → Within n (close_hop back type star ts)
unfolding close_hop
Within-close_hop back type star n [] h = tt
Within-close_hop back type star n (t ∷ ts) h =
    Within-if n (is_p (lit "->") t) _ _ (Within-if n back _ _ tt (omega (arith, h)))
      (Within-if n (is_p (lit "-") t) _ _ (omega (arith, h)) tt)

Within-hop_body :
    (back : Bool) (n : ℕ) (ts : List Tok) → length ts ≤ n → Within n (hop_body back ts)
unfolding hop_body
Within-hop_body back n [] h = tt
Within-hop_body back n (ident name ∷ ts) h = go (find_key forward_edge name)
  where
    go :
        (o : Option EdgeType)
        → Within n (elim o as (λ _. Out Hop) [
          | none ↦ refused
          | some type ↦ bind (accept (lit "*") ts) (λ star us. close_hop back type star us)
        ])
    go none = tt
    go (some type) =
        Within-bind n n (accept (lit "*") ts) _ (Within-accept (lit "*") n ts (omega (arith, h)))
          (λ star us m. Within-close_hop back type star n us m)
Within-hop_body back n (eof ∷ ts) h = tt
Within-hop_body back n (value _ ∷ ts) h = tt
Within-hop_body back n (quoted _ ∷ ts) h = tt
Within-hop_body back n (punct _ ∷ ts) h = tt

-- A hop takes a token, and where there is none it leaves the tokens as they were.
HopFits : ℕ → Out (Option Hop) → Type 0
HopFits n (ok none rest) = length rest ≤ suc n
HopFits n (ok (some h) rest) = length rest ≤ n
HopFits n refused = Unit
HopFits n panic = Unit
HopFits n out_of_fuel = ⊥

HopFits-some : (n : ℕ) (o : Out Hop) → Within n o → HopFits n (bind o (λ h us. ok (some h) us))
unfolding HopFits bind
HopFits-some n (ok h us) k = k
HopFits-some n refused k = tt
HopFits-some n panic k = tt
HopFits-some n out_of_fuel k = absurd k

hop-HopFits : (n : ℕ) (ts : List Tok) → length ts ≤ suc n → HopFits n (hop ts)
unfolding hop HopFits
hop-HopFits n [] h = tt
hop-HopFits n (t ∷ ts) h = go (is_p (lit "<-") t) (is_p (lit "-") t)
  where
    go :
        (p q : Bool)
        → HopFits n (
            if p
            then bind (hop_body true ts) (λ h us. ok (some h) us)
            else if q
            then bind (hop_body false ts) (λ h us. ok (some h) us)
            else ok none (t ∷ ts))
    go true q = HopFits-some n (hop_body true ts) (Within-hop_body true n ts (omega (arith, h)))
    go false true =
        HopFits-some n (hop_body false ts) (Within-hop_body false n ts (omega (arith, h)))
    go false false = h

-- What a chain does after a hop.
Within-chain_step :
    {B : Type 0} (n m : ℕ) (o : Out (Option Hop)) (stop : B) (next : Hop → Parser B)
    → HopFits n o
    → suc n ≤ m
    → ((h : Hop) (us : List Tok) → length us ≤ n → Within m (next h us))
    → Within m (bind o (λ o us. elim o as (λ _. Out B) [ none ↦ ok stop us | some h ↦ next h us ]))
unfolding HopFits bind
Within-chain_step n m (ok none us) stop next h nm k = omega (arith, h, nm)
Within-chain_step n m (ok (some x) us) stop next h nm k = k x us h
Within-chain_step n m refused stop next h nm k = tt
Within-chain_step n m panic stop next h nm k = tt
Within-chain_step n m out_of_fuel stop next h nm k = absurd h

pub Within-chain :
    (fuel n : ℕ) (ts : List Tok) → length ts < fuel → length ts ≤ n → Within n (chain fuel ts)
unfolding chain hop bind
Within-chain zero n ts h k = absurd (omega arith)
Within-chain (suc fuel) n [] h k = tt
Within-chain (suc fuel) n (t ∷ ts) h k =
    Within-chain_step (length ts) n (hop (t ∷ ts)) _ _
      (hop-HopFits (length ts) (t ∷ ts) (omega arith)) (omega (arith, k))
      (λ x us l.
        Within-bind (length ts) n (atom fuel us) _
          (Within-atom fuel (length ts) us (omega (arith, h, l)) l (omega (arith, h)))
          (λ a vs m.
            Within-bind n n (chain fuel vs) _
              (Within-chain fuel n vs (omega (arith, h, m)) (omega (arith, k, m)))
              (λ rest ws i. i)))
