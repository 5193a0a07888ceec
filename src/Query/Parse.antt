-- ===== src/Query/Parse.antt =====
-- The recursive descent of query.go. A parser reads the tokens that are left. `panic` is the index out
-- of range of cur() and next() behind the last token, `refused` is an error that ParseQuery returns.
-- Loops that follow tokens of unknown number take fuel.
use kgraph.Base.{
  Str, lit, ℕ, zero, suc, Bool, true, false, ◌&&◌, if◌then◌else◌, Option, none, some, List, [], ◌∷◌,
  any, str_eq, has, is_empty, find_key,
}
use kgraph.Model.{EdgeType, forward_edge}
use kgraph.Closure.{Hop, forward, inverse, undirected}
use kgraph.Query.{Pred, Atom}
use kgraph.Query.Lex.{Tok, eof, ident, value, quoted, punct}

pub data Out {ℓ} (A : Type ℓ) : Type ℓ where
  ok : A → List Tok → Out A
  refused panic out_of_fuel : Out A

abbrev pub Parser : Type 0 → Type 0
Parser A = List Tok → Out A

unfoldable pub bind : {A B : Type 0} → Out A → (A → Parser B) → Out B
bind (ok a rest) f = f a rest
bind refused f = refused
bind panic f = panic
bind out_of_fuel f = out_of_fuel

unfoldable pub is_p : Str → Tok → Bool
is_p s (punct p) = str_eq p s
is_p s _ = false

unfoldable pub is_word : Str → Tok → Bool
is_word s (ident w) = str_eq w s
is_word s _ = false

-- tok.s
unfoldable pub text_of : Tok → Str
text_of eof = []
text_of (ident s) = s
text_of (value s) = s
text_of (quoted s) = s
text_of (punct s) = s

unfoldable pub accept : Str → Parser Bool
unfolding is_p
accept s [] = panic
accept s (t ∷ ts) = if is_p s t then ok true ts else ok false (t ∷ ts)

unfoldable pub expect : {A : Type 0} → Str → A → Parser A
unfolding is_p
expect s a [] = panic
expect s a (t ∷ ts) = if is_p s t then ok a ts else refused

-- The values of a list, with `sep` between two of them.
unfoldable pub vals : Str → Parser (List Str)
unfolding is_p text_of bind
vals sep [] = panic
vals sep (t ∷ []) = panic
vals sep (t ∷ u ∷ ts) =
    let rest = vals sep ts in
    if is_p sep u then bind rest (λ vs us. ok (text_of t ∷ vs) us) else ok (text_of t ∷ []) (u ∷ ts)

unfoldable pub is_kind : Str → Bool
is_kind s =
    has
      (lit "claim"
        ∷ lit "question"
        ∷ lit "group"
        ∷ lit "entity"
        ∷ lit "event"
        ∷ lit "action"
        ∷ lit "source"
        ∷ [])
      s

-- `op` is one of the six comparisons.
unfoldable pub operators : List Str
operators = lit "!=" ∷ lit "<=" ∷ lit ">=" ∷ lit "=" ∷ lit "<" ∷ lit ">" ∷ []

unfoldable pub compared : Str → Str → List Str → Pred
compared key op (v ∷ w ∷ vs) = record {
  key = key;
  op = if str_eq op (lit "=") then lit "in" else op;
  vals = v ∷ w ∷ vs;
}
compared key op vs = record { key = key; op = op; vals = vs }

-- What follows a field name.
unfoldable pub pred_tail : Str → Parser Pred
unfolding is_word is_p vals compared operators bind expect
pred_tail key [] = panic
pred_tail key (t ∷ ts) =
    if is_word (lit "in") t
    then bind (expect (lit "(") tt ts) (λ _ us.
      bind (vals (lit ",") us)
        (λ vs ws. expect (lit ")") (record { key = key; op = lit "in"; vals = vs }) ws))
    else if any (λ op. is_p op t) operators
    then bind (vals (lit "|") ts) (λ vs us. ok (compared key (text_of t) vs) us)
    else ok (record { key = key; op = lit "has"; vals = [] }) (t ∷ ts)

unfoldable pub pred : Parser Pred
unfolding pred_tail
pred [] = panic
pred (ident key ∷ ts) = pred_tail key ts
pred (_ ∷ ts) = refused

unfoldable pub preds : ℕ → Parser (List Pred)
unfolding pred accept bind
preds zero ts = out_of_fuel
preds (suc fuel) ts = bind (pred ts) (λ p us.
    bind (accept (lit ",") us)
      (λ b ws. if b then bind (preds fuel ws) (λ ps xs. ok (p ∷ ps) xs) else ok (p ∷ []) ws))

unfoldable pub kinds : Parser (List Str)
unfolding is_p bind
kinds [] = panic
kinds (ident k ∷ []) = panic
kinds (ident k ∷ u ∷ ts) =
    let rest = kinds ts in
    if is_p (lit "|") u then bind rest (λ ks us. ok (k ∷ ks) us) else ok (k ∷ []) (u ∷ ts)
kinds (_ ∷ ts) = refused

-- The four parts of an atom, each with what was read before it.
unfoldable pub atom_kinds : Parser (List Str)
unfolding is_p kinds expect is_kind bind
atom_kinds [] = panic
atom_kinds (ident k ∷ ts) = if is_kind k then ok (k ∷ []) ts else ok [] (ident k ∷ ts)
atom_kinds (t ∷ ts) =
    if is_p (lit "(") t then bind (kinds ts) (λ ks us. expect (lit ")") ks us) else ok [] (t ∷ ts)

unfoldable pub node_ref : Parser Str
node_ref [] = panic
node_ref (ident s ∷ ts) = ok s ts
node_ref (value s ∷ ts) = ok s ts
node_ref (quoted s ∷ ts) = ok s ts
node_ref (_ ∷ ts) = refused

unfoldable pub atom_id : Parser Str
unfolding is_p node_ref
atom_id [] = panic
atom_id (t ∷ ts) = if is_p (lit "#") t then node_ref ts else ok [] (t ∷ ts)

unfoldable pub atom_preds : ℕ → Parser (List Pred)
unfolding is_p preds expect bind
atom_preds fuel [] = panic
atom_preds fuel (t ∷ ts) =
    if is_p (lit "[") t
    then bind (preds fuel ts) (λ ps us. expect (lit "]") ps us)
    else ok [] (t ∷ ts)

unfoldable pub search_text : Parser Str
search_text [] = panic
search_text (quoted s ∷ ts) = ok s ts
search_text (_ ∷ ts) = refused

unfoldable pub atom_text : Parser Str
unfolding is_p search_text
atom_text [] = panic
atom_text (t ∷ ts) = if is_p (lit "~") t then search_text ts else ok [] (t ∷ ts)

unfoldable pub is_blank_atom : Atom → Bool
is_blank_atom a = is_empty a.kinds && is_empty a.id && is_empty a.preds && is_empty a.text

unfoldable pub finish_atom : Atom → Parser Atom
unfolding is_blank_atom
finish_atom a ts = if is_blank_atom a then elim ts [ [] ↦ panic | _ ∷ _ ↦ refused ] else ok a ts

unfoldable pub atom : ℕ → Parser Atom
unfolding atom_kinds atom_id atom_preds atom_text finish_atom bind
atom fuel ts = bind (atom_kinds ts) (λ ks us. bind (atom_id us) (λ id vs.
    bind (atom_preds fuel vs) (λ ps ws.
      bind (atom_text ws)
        (λ text xs. finish_atom (record { kinds = ks; id = id; preds = ps; text = text }) xs))))

-- The closing side of a hop that was opened by `<-` or by `-`.
unfoldable pub close_hop : Bool → EdgeType → Bool → Parser Hop
unfolding is_p
close_hop back type star [] = panic
close_hop back type star (t ∷ ts) =
    if is_p (lit "->") t
    then (if back then refused else ok (record { type = type; dir = forward; star = star }) ts)
    else if is_p (lit "-") t
    then ok (record { type = type; dir = if back then inverse else undirected; star = star }) ts
    else refused

unfoldable pub hop_body : Bool → Parser Hop
unfolding accept close_hop bind
hop_body back [] = panic
hop_body back (ident name ∷ ts) = elim (find_key forward_edge name) [
  | none ↦ refused
  | some type ↦ bind (accept (lit "*") ts) (λ star us. close_hop back type star us)
]
hop_body back (_ ∷ ts) = refused

-- A hop, if one begins here.
unfoldable pub hop : Parser (Option Hop)
unfolding is_p hop_body bind
hop [] = panic
hop (t ∷ ts) =
    if is_p (lit "<-") t
    then bind (hop_body true ts) (λ h us. ok (some h) us)
    else if is_p (lit "-") t
    then bind (hop_body false ts) (λ h us. ok (some h) us)
    else ok none (t ∷ ts)

-- The hops and atoms after the first atom.
unfoldable pub chain : ℕ → Parser (List Hop × List Atom)
unfolding hop atom bind
chain zero ts = out_of_fuel
chain (suc fuel) ts = bind (hop ts) (λ o us. elim o [
  | none ↦ ok ([], []) us
  | some h ↦
      bind (atom fuel us) (λ a vs. bind (chain fuel vs) (λ rest ws. ok (h ∷ rest.0, a ∷ rest.1) ws))
])
