-- ===== src/Query/Descent.antt =====
-- The upper half of the recursive descent of query.go: patterns with their suffixes, groups, and the
-- three levels of set operations. A parser that calls itself inside parentheses is the argument `sub`,
-- the call one level down.
use kgraph.Base.{
  Str, lit, ℕ, zero, suc, Bool, true, false, if◌then◌else◌, Option, none, some, List, [], ◌∷◌,
  length, str_eq,
}
use kgraph.Query.{
  Temporal, SortKey, Query, Queries, union_of, inter_of, complement, named, matching, scoped,
  no_queries, more,
}
use kgraph.Query.Lex.{Tok, eof, ident, value, tokens, rejected, unfinished, lex}
use kgraph.Query.Parse.{
  Out, ok, refused, panic, out_of_fuel, Parser, bind, is_p, is_word, text_of, accept, expect,
  is_kind, atom, chain,
}

unfoldable pub window : Parser Temporal
unfolding text_of expect bind
window [] = panic
window (a ∷ ts) = bind (expect (lit ",") tt ts) (λ _ us. elim us [
  | [] ↦ panic
  | b ∷ vs ↦ expect (lit "]") (record { now = false; starts = text_of a; ends = text_of b }) vs
])

unfoldable pub temporal : Parser Temporal
unfolding is_word is_p window
temporal [] = panic
temporal (t ∷ ts) =
    if is_word (lit "now") t
    then ok (record { now = true; starts = []; ends = [] }) ts
    else if is_p (lit "[") t
    then window ts
    else elim t [ value d ↦ ok (record { now = false; starts = d; ends = d }) ts | _ ↦ refused ]

unfoldable pub suffix_at : Parser (Option Temporal)
unfolding is_p temporal bind
suffix_at [] = panic
suffix_at (t ∷ ts) =
    if is_p (lit "@") t then bind (temporal ts) (λ a us. ok (some a) us) else ok none (t ∷ ts)

unfoldable pub sort_key : Parser SortKey
unfolding is_word
sort_key [] = panic
sort_key (ident k ∷ []) = panic
sort_key (ident k ∷ u ∷ ts) =
    if is_word (lit "desc") u
    then ok (record { key = k; desc = true }) ts
    else if is_word (lit "asc") u
    then ok (record { key = k; desc = false }) ts
    else ok (record { key = k; desc = false }) (u ∷ ts)
sort_key (_ ∷ ts) = refused

unfoldable pub sort_keys : ℕ → Parser (List SortKey)
unfolding sort_key accept bind
sort_keys zero ts = out_of_fuel
sort_keys (suc fuel) ts = bind (sort_key ts) (λ k us.
    bind (accept (lit ",") us)
      (λ b vs. if b then bind (sort_keys fuel vs) (λ ks ws. ok (k ∷ ks) ws) else ok (k ∷ []) vs))

unfoldable pub suffix_sort : ℕ → Parser (List SortKey)
unfolding is_word sort_keys
suffix_sort fuel [] = panic
suffix_sort fuel (t ∷ ts) = if is_word (lit "sort") t then sort_keys fuel ts else ok [] (t ∷ ts)

unfoldable pub pattern : ℕ → Parser Query
unfolding atom chain suffix_at suffix_sort bind
pattern fuel ts = bind (atom fuel ts) (λ a us. bind (chain fuel us) (λ rest vs.
    bind (suffix_at vs) (λ at ws. bind (suffix_sort fuel ws) (λ keys xs.
      ok (matching (record { atoms = a ∷ rest.1; hops = rest.0; at = at; sort = keys })) xs))))

-- looksLikeKindList, behind the parenthesis; `none` is an index out of range.
unfoldable pub kind_list : List Tok → Option Bool
unfolding is_kind is_p
kind_list [] = none
kind_list (ident k ∷ []) = if is_kind k then none else some false
kind_list (ident k ∷ u ∷ ts) =
    let rest = kind_list ts in
    if is_kind k then (if is_p (lit "|") u then rest else some (is_p (lit ")") u)) else some false
kind_list (_ ∷ ts) = some false

-- A group is its query, unless a suffix scopes it.
unfoldable pub in_scope : Query → Option Temporal → List SortKey → Query
in_scope q none [] = q
in_scope q at keys = scoped q at keys

unfoldable pub bracketed : ℕ → Parser Query → Parser Query
unfolding expect suffix_at suffix_sort in_scope bind
bracketed fuel sub ts = bind (sub ts) (λ q us. bind (expect (lit ")") tt us) (λ _ vs.
    bind (suffix_at vs)
      (λ at ws. bind (suffix_sort fuel ws) (λ keys xs. ok (in_scope q at keys) xs))))

-- `@name`, or a pattern, which refuses the `@`.
unfoldable pub reference : ℕ → Tok → Parser Query
unfolding pattern
reference fuel t [] = panic
reference fuel t (ident name ∷ ts) =
    if str_eq name (lit "now") then pattern fuel (t ∷ ident name ∷ ts) else ok (named name) ts
reference fuel t (u ∷ ts) = pattern fuel (t ∷ u ∷ ts)

unfoldable pub primary : ℕ → Parser Query → Parser Query
unfolding is_p reference kind_list bracketed pattern
primary fuel sub [] = panic
primary fuel sub (t ∷ ts) =
    if is_p (lit "@") t
    then reference fuel t ts
    else if is_p (lit "(") t
    then elim (kind_list ts) [
      | none ↦ panic
      | some true ↦ pattern fuel (t ∷ ts)
      | some false ↦ bracketed fuel sub ts
    ]
    else pattern fuel (t ∷ ts)

unfoldable pub unary : ℕ → Parser Query → Parser Query
unfolding is_p primary bind
unary fuel sub [] = panic
unary fuel sub (t ∷ ts) =
    let rest = unary fuel sub ts in
    if is_p (lit "!") t then bind rest (λ q us. ok (complement q) us) else primary fuel sub (t ∷ ts)

-- The terms of a set operation.
unfoldable pub terms : ℕ → Str → Parser Query → Parser Queries
unfolding accept bind
terms zero sep p ts = out_of_fuel
terms (suc fuel) sep p ts = bind (p ts) (λ q us. bind (accept sep us) (λ b vs.
    if b
    then bind (terms fuel sep p vs) (λ qs ws. ok (more q qs) ws)
    else ok (more q no_queries) vs))

unfoldable pub inter_all : Queries → Query
inter_all (more q no_queries) = q
inter_all qs = inter_of qs

unfoldable pub union_all : Queries → Query
union_all (more q no_queries) = q
union_all qs = union_of qs

unfoldable pub inter : ℕ → Parser Query → Parser Query
unfolding terms unary inter_all bind
inter fuel sub ts = bind (terms fuel (lit "&") (unary fuel sub) ts) (λ qs us. ok (inter_all qs) us)

unfoldable pub union : ℕ → Parser Query
unfolding terms inter union_all bind
union zero ts = out_of_fuel
union (suc fuel) ts =
    bind (terms (suc fuel) (lit "|") (inter (suc fuel) (union fuel)) ts)
      (λ qs us. ok (union_all qs) us)

-- Nothing may follow the query.
unfoldable pub at_end : Query → Parser Query
at_end q [] = panic
at_end q (eof ∷ ts) = ok q (eof ∷ ts)
at_end q (t ∷ ts) = refused

unfoldable pub parse_tokens : Parser Query
unfolding union at_end bind
parse_tokens ts = bind (union (suc (length ts)) ts) at_end

unfoldable pub parse_query : Str → Out Query
unfolding lex parse_tokens
parse_query src = elim (lex src) [
  | tokens ts ↦ parse_tokens ts
  | rejected ↦ refused
  | unfinished ↦ out_of_fuel
]
