-- ===== src/Query/Eval.antt =====
-- eval.go: Eval, `evalPattern`, `walk` and `sortIDs`. A reference to a named query takes a level of
-- fuel, and `unfinished` is its end. A set is a list, and `keys` sorts it. The answers of Satisfied are
-- given, as `sat`: where it does not return, at a date, neither does Eval. Query.Eval.Answered takes
-- them from the recursion of Satisfied.
pub mod Ends
pub mod Safe
pub mod Parsed
pub mod Answered
use kgraph.Base.{
  Str, lit, ℕ, zero, suc, ◌==◌, Bool, true, false, not, ◌&&◌, ◌||◌, if◌then◌else◌, Option, none,
  some, List, [], ◌∷◌, ◌++◌, is_empty, has, length, str_eq, str_lt, find_key, keys_of, keep,
  sort_by, sort_strings,
}
use kgraph.Model.{Node}
use kgraph.Time.{Floats, Cmp, before, same, after, compare, date_overlaps_window}
use kgraph.Graph.{Graph, Nodes, node_at}
use kgraph.Graph.Resolve.{Resolved, node, ambiguous, resolve_ref}
use kgraph.Closure.{Hop, hop_targets}
use kgraph.Values.{Numbers, Calendar}
use kgraph.Query.{
  Query, Queries, no_queries, more, union_of, inter_of, complement, named, matching, scoped,
  Temporal, SortKey, Atom, Pattern,
}
use kgraph.Query.Field.{live_at, date_of, field, match_atom}

-- The result, an error, the panic of an index out of range, or the end of the fuel.
pub data Result {ℓ} (A : Type ℓ) : Type ℓ where
  found : A → Result A
  failed crashed unfinished : Result A

unfoldable pub and_then : {A B : Type 0} → Result A → (A → Result B) → Result B
and_then (found a) f = f a
and_then failed f = failed
and_then crashed f = crashed
and_then unfinished f = unfinished

unfoldable pub or_crash : {A : Type 0} → Option A → Result A
or_crash none = crashed
or_crash (some a) = found a

unfoldable pub or_unfinished : {A : Type 0} → Option A → Result A
or_unfinished none = unfinished
or_unfinished (some a) = found a

-- A loop that collects what a test accepts.
unfoldable pub select : {A : Type 0} → (A → Result Bool) → List A → Result (List A)
unfolding and_then
select f [] = found []
select f (x ∷ xs) =
    let rest = select f xs in
    and_then (f x) (λ b. and_then rest (λ ys. found (if b then x ∷ ys else ys)))

pub record Env : Type 0 where
  pub now : Str
  pub named : List (Str × Query)

-- keys(toSet(ids)).
unfoldable pub to_set : List Str → List Str
to_set [] = []
to_set (x ∷ xs) = let rest = to_set xs in if has xs x then rest else x ∷ rest

unfoldable pub keys : List Str → List Str
unfolding to_set
keys ids = sort_strings (to_set ids)

-- The date that a field is read at.
unfoldable pub resolve_at_for : Option Temporal → Env → Str
resolve_at_for none env = []
resolve_at_for (some t) env = if t.now then env.now else t.starts

unfoldable pub inherited : Option Temporal → Option Temporal → Option Temporal
inherited none outer = outer
inherited (some t) outer = some t

-- The start and the end of a window.
unfoldable pub window_of : Option Temporal → Option (Str × Str)
window_of none = none
window_of (some t) =
    if not t.now && not (is_empty t.ends) && not (str_eq t.ends t.starts)
    then some (t.starts, t.ends)
    else none

-- The terms of Inter so far, with one more; `none` is nil, before the first.
unfoldable pub meet : Option (List Str) → List Str → List Str
unfolding to_set
meet none ids = to_set ids
meet (some acc) ids = keep (λ id. has ids id) acc

module _ (fl : Floats) (num : Numbers) (cal : Calendar) (lower : Str → Str) (sat : Str → Str → Bool)
    (g : Graph) where
  -- The comparison of sortIDs on two nodes; the ids decide when no key does.
  unfoldable pub less_by : List SortKey → Str → Node → Node → Str → Str → Bool
  unfolding field
  less_by [] at a b x y = str_lt x y
  less_by (k ∷ ks) at a b x y =
      let rest = less_by ks at a b x y in
      elim (field fl num cal lower sat g a k.key at) [
        | none ↦ elim (field fl num cal lower sat g b k.key at) [ none ↦ rest | some _ ↦ false ]
        | some av ↦ elim (field fl num cal lower sat g b k.key at) [
          | none ↦ true
          | some bv ↦ elim (compare fl av bv) [ before ↦ not k.desc | same ↦ rest | after ↦ k.desc ]
        ]
      ]

  unfoldable pub id_key : List SortKey
  id_key = record { key = lit "id"; desc = false } ∷ []

  -- The ids that are sorted are all of the graph.
  unfoldable pub less_ids : List SortKey → Str → Str → Str → Bool
  unfolding less_by
  less_ids ks at x y = elim (node_at g x) [
    | none ↦ false
    | some a ↦ elim (node_at g y) [ none ↦ false | some b ↦ less_by ks at a b x y ]
  ]

  unfoldable pub sort_ids : List Str → List SortKey → Str → List Str
  unfolding less_ids id_key
  sort_ids ids ks at = sort_by (less_ids (if is_empty ks then id_key else ks) at) ids

  -- Whether the next atom matches a target that is a node.
  unfoldable pub suits : List Atom → Str → Str → Str → Result Bool
  unfolding match_atom or_crash
  suits atoms at now to = elim (node_at g to) [
    | none ↦ found false
    | some n ↦ elim atoms [
      | [] ↦ crashed
      | a ∷ _ ↦ or_crash (match_atom fl num cal lower sat g a n at now)
    ]
  ]

  unfoldable pub next_all : List Atom → Hop → Str → Str → List Str → Result (List Str)
  unfolding live_at hop_targets suits select or_unfinished
  next_all atoms h at now [] = found []
  next_all atoms h at now (x ∷ xs) =
      let rest = next_all atoms h at now xs in
      and_then (or_unfinished (hop_targets (live_at fl num cal lower sat g at) g x h)) (λ tos.
        and_then (select (suits atoms at now) tos) (λ ns. and_then rest (λ ms. found (ns ++ ms))))

  -- The loop over the hops, with the atoms after the one that is bound.
  unfoldable pub walk : List Hop → List Atom → Str → Str → List Str → Result Bool
  unfolding next_all keys
  walk [] atoms at now cur = found true
  walk (h ∷ hs) atoms at now cur = and_then (next_all atoms h at now cur) (elim [
    | [] ↦ found false
    | x ∷ xs ↦ walk hs (elim atoms [ [] ↦ [] | _ ∷ tl ↦ tl ]) at now (keys (x ∷ xs))
  ])

  unfoldable pub resolve_atom : Atom → Str → Result Atom
  unfolding resolve_ref
  resolve_atom a at = if is_empty a.id then found a else elim (resolve_ref fl g a.id at) [
    | node id ↦ found (record a { id = id })
    | ambiguous _ ↦ failed
  ]

  unfoldable pub resolve_atoms : List Atom → Str → Result (List Atom)
  unfolding resolve_atom and_then
  resolve_atoms [] at = found []
  resolve_atoms (a ∷ later) at =
      let rest = resolve_atoms later at in
      and_then (resolve_atom a at) (λ b. and_then rest (λ bs. found (b ∷ bs)))

  -- A node whose date is not known is in no window.
  unfoldable pub in_window : Option (Str × Str) → Str → Bool
  unfolding date_of
  in_window none id = true
  in_window (some (from, to)) id = elim (date_of fl num cal lower sat g id) [
    | none ↦ false
    | some d ↦ date_overlaps_window d from to
  ]

  -- One turn of the loop over the nodes.
  unfoldable pub binds : List Atom → Pattern → Str → Str → Str × Node → Result Bool
  unfolding match_atom in_window walk and_then or_crash
  binds [] p at now (id, n) = crashed
  binds (a ∷ later) p at now (id, n) =
      and_then (or_crash (match_atom fl num cal lower sat g a n at now)) (λ b.
        if b && in_window (window_of p.at) id
        then walk p.hops later at now (id ∷ [])
        else found false)

  unfoldable pub eval_pattern : Env → Pattern → Result (List Str)
  unfolding resolve_at_for resolve_atoms binds select sort_ids
  eval_pattern env p =
      let at = resolve_at_for p.at env in
      and_then (resolve_atoms p.atoms at) (λ atoms.
        and_then (select (binds atoms p at env.now) g.nodes)
          (λ hits. found (sort_ids (keys_of hits) p.sort at)))

  -- The ids of the graph that are not in `excl`.
  unfoldable pub others : List Str → List Str
  others excl = keep (λ id. not (has excl id)) (keys_of g.nodes)

  -- g.eval, where `deref` evaluates a named query under a temporal context. The terms of Union are
  -- evaluated in order, and those of Inter with the ids that are left.
  unfoldable mutual
    pub eval :
        Env
        → (Option Temporal → Str → Result (List Str))
        → Option Temporal
        → Query
        → Result (List Str)
    eval env deref outer (scoped x at sort) =
        and_then (eval env deref (inherited at outer) x) (λ ids. found (
          if is_empty sort
          then ids
          else sort_ids ids sort (resolve_at_for (inherited at outer) env)))
    eval env deref outer (matching p) = eval_pattern env (record p { at = inherited p.at outer })
    eval env deref outer (named name) = deref outer name
    eval env deref outer (complement x) =
        and_then (eval env deref outer x) (λ ids. found (others ids))
    eval env deref outer (inter_of qs) =
        and_then (eval_inter env deref outer none qs) (λ ids. found (keys ids))
    eval env deref outer (union_of qs) =
        and_then (eval_union env deref outer qs) (λ ids. found (keys ids))

    pub eval_union :
        Env
        → (Option Temporal → Str → Result (List Str))
        → Option Temporal
        → Queries
        → Result (List Str)
    eval_union env deref outer no_queries = found []
    eval_union env deref outer (more q qs) =
        let rest = eval_union env deref outer qs in
        and_then (eval env deref outer q) (λ ids. and_then rest (λ acc. found (ids ++ acc)))

    pub eval_inter :
        Env
        → (Option Temporal → Str → Result (List Str))
        → Option Temporal
        → Option (List Str)
        → Queries
        → Result (List Str)
    eval_inter env deref outer acc no_queries = found (elim acc [ none ↦ [] | some ids ↦ ids ])
    eval_inter env deref outer acc (more q qs) =
        and_then (eval env deref outer q)
          (λ ids. eval_inter env deref outer (some (meet acc ids)) qs)

  -- The case Ref of g.eval; `seen` holds the names that are being evaluated.
  unfoldable pub follow :
      Env
      → (List Str → Option Temporal → Query → Result (List Str))
      → List Str
      → Option Temporal
      → Str
      → Result (List Str)
  follow env deeper seen outer name = elim (has seen name) [
    | true ↦ failed
    | false ↦ elim (find_key env.named name) [
      | none ↦ failed
      | some q ↦ deeper (name ∷ seen) outer q
    ]
  ]

  unfoldable pub eval_under : Env → ℕ → List Str → Option Temporal → Query → Result (List Str)
  unfolding eval follow
  eval_under env zero seen outer q = eval env (λ at name. unfinished) outer q
  eval_under env (suc fuel) seen outer q = eval env (follow env (eval_under env fuel) seen) outer q

  -- Eval.
  unfoldable pub eval_query : Env → Query → Result (List Str)
  unfolding eval_under
  eval_query env q = eval_under env (suc (length env.named)) [] none q
