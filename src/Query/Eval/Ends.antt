-- ===== src/Query/Eval/Ends.antt =====
-- The evaluation of a query ends.
use kgraph.Base.{
  Str, ℕ, zero, suc, ◌<◌, ◌≡◌, ◌≢◌, refl, ap, inl, inr, Bool, true, false, ◌&&◌, if◌then◌else◌,
  Option, none, some, List, [], ◌∷◌, arith, is_empty, has, length, find_key, Bool-cases,
  Option-cases,
}
use kgraph.Model.{Node}
use kgraph.Time.{Floats}
use kgraph.Graph.{Graph, node_at}
use kgraph.Graph.Build.WellFormed.{IsWellFormed}
use kgraph.Graph.Unseen.{unseen, unseen-cons-lt, unseen-le-length}
use kgraph.Graph.Resolve.{Resolved, node, ambiguous, resolve_ref}
use kgraph.Closure.{Hop, hop_targets}
use kgraph.Closure.Ends.{hop_targets_exact}
use kgraph.Values.{Numbers, Calendar}
use kgraph.Query.{
  Query, Queries, no_queries, more, union_of, inter_of, complement, named, matching, scoped,
  Temporal, Atom, Pattern,
}
use kgraph.Query.Field.{live_at, match_atom}
use kgraph.Query.Eval.{
  Result, found, failed, crashed, unfinished, and_then, or_crash, or_unfinished, select, Env, keys,
  resolve_at_for, inherited, window_of, meet, suits, next_all, walk, resolve_atom, resolve_atoms,
  in_window, binds, eval_pattern, eval, eval_union, eval_inter, follow, eval_under, eval_query,
}

abbrev Finishes : {A : Type 0} → Result A → Type 0
Finishes r = r ≢ unfinished

Finishes-and_then :
    {A B : Type 0} (r : Result A) (f : A → Result B)
    → Finishes r
    → ((a : A) → Finishes (f a))
    → Finishes (and_then r f)
unfolding and_then
Finishes-and_then (found a) f h k p = k a p
Finishes-and_then failed f h k p = cc p
Finishes-and_then crashed f h k p = cc p
Finishes-and_then unfinished f h k p = h refl

Finishes-found : {A : Type 0} (a : A) → Finishes (found a)
Finishes-found a p = cc p

Finishes-if :
    {A : Type 0} (b : Bool) (x y : Result A)
    → Finishes x
    → Finishes y
    → Finishes (if b then x else y)
Finishes-if true x y h k = h
Finishes-if false x y h k = k

Finishes-or_crash : {A : Type 0} (o : Option A) → Finishes (or_crash o)
unfolding or_crash
Finishes-or_crash none p = cc p
Finishes-or_crash (some a) p = cc p

Finishes-select :
    {A : Type 0} (f : A → Result Bool) (xs : List A)
    → ((a : A) → Finishes (f a))
    → Finishes (select f xs)
unfolding select
Finishes-select f [] h = Finishes-found []
Finishes-select f (x ∷ xs) h =
    Finishes-and_then (f x) _ (h x)
      (λ b. Finishes-and_then (select f xs) _ (Finishes-select f xs h) (λ ys. Finishes-found _))

module _ (fl : Floats) (num : Numbers) (cal : Calendar) (lower : Str → Str) (sat : Str → Str → Bool)
    (g : Graph) (wf : IsWellFormed g) where
  Finishes-hop :
      (h : Hop) (at x : Str)
      → Finishes (or_unfinished (hop_targets (live_at fl num cal lower sat g at) g x h))
  unfolding hop_targets or_unfinished
  Finishes-hop h at x p = elim (Bool-cases h.star) [
    | inl s ↦
        let (res, e, once, exact) =
          hop_targets_exact (live_at fl num cal lower sat g at) g h x wf s in
        cc (ap or_unfinished e, p)
    | inr s ↦ cc (rw (s, hop_targets) at p)
  ]

  Finishes-suits :
      (atoms : List Atom) (at now to : Str)
      → Finishes (suits fl num cal lower sat g atoms at now to)
  unfolding suits
  Finishes-suits [] at now to p = elim (Option-cases (node_at g to)) [
    | inl q ↦ cc (rw (q, suits) at p)
    | inr (n, q) ↦ cc (rw (q, suits) at p)
  ]
  Finishes-suits (a ∷ later) at now to p = elim (Option-cases (node_at g to)) [
    | inl q ↦ cc (rw (q, suits) at p)
    | inr (n, q) ↦ Finishes-or_crash _ (rw (q, suits) at p)
  ]

  Finishes-next_all :
      (atoms : List Atom) (h : Hop) (at now : Str) (cur : List Str)
      → Finishes (next_all fl num cal lower sat g atoms h at now cur)
  unfolding next_all
  Finishes-next_all atoms h at now [] = Finishes-found []
  Finishes-next_all atoms h at now (x ∷ xs) =
      Finishes-and_then (or_unfinished (hop_targets (live_at fl num cal lower sat g at) g x h)) _
        (Finishes-hop h at x)
        (λ tos.
          Finishes-and_then (select (suits fl num cal lower sat g atoms at now) tos) _
            (Finishes-select _ tos (Finishes-suits atoms at now))
            (λ ns.
              Finishes-and_then (next_all fl num cal lower sat g atoms h at now xs) _
                (Finishes-next_all atoms h at now xs) (λ ms. Finishes-found _)))

  Finishes-walk :
      (hs : List Hop) (atoms : List Atom) (at now : Str) (cur : List Str)
      → Finishes (walk fl num cal lower sat g hs atoms at now cur)
  unfolding walk
  Finishes-walk [] atoms at now cur = Finishes-found true
  Finishes-walk (h ∷ hs) atoms at now cur =
      Finishes-and_then (next_all fl num cal lower sat g atoms h at now cur) _
        (Finishes-next_all atoms h at now cur)
        (elim [ [] ↦ Finishes-found false | x ∷ xs ↦ Finishes-walk hs _ at now (keys (x ∷ xs)) ])

  Finishes-resolve_atom :
      (a : Atom) (at : Str) → Finishes (resolve_atom fl num cal lower sat g a at)
  unfolding resolve_atom
  Finishes-resolve_atom a at =
      Finishes-if (is_empty a.id) _ _ (Finishes-found a) (denoted (resolve_ref fl g a.id at))
    where
      denoted :
          (r : Resolved)
          → Finishes (elim r as (λ _. Result Atom) [
            | node id ↦ found (record a { id = id })
            | ambiguous _ ↦ failed
          ])
      denoted (node id) p = cc p
      denoted (ambiguous _) p = cc p

  Finishes-resolve_atoms :
      (atoms : List Atom) (at : Str) → Finishes (resolve_atoms fl num cal lower sat g atoms at)
  unfolding resolve_atoms
  Finishes-resolve_atoms [] at = Finishes-found []
  Finishes-resolve_atoms (a ∷ later) at =
      Finishes-and_then (resolve_atom fl num cal lower sat g a at) _ (Finishes-resolve_atom a at)
        (λ b.
          Finishes-and_then (resolve_atoms fl num cal lower sat g later at) _
            (Finishes-resolve_atoms later at) (λ bs. Finishes-found _))

  Finishes-binds :
      (atoms : List Atom) (p : Pattern) (at now : Str) (x : Str × Node)
      → Finishes (binds fl num cal lower sat g atoms p at now x)
  unfolding binds
  Finishes-binds [] p at now (id, n) = λ q. cc q
  Finishes-binds (a ∷ later) p at now (id, n) =
      Finishes-and_then (or_crash (match_atom fl num cal lower sat g a n at now)) _
        (Finishes-or_crash _)
        (λ b.
          Finishes-if (b && in_window fl num cal lower sat g (window_of p.at) id) _ _
            (Finishes-walk p.hops later at now (id ∷ [])) (Finishes-found false))

  Finishes-eval_pattern :
      (env : Env) (p : Pattern) → Finishes (eval_pattern fl num cal lower sat g env p)
  unfolding eval_pattern
  Finishes-eval_pattern env p =
      let at = resolve_at_for p.at env in
      Finishes-and_then (resolve_atoms fl num cal lower sat g p.atoms at) _
        (Finishes-resolve_atoms p.atoms at)
        (λ atoms.
          Finishes-and_then (select (binds fl num cal lower sat g atoms p at env.now) g.nodes) _
            (Finishes-select _ g.nodes (Finishes-binds atoms p at env.now))
            (λ hits. Finishes-found _))

  module _ (env : Env) (deref : Option Temporal → Str → Result (List Str))
      (h : (at : Option Temporal) (name : Str) → Finishes (deref at name)) where
    mutual
      unfolding eval

      Finishes-eval :
          (outer : Option Temporal) (q : Query)
          → Finishes (eval fl num cal lower sat g env deref outer q)
      Finishes-eval outer (scoped x at sort) =
          Finishes-and_then (eval fl num cal lower sat g env deref (inherited at outer) x) _
            (Finishes-eval (inherited at outer) x) (λ ids. Finishes-found _)
      Finishes-eval outer (matching p) =
          Finishes-eval_pattern env (record p { at = inherited p.at outer })
      Finishes-eval outer (named name) = h outer name
      Finishes-eval outer (complement x) =
          Finishes-and_then (eval fl num cal lower sat g env deref outer x) _
            (Finishes-eval outer x) (λ ids. Finishes-found _)
      Finishes-eval outer (inter_of qs) =
          Finishes-and_then (eval_inter fl num cal lower sat g env deref outer none qs) _
            (Finishes-inter outer none qs) (λ ids. Finishes-found _)
      Finishes-eval outer (union_of qs) =
          Finishes-and_then (eval_union fl num cal lower sat g env deref outer qs) _
            (Finishes-union outer qs) (λ ids. Finishes-found _)

      Finishes-union :
          (outer : Option Temporal) (qs : Queries)
          → Finishes (eval_union fl num cal lower sat g env deref outer qs)
      Finishes-union outer no_queries = Finishes-found []
      Finishes-union outer (more q qs) =
          Finishes-and_then (eval fl num cal lower sat g env deref outer q) _
            (Finishes-eval outer q)
            (λ ids.
              Finishes-and_then (eval_union fl num cal lower sat g env deref outer qs) _
                (Finishes-union outer qs) (λ acc. Finishes-found _))

      Finishes-inter :
          (outer : Option Temporal) (acc : Option (List Str)) (qs : Queries)
          → Finishes (eval_inter fl num cal lower sat g env deref outer acc qs)
      Finishes-inter outer acc no_queries = Finishes-found _
      Finishes-inter outer acc (more q qs) =
          Finishes-and_then (eval fl num cal lower sat g env deref outer q) _
            (Finishes-eval outer q) (λ ids. Finishes-inter outer (some (meet acc ids)) qs)

  Finishes-follow :
      (env : Env) (deeper : List Str → Option Temporal → Query → Result (List Str))
      (seen : List Str) (at : Option Temporal) (name : Str)
      → ((q : Query)
          → find_key env.named name ≡ some q
          → has seen name ≡ false
          → Finishes (deeper (name ∷ seen) at q))
      → Finishes (follow fl num cal lower sat g env deeper seen at name)
  unfolding follow
  Finishes-follow env deeper seen at name h p = elim (Bool-cases (has seen name)) [
    | inl s ↦ cc (rw (s, follow) at p)
    | inr s ↦ elim (Option-cases (find_key env.named name)) [
      | inl q ↦ cc (rw (s, q, follow) at p)
      | inr (r, q) ↦ h r q s (rw (s, q, follow) at p)
    ]
  ]

  eval_under-ends :
      (env : Env) (fuel : ℕ) (seen : List Str) (outer : Option Temporal) (q : Query)
      → unseen env.named seen < fuel
      → Finishes (eval_under fl num cal lower sat g env fuel seen outer q)
  unfolding eval_under
  eval_under-ends env zero seen outer q u = absurd (omega arith)
  eval_under-ends env (suc fuel) seen outer q u =
      Finishes-eval env _
        (λ at name.
          Finishes-follow env (eval_under fl num cal lower sat g env fuel) seen at name (λ r p s.
            eval_under-ends env fuel (name ∷ seen) at r
              (omega (arith, unseen-cons-lt env.named seen name r p s))))
        outer q

  -- In a well-formed graph the evaluation of a query ends, with a result, an error or a panic: named
  -- queries that refer to one another in a ring are refused, and a level for each name is enough.
  pub eval_query-ends :
      (env : Env) (q : Query) → eval_query fl num cal lower sat g env q ≢ unfinished
  unfolding eval_query
  eval_query-ends env q =
      eval_under-ends env (suc (length env.named)) [] none q
        (omega (arith, unseen-le-length env.named []))
