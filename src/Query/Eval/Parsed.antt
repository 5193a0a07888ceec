-- ===== src/Query/Eval/Parsed.antt =====
-- The composition of query.go and eval.go: Eval on what ParseQuery returns.
use kgraph.Base.{
  Str, ℕ, zero, suc, length, ◌≡◌, ◌≢◌, refl, sym, subst, ◌⊎◌, inl, inr, Bool, true, false, ◌&&◌,
  arith, Option, none, some, List, [], ◌∷◌, Bool-cases, Option-cases, is_empty, has, find_key, In,
  find_key-in,
}
use kgraph.Model.{Node}
use kgraph.Time.{Floats}
use kgraph.Graph.{Graph, node_at}
use kgraph.Graph.Resolve.{Resolved, node, ambiguous, resolve_ref}
use kgraph.Graph.Build.WellFormed.{IsWellFormed}
use kgraph.Closure.{Hop, hop_targets}
use kgraph.Values.{Numbers, Calendar}
use kgraph.Query.{
  Query, Queries, no_queries, more, union_of, inter_of, complement, named, matching, scoped,
  Temporal, Atom, Pattern,
}
use kgraph.Query.Lex.{Tok}
use kgraph.Query.Parse.{ok}
use kgraph.Query.Descent.{parse_query}
use kgraph.Query.Shape.{AtomsHaveValues, IsShapedPattern, IsShaped, AreShaped, parse_query-IsShaped}
use kgraph.Query.Field.{live_at, match_atom}
use kgraph.Query.Eval.{
  Result, found, failed, crashed, unfinished, or_crash, or_unfinished, select, Env, keys,
  resolve_at_for, inherited, window_of, meet, suits, next_all, walk, resolve_atom, resolve_atoms,
  in_window, binds, eval_pattern, eval, eval_union, eval_inter, follow, eval_under, eval_query,
}
use kgraph.Query.Eval.Ends.{eval_query-ends}
use kgraph.Query.Eval.Safe.{
  IsSafe, SafelyGives, IsSafe-found, IsSafe-gives, IsSafe-and_then, IsSafe-if, IsSafe-or_crash,
  IsSafe-or_unfinished, IsSafe-select, SafelyGives-and_then, match_atom-answers,
}

-- The atoms that are left suffice for the hops that are left.
abbrev Cover : List Hop → List Atom → Type 0
Cover hs atoms = (length atoms ≡ length hs) × AtomsHaveValues atoms

-- Every named query has the shape that the parser gives.
abbrev pub NamesShaped : List (Str × Query) → Type 0
NamesShaped [] = Unit
NamesShaped ((name, q) ∷ rest) = IsShaped q × NamesShaped rest

NamesShaped-find :
    (ns : List (Str × Query)) (name : Str) (q : Query)
    → NamesShaped ns
    → In (name, q) ns
    → IsShaped q
NamesShaped-find [] name q h i = absurd i
NamesShaped-find ((n, r) ∷ ns) name q h (inl e) = subst IsShaped (λ t. e_back t) h.0
  where
    e_back : r ≡ q
    e_back = λ t. (sym e t).1
NamesShaped-find ((n, r) ∷ ns) name q h (inr i) = NamesShaped-find ns name q h.1 i

module _ (fl : Floats) (num : Numbers) (cal : Calendar) (lower : Str → Str) (sat : Str → Str → Bool)
    (g : Graph) where
  IsSafe-suits :
      (a : Atom) (later : List Atom) (at now to : Str)
      → AtomsHaveValues (a ∷ later)
      → IsSafe (suits fl num cal lower sat g (a ∷ later) at now to)
  unfolding suits
  IsSafe-suits a later at now to h p = elim (Option-cases (node_at g to)) [
    | inl q ↦ cc (rw (q, suits) at p)
    | inr (n, q) ↦
        IsSafe-or_crash _ (match_atom-answers fl num cal lower sat g a n at now h.0)
          (rw (q, suits) at p)
  ]

  IsSafe-next_all :
      (a : Atom) (later : List Atom) (h : Hop) (at now : Str) (cur : List Str)
      → AtomsHaveValues (a ∷ later)
      → IsSafe (next_all fl num cal lower sat g (a ∷ later) h at now cur)
  unfolding next_all
  IsSafe-next_all a later h at now [] v = IsSafe-found []
  IsSafe-next_all a later h at now (x ∷ xs) v =
      IsSafe-and_then (or_unfinished (hop_targets (live_at fl num cal lower sat g at) g x h)) _
        (IsSafe-or_unfinished _)
        (λ tos.
          IsSafe-and_then (select (suits fl num cal lower sat g (a ∷ later) at now) tos) _
            (IsSafe-select _ tos (λ to. IsSafe-suits a later at now to v))
            (λ ns.
              IsSafe-and_then (next_all fl num cal lower sat g (a ∷ later) h at now xs) _
                (IsSafe-next_all a later h at now xs v) (λ ms. IsSafe-found _)))

  IsSafe-walk :
      (hs : List Hop) (atoms : List Atom) (at now : Str) (cur : List Str)
      → Cover hs atoms
      → IsSafe (walk fl num cal lower sat g hs atoms at now cur)
  unfolding walk
  IsSafe-walk [] atoms at now cur c = IsSafe-found true
  IsSafe-walk (h ∷ hs) [] at now cur c = absurd (omega (arith, c.0))
  IsSafe-walk (h ∷ hs) (a ∷ later) at now cur c =
      IsSafe-and_then (next_all fl num cal lower sat g (a ∷ later) h at now cur) _
        (IsSafe-next_all a later h at now cur c.1)
        (elim [
          | [] ↦ IsSafe-found false
          | x ∷ xs ↦ IsSafe-walk hs later at now (keys (x ∷ xs)) (omega (arith, c.0), c.1.1)
        ])

  Gives-resolve_atom :
      (a : Atom) (at : Str)
      → SafelyGives (λ b. b.preds ≡ a.preds) (resolve_atom fl num cal lower sat g a at)
  unfolding resolve_atom
  Gives-resolve_atom a at = elim (Bool-cases (is_empty a.id)) [
    | inl e ↦ rw e refl
    | inr e ↦ rw e (denoted (resolve_ref fl g a.id at))
  ]
    where
      denoted :
          (r : Resolved)
          → SafelyGives
              (λ b. b.preds ≡ a.preds)
              (elim r as (λ _. Result Atom) [
                | node id ↦ found (record a { id = id })
                | ambiguous _ ↦ failed
              ])
      denoted (node id) = refl
      denoted (ambiguous _) = tt

  -- Resolving the references leaves the shape.
  Gives-resolve_atoms :
      (atoms : List Atom) (at : Str)
      → AtomsHaveValues atoms
      → SafelyGives
          (λ bs. (length bs ≡ length atoms) × AtomsHaveValues bs)
          (resolve_atoms fl num cal lower sat g atoms at)
  unfolding resolve_atoms
  Gives-resolve_atoms [] at h = (refl, tt)
  Gives-resolve_atoms (a ∷ later) at h =
      SafelyGives-and_then (λ b. b.preds ≡ a.preds) _ (resolve_atom fl num cal lower sat g a at) _
        (Gives-resolve_atom a at)
        (λ b e.
          SafelyGives-and_then (λ bs. (length bs ≡ length later) × AtomsHaveValues bs) _
            (resolve_atoms fl num cal lower sat g later at) _ (Gives-resolve_atoms later at h.1)
            (λ bs w. (omega (arith, w.0), (rw e h.0, w.1))))

  IsSafe-binds :
      (a : Atom) (later : List Atom) (p : Pattern) (at now : Str) (x : Str × Node)
      → length later ≡ length p.hops
      → AtomsHaveValues (a ∷ later)
      → IsSafe (binds fl num cal lower sat g (a ∷ later) p at now x)
  unfolding binds
  IsSafe-binds a later p at now (id, n) c h =
      IsSafe-and_then (or_crash (match_atom fl num cal lower sat g a n at now)) _
        (IsSafe-or_crash _ (match_atom-answers fl num cal lower sat g a n at now h.0))
        (λ b.
          IsSafe-if (b && in_window fl num cal lower sat g (window_of p.at) id) _ _
            (IsSafe-walk p.hops later at now (id ∷ []) (c, h.1)) (IsSafe-found false))

  IsSafe-eval_pattern :
      (env : Env) (p : Pattern)
      → IsShapedPattern p
      → IsSafe (eval_pattern fl num cal lower sat g env p)
  unfolding eval_pattern
  IsSafe-eval_pattern env p h =
      let at = resolve_at_for p.at env in
      IsSafe-gives (λ bs. (length bs ≡ length p.atoms) × AtomsHaveValues bs)
        (resolve_atoms fl num cal lower sat g p.atoms at) _ (Gives-resolve_atoms p.atoms at h.1)
        (λ atoms w.
          IsSafe-and_then (select (binds fl num cal lower sat g atoms p at env.now) g.nodes) _
            (selected atoms w) (λ hits. IsSafe-found _))
    where
      selected :
          (atoms : List Atom)
          → (length atoms ≡ length p.atoms) × AtomsHaveValues atoms
          → IsSafe (
              select
                (binds fl num cal lower sat g atoms p (resolve_at_for p.at env) env.now)
                g.nodes)
      selected [] w = absurd (omega (arith, w.0, h.0))
      selected (a ∷ later) w = IsSafe-select _ g.nodes (λ x.
          IsSafe-binds a later p (resolve_at_for p.at env) env.now x (omega (arith, w.0, h.0)) w.1)

  module _ (env : Env) (deref : Option Temporal → Str → Result (List Str))
      (h : (at : Option Temporal) (name : Str) → IsSafe (deref at name)) where
    mutual
      unfolding eval IsShaped

      IsSafe-eval :
          (outer : Option Temporal) (q : Query)
          → IsShaped q
          → IsSafe (eval fl num cal lower sat g env deref outer q)
      IsSafe-eval outer (scoped x at sort) s =
          IsSafe-and_then (eval fl num cal lower sat g env deref (inherited at outer) x) _
            (IsSafe-eval (inherited at outer) x s) (λ ids. IsSafe-found _)
      IsSafe-eval outer (matching p) s =
          IsSafe-eval_pattern env (record p { at = inherited p.at outer }) s
      IsSafe-eval outer (named name) s = h outer name
      IsSafe-eval outer (complement x) s =
          IsSafe-and_then (eval fl num cal lower sat g env deref outer x) _ (IsSafe-eval outer x s)
            (λ ids. IsSafe-found _)
      IsSafe-eval outer (inter_of qs) s =
          IsSafe-and_then (eval_inter fl num cal lower sat g env deref outer none qs) _
            (IsSafe-inter outer none qs s) (λ ids. IsSafe-found _)
      IsSafe-eval outer (union_of qs) s =
          IsSafe-and_then (eval_union fl num cal lower sat g env deref outer qs) _
            (IsSafe-union outer qs s) (λ ids. IsSafe-found _)

      IsSafe-union :
          (outer : Option Temporal) (qs : Queries)
          → AreShaped qs
          → IsSafe (eval_union fl num cal lower sat g env deref outer qs)
      IsSafe-union outer no_queries s = IsSafe-found []
      IsSafe-union outer (more q qs) s =
          IsSafe-and_then (eval fl num cal lower sat g env deref outer q) _
            (IsSafe-eval outer q s.0)
            (λ ids.
              IsSafe-and_then (eval_union fl num cal lower sat g env deref outer qs) _
                (IsSafe-union outer qs s.1) (λ acc. IsSafe-found _))

      IsSafe-inter :
          (outer : Option Temporal) (acc : Option (List Str)) (qs : Queries)
          → AreShaped qs
          → IsSafe (eval_inter fl num cal lower sat g env deref outer acc qs)
      IsSafe-inter outer acc no_queries s = IsSafe-found _
      IsSafe-inter outer acc (more q qs) s =
          IsSafe-and_then (eval fl num cal lower sat g env deref outer q) _
            (IsSafe-eval outer q s.0) (λ ids. IsSafe-inter outer (some (meet acc ids)) qs s.1)

  IsSafe-follow :
      (env : Env) (deeper : List Str → Option Temporal → Query → Result (List Str))
      (seen : List Str) (at : Option Temporal) (name : Str)
      → NamesShaped env.named
      → ((r : Query) → IsShaped r → IsSafe (deeper (name ∷ seen) at r))
      → IsSafe (follow fl num cal lower sat g env deeper seen at name)
  unfolding follow
  IsSafe-follow env deeper seen at name s h p = elim (Bool-cases (has seen name)) [
    | inl e ↦ cc (rw (e, follow) at p)
    | inr e ↦ elim (Option-cases (find_key env.named name)) [
      | inl f ↦ cc (rw (e, f, follow) at p)
      | inr (r, f) ↦
          h r (NamesShaped-find env.named name r s (find_key-in env.named name r f))
            (rw (e, f, follow) at p)
    ]
  ]

  IsSafe-eval_under :
      (env : Env) (fuel : ℕ) (seen : List Str) (outer : Option Temporal) (q : Query)
      → NamesShaped env.named
      → IsShaped q
      → IsSafe (eval_under fl num cal lower sat g env fuel seen outer q)
  unfolding eval_under
  IsSafe-eval_under env zero seen outer q s h = IsSafe-eval env _ (λ at name p. cc p) outer q h
  IsSafe-eval_under env (suc fuel) seen outer q s h =
      IsSafe-eval env _
        (λ at name.
          IsSafe-follow env (eval_under fl num cal lower sat g env fuel) seen at name s
            (λ r t. IsSafe-eval_under env fuel (name ∷ seen) at r s t))
        outer q h

  -- With the answers of Satisfied given: in a well-formed graph, Eval on a query that ParseQuery
  -- returned, with named queries of the shape that it returns, gives a set or an error.
  pub eval-parsed :
      (wf : IsWellFormed g) (env : Env) (src : Str) (q : Query) (rest : List Tok)
      → NamesShaped env.named
      → parse_query src ≡ ok q rest
      → ((ids : List Str) × (eval_query fl num cal lower sat g env q ≡ found ids))
        ⊎ (eval_query fl num cal lower sat g env q ≡ failed)
  unfolding eval_query
  eval-parsed wf env src q rest s e =
      split (eval_query fl num cal lower sat g env q)
        (IsSafe-eval_under env (suc (length env.named)) [] none q s
          (parse_query-IsShaped src q rest e))
        (eval_query-ends fl num cal lower sat g wf env q)
    where
      split :
          (r : Result (List Str))
          → r ≢ crashed
          → r ≢ unfinished
          → ((ids : List Str) × (r ≡ found ids)) ⊎ (r ≡ failed)
      split (found ids) c u = inl (ids, refl)
      split failed c u = inr refl
      split crashed c u = absurd (c refl)
      split unfinished c u = absurd (u refl)
