-- ===== src/Query/Denote.antt =====
-- What a query denotes: a set of ids, given by recursion on the tree. The order of the nodes and of
-- the edges, the sorting and the check for recursive names have no part in it.
pub mod Paths
pub mod Exact
use kgraph.Base.{
  Str, ℕ, zero, suc, ◌≡◌, ◌⊎◌, Bool, true, false, Option, some, List, [], ◌∷◌, In, find_key,
  keys_of,
}
use kgraph.Model.{Node}
use kgraph.Time.{Floats}
use kgraph.Graph.{Graph, node_at}
use kgraph.Closure.{Hop, step}
use kgraph.Closure.Reach.{Walk}
use kgraph.Values.{Numbers, Calendar}
use kgraph.Query.{
  Query, Queries, no_queries, more, union_of, inter_of, complement, named, matching, scoped,
  Temporal, Atom, Pattern,
}
use kgraph.Query.Field.{live_at, match_atom}
use kgraph.Query.Eval.{
  Result, found, Env, resolve_at_for, inherited, window_of, resolve_atoms, in_window,
}

module _ (fl : Floats) (num : Numbers) (cal : Calendar) (lower : Str → Str) (sat : Str → Str → Bool)
    (g : Graph) where
  -- One hop leads from the one id to the other, or a walk of one or more where it has a star.
  abbrev pub Reaches : Hop → Str → Str → Str → Type 0
  Reaches h at from to =
      ((h.star ≡ true) × Walk (live_at fl num cal lower sat g at) g h from to)
      ⊎ ((h.star ≡ false) × In to (step (live_at fl num cal lower sat g at) g h from))

  -- There is a path along the hops, whose nodes match the atoms.
  abbrev pub Follows : List Hop → List Atom → Str → Str → Str → Type 0
  Follows [] atoms at now x = Unit
  Follows (h ∷ hs) [] at now x = ⊥
  Follows (h ∷ hs) (a ∷ later) at now x =
      (to : Str) × (n : Node) × Reaches h at x to
      × (node_at g to ≡ some n)
      × (match_atom fl num cal lower sat g a n at now ≡ some true)
      × Follows hs later at now to

  -- The pattern binds the node: it matches the first atom and begins a path.
  abbrev pub Selects : Env → Pattern → Str → Type 0
  Selects env p id =
      (a : Atom) × (later : List Atom) × (n : Node) × (resolve_atoms fl num cal lower sat g p.atoms
          (resolve_at_for p.at env)
        ≡ found (a ∷ later))
      × In (id, n) g.nodes
      × (match_atom fl num cal lower sat g a n (resolve_at_for p.at env) env.now ≡ some true)
      × (in_window fl num cal lower sat g (window_of p.at) id ≡ true)
      × Follows p.hops later (resolve_at_for p.at env) env.now id

  unfoldable mutual
    -- `Named` is what the named queries denote, under a temporal context.
    pub Denotes :
        Env → (Option Temporal → Str → Str → Type 0) → Option Temporal → Query → Str → Type 0
    Denotes env Named outer (scoped x at sort) id = Denotes env Named (inherited at outer) x id
    Denotes env Named outer (matching p) id =
        Selects env (record p { at = inherited p.at outer }) id
    Denotes env Named outer (named name) id = Named outer name id
    Denotes env Named outer (complement x) id =
        In id (keys_of g.nodes) × (¬ Denotes env Named outer x id)
    Denotes env Named outer (inter_of no_queries) id = ⊥
    Denotes env Named outer (inter_of (more q qs)) id =
        Denotes env Named outer q id × AllDenote env Named outer qs id
    Denotes env Named outer (union_of qs) id = SomeDenotes env Named outer qs id

    pub AllDenote :
        Env → (Option Temporal → Str → Str → Type 0) → Option Temporal → Queries → Str → Type 0
    AllDenote env Named outer no_queries id = Unit
    AllDenote env Named outer (more q qs) id =
        Denotes env Named outer q id × AllDenote env Named outer qs id

    pub SomeDenotes :
        Env → (Option Temporal → Str → Str → Type 0) → Option Temporal → Queries → Str → Type 0
    SomeDenotes env Named outer no_queries id = ⊥
    SomeDenotes env Named outer (more q qs) id =
        Denotes env Named outer q id ⊎ SomeDenotes env Named outer qs id

  -- The meaning with names that are at most `depth` deep.
  unfoldable pub Means : Env → ℕ → Option Temporal → Query → Str → Type 0
  unfolding Denotes
  Means env zero outer q id = Denotes env (λ at name x. ⊥) outer q id
  Means env (suc depth) outer q id =
      Denotes env
        (λ at name x. (r : Query) × (find_key env.named name ≡ some r) × Means env depth at r x)
        outer q id
