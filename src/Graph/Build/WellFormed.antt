-- ===== src/Graph/Build/WellFormed.antt =====
-- Every graph that buildGraph assembles is well formed.
use kgraph.Base.{
  Str, ◌≡◌, refl, sym, ap, subst, ◌↔◌, inl, inr, List, [], ◌∷◌, ◌++◌, In, NoRepeat, NoRepeat-concat,
  keys_of, IsMap, find_key-cases,
}
use kgraph.Model.{Node, Edge, Doc}
use kgraph.Graph.{Graph, Nodes}
use kgraph.Graph.Dedupe.{dedupe_edges, DistinctKeys, dedupe_edges-DistinctKeys}
use kgraph.Graph.Merge.{merge}
use kgraph.Graph.Merge.Survivors.{IsMap-merge}
use kgraph.Graph.Build.{add_nodes, all_nodes, all_edges, known, assemble, build}
use kgraph.Graph.Build.Incident.{Touches, in-index_edges}

pub record IsWellFormed (g : Graph) : Type 0 where
  -- no id is declared twice
  pub ids : IsMap g.nodes
  -- no relation is kept twice
  pub relations : DistinctKeys g.edges
  -- the list of a node holds the edges that touch it
  pub lists :
      (id : Str) (e : Edge) → In e (g.incident id) ↔ (In e g.edges × Touches (known g.nodes) id e)

pub keys_of-append : (ns ms : Nodes) → keys_of (ns ++ ms) ≡ keys_of ns ++ keys_of ms
keys_of-append [] ms = refl
keys_of-append ((k, n) ∷ ns) ms = ap (λ l. k ∷ l) (keys_of-append ns ms)

add_nodes-IsMap : (ns : Nodes) (new : List Node) → IsMap ns → IsMap (add_nodes ns new)
unfolding add_nodes
add_nodes-IsMap ns [] u = u
add_nodes-IsMap ns (n ∷ new) u = elim (find_key-cases ns n.id) [
  | inr (m, p, i) ↦ rw (p, add_nodes) (add_nodes-IsMap ns new u)
  | inl (p, k) ↦
      rw (p, add_nodes)
        (add_nodes-IsMap (ns ++ (n.id, n) ∷ []) new (
          subst NoRepeat (sym (keys_of-append ns ((n.id, n) ∷ [])))
            (NoRepeat-concat (keys_of ns) n.id u k)))
]

pub all_nodes-IsMap : (ns : Nodes) (docs : List Doc) → IsMap ns → IsMap (all_nodes ns docs)
unfolding all_nodes
all_nodes-IsMap ns [] u = u
all_nodes-IsMap ns (d ∷ ds) u =
    all_nodes-IsMap (add_nodes ns d.nodes) ds (add_nodes-IsMap ns d.nodes u)

-- Whatever the files hold, the built graph has each id once, each relation once, and for each node
-- exactly the edges that touch it and have both ends in the graph.
pub build-IsWellFormed : (docs : List Doc) → IsWellFormed (build docs)
unfolding build assemble
build-IsWellFormed docs =
    let m = merge (all_nodes [] docs) (all_edges docs) in
    record {
      ids = IsMap-merge (all_nodes [] docs) (all_edges docs) (all_nodes-IsMap [] docs tt);
      relations = dedupe_edges-DistinctKeys m.edges;
      lists = λ id e. in-index_edges (known m.nodes) (dedupe_edges m.edges).out e id;
    }
