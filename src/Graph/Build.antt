-- ===== src/Graph/Build.antt =====
-- The assembly of buildGraph of graph.go: nodes and edges of all files, the merge, the edges
-- deduplicated, and the maps over them. The checks that only report are in Refs.
pub mod Incident
pub mod WellFormed
pub mod Found
pub mod Stale
use kgraph.Base.{Str, Bool, true, false, Option, none, some, List, [], ◌∷◌, ◌++◌, find_key}
use kgraph.Model.{Node, Edge, Doc}
use kgraph.Graph.{Graph, Nodes, AliasBinding, index_edges, index_aliases}
use kgraph.Graph.Dedupe.{dedupe_edges}
use kgraph.Graph.Merge.{merge}

-- One file's nodes. Of two nodes with one id the first stays; the second is reported.
unfoldable pub add_nodes : Nodes → List Node → Nodes
add_nodes ns [] = ns
add_nodes ns (n ∷ rest) = elim (find_key ns n.id) [
  | some prev ↦ add_nodes ns rest
  | none ↦ add_nodes (ns ++ (n.id, n) ∷ []) rest
]

unfoldable pub all_nodes : Nodes → List Doc → Nodes
unfolding add_nodes
all_nodes ns [] = ns
all_nodes ns (d ∷ ds) = all_nodes (add_nodes ns d.nodes) ds

unfoldable pub all_edges : List Doc → List Edge
all_edges [] = []
all_edges (d ∷ ds) = d.edges ++ all_edges ds

unfoldable pub known : Nodes → Str → Bool
known ns id = elim (find_key ns id) [ some _ ↦ true | none ↦ false ]

unfoldable pub assemble : Nodes → List Edge → List (Str × Str) → Graph
unfolding known index_edges index_aliases
assemble ns es retired = record {
  nodes = ns;
  edges = es;
  incident = index_edges (known ns) (λ _. []) es;
  aliases = index_aliases ns;
  retired = retired;
}

unfoldable pub build : List Doc → Graph
unfolding all_nodes all_edges merge dedupe_edges assemble
build docs =
    let m = merge (all_nodes [] docs) (all_edges docs) in
    assemble m.nodes (dedupe_edges m.edges).out m.retired
