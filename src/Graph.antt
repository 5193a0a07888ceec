-- ===== src/Graph.antt =====
-- graph.go: the assembled graph, its maps and its lookups. A Go map that is ranged over is a list
-- of pairs, whose order stands for the order in which Go happens to read it; one that is only read
-- at a key is a function.
pub mod Build
pub mod Dedupe
pub mod Merge
pub mod Refs
pub mod Unseen
pub mod Resolve
use kgraph.Base.{
  find_key, Str, ℕ, Bool, true, false, not, ◌&&◌, ◌||◌, if◌then◌else◌, Option, none, some, List, [],
  ◌∷◌, ◌++◌, keep, str_eq, sort_by, str_lt, map, is_empty,
}
use kgraph.Model.{Node, Edge, Alias, EdgeType, Kind}

-- A name and the node that it denotes.
pub record AliasBinding : Type 0 where
  pub alias : Alias
  pub node : Str

abbrev pub Nodes : Type 0
Nodes = List (Str × Node)

pub record Graph : Type 0 where
  pub nodes : Nodes
  pub edges : List Edge
  pub incident : Str → List Edge
  pub aliases : Str → List AliasBinding
  pub retired : List (Str × Str)

-- g.Nodes[id], with `none` for nil.
unfoldable pub node_at : Graph → Str → Option Node
node_at g id = find_key g.nodes id

unfoldable pub lookup : Graph → Str → Option Node
unfolding node_at
lookup g id = elim (node_at g id) [
  | some n ↦ some n
  | none ↦ elim (find_key g.retired id) [ some to ↦ node_at g to | none ↦ none ]
]

unfoldable pub has_node : Graph → Str → Bool
unfolding node_at
has_node g id = elim (node_at g id) [ some _ ↦ true | none ↦ false ]

-- g.incident as the loop over the edges leaves it: an edge joins the list of each end, and an
-- edge from a node to itself joins it twice. An edge with an unknown end is left out.
unfoldable pub add_incident : (Str → List Edge) → Str → Edge → Str → List Edge
add_incident inc k e id = if str_eq k id then inc id ++ e ∷ [] else inc id

unfoldable pub index_edges : (Str → Bool) → (Str → List Edge) → List Edge → Str → List Edge
unfolding add_incident
index_edges known inc [] = inc
index_edges known inc (e ∷ es) =
    index_edges known
      (if known e.src && known e.dst then add_incident (add_incident inc e.src e) e.dst e else inc)
      es

-- The bindings of one node's aliases.
unfoldable pub bindings_of : Str → List Alias → List AliasBinding
bindings_of id [] = []
bindings_of id (a ∷ rest) = record { alias = a; node = id } ∷ bindings_of id rest

unfoldable pub bindings : Nodes → List AliasBinding
bindings [] = []
bindings ((id, n) ∷ rest) = bindings_of id n.aliases ++ bindings rest

-- g.aliases: for each name its bindings, ordered by the start of the window.
unfoldable pub index_aliases : Nodes → Str → List AliasBinding
unfolding bindings bindings_of
index_aliases ns name =
    sort_by (λ a b. str_lt a.alias.starts b.alias.starts)
      (keep (λ b. str_eq b.alias.name name) (bindings ns))
