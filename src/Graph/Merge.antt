-- ===== src/Graph/Merge.antt =====
-- merge of graph.go: `same_as` folds a node into the node that it names.
pub mod Chase
pub mod Fold
pub mod Survivors
pub mod Edges
use kgraph.Base.{
  find_key, Str, ℕ, zero, suc, Bool, true, false, not, ◌&&◌, if◌then◌else◌, Option, none, some,
  List, [], ◌∷◌, ◌++◌, has, is_empty, str_eq, map, keep, length,
}
use kgraph.Model.{Alias, Node, Edge, Kind, kind_eq}
use kgraph.Graph.{Nodes}
use kgraph.Graph.Dedupe.{same_key, find_same}

-- Where a chain of `same_as` ends.
pub data End : Type 0 where
  survivor : Str → Node → End
  cycle out_of_fuel : End
  unknown : Str → End

-- The inner loop, from the node that `cur` names. The set `seen` begins with the id itself.
unfoldable pub chase : ℕ → Nodes → List Str → Str → End
chase zero ns seen cur = out_of_fuel
chase (suc fuel) ns seen cur = elim (has seen cur) [
  | true ↦ cycle
  | false ↦ elim (find_key ns cur) [
    | none ↦ unknown cur
    | some next ↦ elim (is_empty next.same_as) [
      | true ↦ survivor cur next
      | false ↦ chase fuel ns (cur ∷ seen) next.same_as
    ]
  ]
]

-- What the outer loop does with one node: nothing, an error, or an entry of `final`.
pub data Verdict : Type 0 where
  stays : Verdict
  folds : Str → Verdict
  is_cycle : Verdict
  names_unknown : Str → Verdict
  differs_in_kind : Str → Kind → Verdict

unfoldable pub judge_end : Node → End → Verdict
judge_end n (survivor cur s) =
    if kind_eq s.kind n.kind then folds cur else differs_in_kind cur s.kind
judge_end n cycle = is_cycle
judge_end n out_of_fuel = is_cycle
judge_end n (unknown cur) = names_unknown cur

-- The fuel is one more than the number of nodes.
unfoldable pub judge : Nodes → Str → Node → Verdict
unfolding chase judge_end
judge ns id n =
    if is_empty n.same_as
    then stays
    else judge_end n (chase (suc (length ns)) ns (id ∷ []) n.same_as)

unfoldable pub folded : Str → Verdict → List (Str × Str)
folded id (folds cur) = (id, cur) ∷ []
folded id stays = []
folded id is_cycle = []
folded id (names_unknown _) = []
folded id (differs_in_kind _ _) = []

-- The map `final`, from each id that is folded to its survivor.
unfoldable pub final_of : Nodes → Nodes → List (Str × Str)
unfolding judge folded
final_of ns [] = []
final_of ns ((id, n) ∷ rest) = folded id (judge ns id n) ++ final_of ns rest

unfoldable pub resolve : List (Str × Str) → Str → Str
resolve final id = elim (find_key final id) [ some to ↦ to | none ↦ id ]

unfoldable pub rewrite_edge : List (Str × Str) → Edge → Edge
unfolding resolve
rewrite_edge final e = record e {
  src = resolve final e.src;
  dst = resolve final e.dst;
  while_node = resolve final e.while_node;
}

unfoldable pub rewrite_node : List (Str × Str) → Node → Node
unfolding resolve
rewrite_node final n = record n {
  while_node = resolve final n.while_node;
  owner = resolve final n.owner;
}

-- g.Nodes[to].Aliases = append(…)
unfoldable pub give_aliases : Str → List Alias → Nodes → Nodes
give_aliases to extra [] = []
give_aliases to extra ((id, n) ∷ rest) =
    (id, if str_eq id to then record n { aliases = n.aliases ++ extra } else n)
    ∷ give_aliases to extra rest

-- delete(g.Nodes, id)
unfoldable pub without : Str → Nodes → Nodes
without id [] = []
without id ((j, n) ∷ rest) =
    let kept = without id rest in if str_eq j id then kept else (j, n) ∷ kept

unfoldable pub aliases_of : Nodes → Str → List Alias
aliases_of ns id = elim (find_key ns id) [ some n ↦ n.aliases | none ↦ [] ]

unfoldable pub absorb : List (Str × Str) → Nodes → Nodes
unfolding give_aliases without aliases_of
absorb [] ns = ns
absorb ((id, to) ∷ rest) ns = absorb rest (without id (give_aliases to (aliases_of ns id) ns))

unfoldable pub map_nodes : (Node → Node) → Nodes → Nodes
map_nodes f [] = []
map_nodes f ((id, n) ∷ rest) = (id, f n) ∷ map_nodes f rest

-- The edges without those that join a node to itself and without the second of two equal keys.
unfoldable pub clean_edges : List Edge → List Edge → List Edge
unfolding find_same same_key
clean_edges seen [] = []
clean_edges seen (e ∷ es) = elim (str_eq e.src e.dst) [
  | true ↦ clean_edges seen es
  | false ↦ elim (find_same e seen) [
    | some _ ↦ clean_edges seen es
    | none ↦ e ∷ clean_edges (e ∷ seen) es
  ]
]

pub record Merged : Type 0 where
  pub nodes : Nodes
  pub edges : List Edge
  pub retired : List (Str × Str)

-- Without an entry in `final` the graph is left as it is, its edges too.
unfoldable pub merge_by : List (Str × Str) → Nodes → List Edge → Merged
unfolding rewrite_edge rewrite_node absorb map_nodes clean_edges
merge_by [] ns es = record { nodes = ns; edges = es; retired = [] }
merge_by (f ∷ fs) ns es = record {
  nodes = absorb (f ∷ fs) (map_nodes (rewrite_node (f ∷ fs)) ns);
  edges = clean_edges [] (map (rewrite_edge (f ∷ fs)) es);
  retired = f ∷ fs;
}

unfoldable pub merge : Nodes → List Edge → Merged
unfolding final_of merge_by
merge ns es = merge_by (final_of ns ns) ns es
