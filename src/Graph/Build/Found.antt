-- ===== src/Graph/Build/Found.antt =====
-- What Lookup finds in a built graph.
use kgraph.Base.{
  Str, ◌≡◌, refl, sym, subst, inl, inr, some, List, [], ◌∷◌, ◌++◌, In, in-append, find_key-cases,
  keys_of, in-keys_of,
}
use kgraph.Model.{Node, Doc, Edge}
use kgraph.Graph.{Nodes, node_at, lookup}
use kgraph.Graph.Merge.{Merged, merge}
use kgraph.Graph.Merge.Survivors.{in-nodes-merge, retired-in-nodes}
use kgraph.Graph.Build.{add_nodes, all_nodes, all_edges, assemble, build}
use kgraph.Graph.Build.WellFormed.{all_nodes-IsMap, keys_of-append}

add_nodes-grows :
    (ns : Nodes) (rest : List Node) (k : Str)
    → In k (keys_of ns)
    → In k (keys_of (add_nodes ns rest))
unfolding add_nodes
add_nodes-grows ns [] k i = i
add_nodes-grows ns (n ∷ rest) k i = elim (find_key-cases ns n.id) [
  | inl (p, q) ↦
      rw (p, add_nodes)
        (add_nodes-grows (ns ++ (n.id, n) ∷ []) rest k (
          subst (In k) (sym (keys_of-append ns ((n.id, n) ∷ [])))
            ((in-append k (keys_of ns) (n.id ∷ [])).1 (inl i))))
  | inr (m, p, q) ↦ rw (p, add_nodes) (add_nodes-grows ns rest k i)
]

in-add_nodes :
    (ns : Nodes) (rest : List Node) (n : Node) → In n rest → In n.id (keys_of (add_nodes ns rest))
unfolding add_nodes
in-add_nodes ns [] n i = absurd i
in-add_nodes ns (m ∷ rest) n (inr i) = elim (find_key-cases ns m.id) [
  | inl (p, q) ↦ rw (p, add_nodes) (in-add_nodes (ns ++ (m.id, m) ∷ []) rest n i)
  | inr (o, p, q) ↦ rw (p, add_nodes) (in-add_nodes ns rest n i)
]
in-add_nodes ns (m ∷ rest) n (inl e) =
    subst (λ (x : Node). In x.id (keys_of (add_nodes ns (m ∷ rest)))) (sym e)
      (elim (find_key-cases ns m.id) [
        | inl (p, q) ↦
            rw (p, add_nodes)
              (add_nodes-grows (ns ++ (m.id, m) ∷ []) rest m.id (
                subst (In m.id) (sym (keys_of-append ns ((m.id, m) ∷ [])))
                  ((in-append m.id (keys_of ns) (m.id ∷ [])).1 (inr (inl refl)))))
        | inr (o, p, q) ↦ rw (p, add_nodes) (add_nodes-grows ns rest m.id (in-keys_of ns m.id o q))
      ])

all_nodes-grows :
    (ns : Nodes) (docs : List Doc) (k : Str)
    → In k (keys_of ns)
    → In k (keys_of (all_nodes ns docs))
unfolding all_nodes
all_nodes-grows ns [] k i = i
all_nodes-grows ns (d ∷ ds) k i =
    all_nodes-grows (add_nodes ns d.nodes) ds k (add_nodes-grows ns d.nodes k i)

in-all_nodes :
    (ns : Nodes) (docs : List Doc) (d : Doc) (n : Node)
    → In d docs
    → In n d.nodes
    → In n.id (keys_of (all_nodes ns docs))
unfolding all_nodes
in-all_nodes ns [] d n i j = absurd i
in-all_nodes ns (c ∷ ds) d n (inl e) j =
    all_nodes-grows (add_nodes ns c.nodes) ds n.id
      (in-add_nodes ns c.nodes n (subst (λ (x : Doc). In n x.nodes) e j))
in-all_nodes ns (c ∷ ds) d n (inr i) j = in-all_nodes (add_nodes ns c.nodes) ds d n i j

-- Every id that a file declares is found in the built graph by Lookup, whatever was folded away.
pub lookup-build :
    (docs : List Doc) (d : Doc) (n : Node)
    → In d docs
    → In n d.nodes
    → (m : Node) × (lookup (build docs) n.id ≡ some m)
unfolding lookup build node_at assemble
lookup-build docs d n i j = elim (find_key-cases m.nodes n.id) [
  | inr (o, p, q) ↦ (o, rw (p, lookup) refl)
  | inl (p, q) ↦ elim (find_key-cases m.retired n.id) [
    | inl (r, s) ↦ absurd (q ((in-nodes-merge ns es n.id).1 (in-all_nodes [] docs d n i j, s)))
    | inr (to, r, s) ↦ elim (find_key-cases m.nodes to) [
      | inr (o, t, _) ↦ (o, rw (p, r, lookup) t)
      | inl (_, u) ↦ absurd (u (retired-in-nodes ns es n.id to (all_nodes-IsMap [] docs tt) s))
    ]
  ]
]
  where
    ns : Nodes
    ns = all_nodes [] docs

    es : List Edge
    es = all_edges docs

    m : Merged
    m = merge ns es
