-- ===== src/Graph/Build/Stale.antt =====
-- References of a source that merge of graph.go leaves as they were.
use kgraph.Base.{
  Str, ◌≡◌, ◌≢◌, refl, sym, ap, ◌∙◌, subst, Option, ◌∷◌, ◌++◌, in-append, str_eq, str_eq_iff,
  Bool-cases, inl, inr, false, some, List, [], In, is_empty, find_key-cases, in-keys_of, keys_of,
}
use kgraph.Model.{Alias, Node, Edge, Source, Doc}
use kgraph.Graph.{Graph, Nodes, has_node, node_at}
use kgraph.Graph.Merge.{
  final_of, rewrite_node, map_nodes, give_aliases, aliases_of, without, absorb, merge_by, merge,
}
use kgraph.Graph.Merge.Survivors.{in-nodes-merge}
use kgraph.Graph.Build.{build, assemble, all_nodes, all_edges}
use kgraph.Graph.Refs.{
  check_refs, check_edges, check_nodes, check_node, check_source, miss, miss_optional, node_field,
  by_ref, while_ref, owner_ref,
}

unknown-retired :
    (docs : List Doc) (id : Str)
    → In id (keys_of (build docs).retired)
    → has_node (build docs) id ≡ false
unfolding build assemble has_node node_at
unknown-retired docs id r =
    elim (find_key-cases (merge (all_nodes [] docs) (all_edges docs)).nodes id) [
      | inl (p, q) ↦ rw (p, has_node) refl
      | inr (n, p, i) ↦ absurd (
          ((in-nodes-merge (all_nodes [] docs) (all_edges docs) id).0
              (in-keys_of (merge (all_nodes [] docs) (all_edges docs)).nodes id n i)).1
            r)
    ]

-- A node with this provenance stands at the id.
abbrev Stands : Str → Option Source → Nodes → Type 0
Stands id o ns = (n : Node) × In (id, n) ns × (n.provenance ≡ o)

Stands-map_nodes :
    (final : List (Str × Str)) (id : Str) (o : Option Source) (ns : Nodes)
    → Stands id o ns
    → Stands id o (map_nodes (rewrite_node final) ns)
unfolding map_nodes rewrite_node
Stands-map_nodes final id o [] (n, i, p) = absurd i
Stands-map_nodes final id o ((j, m) ∷ ns) (n, inl e, p) =
    (rewrite_node final n, inl (λ t. ((e t).0, rewrite_node final (e t).1)), p)
Stands-map_nodes final id o ((j, m) ∷ ns) (n, inr i, p) =
    let (k, w, q) = Stands-map_nodes final id o ns (n, i, p) in (k, inr w, q)

Stands-give_aliases :
    (to : Str) (extra : List Alias) (id : Str) (o : Option Source) (ns : Nodes)
    → Stands id o ns
    → Stands id o (give_aliases to extra ns)
unfolding give_aliases
Stands-give_aliases to extra id o [] (n, i, p) = absurd i
Stands-give_aliases to extra id o ((j, m) ∷ ns) (n, inr i, p) =
    let (k, w, q) = Stands-give_aliases to extra id o ns (n, i, p) in (k, inr w, q)
Stands-give_aliases to extra id o ((j, m) ∷ ns) (n, inl e, p) = elim (Bool-cases (str_eq j to)) [
  | inl s ↦
      rw (s, give_aliases)
        (
          record m { aliases = m.aliases ++ extra },
          inl (λ t. ((e t).0, record m { aliases = m.aliases ++ extra })),
          ap (λ (x : Str × Node). x.1.provenance) (sym e) ∙ p,
        )
  | inr s ↦ rw (s, give_aliases) (n, inl e, p)
]

Stands-without :
    (gone id : Str) (o : Option Source) (ns : Nodes)
    → id ≢ gone
    → Stands id o ns
    → Stands id o (without gone ns)
unfolding without
Stands-without gone id o [] d (n, i, p) = absurd i
Stands-without gone id o ((j, m) ∷ ns) d (n, i, p) = elim (Bool-cases (str_eq j gone)) [
  | inl s ↦
      rw (s, without)
        (elim i [
          | inl e ↦ absurd (d (ap (λ (x : Str × Node). x.0) e ∙ (str_eq_iff j gone).0 s))
          | inr k ↦ Stands-without gone id o ns d (n, k, p)
        ])
  | inr s ↦
      rw (s, without)
        (elim i [
          | inl e ↦ (n, inl e, p)
          | inr k ↦ let (x, w, q) = Stands-without gone id o ns d (n, k, p) in (x, inr w, q)
        ])
]

Stands-absorb :
    (final : List (Str × Str)) (id : Str) (o : Option Source) (ns : Nodes)
    → ¬ In id (keys_of final)
    → Stands id o ns
    → Stands id o (absorb final ns)
unfolding absorb
Stands-absorb [] id o ns k h = h
Stands-absorb ((gone, to) ∷ final) id o ns k h =
    let given = give_aliases to (aliases_of ns gone) ns in
    Stands-absorb final id o (without gone given) (λ i. k (inr i))
      (Stands-without gone id o given (λ e. k (inl e))
        (Stands-give_aliases to (aliases_of ns gone) id o ns h))

Stands-merge_by :
    (final : List (Str × Str)) (es : List Edge) (id : Str) (o : Option Source) (ns : Nodes)
    → ¬ In id (keys_of (merge_by final ns es).retired)
    → Stands id o ns
    → Stands id o (merge_by final ns es).nodes
unfolding merge_by
Stands-merge_by [] es id o ns k h = h
Stands-merge_by (f ∷ fs) es id o ns k h =
    Stands-absorb (f ∷ fs) id o (map_nodes (rewrite_node (f ∷ fs)) ns) k
      (Stands-map_nodes (f ∷ fs) id o ns h)

module _ (g : Graph) (id : Str) (n : Node) (s : Source) where
  -- The speaker of the source, where it is not a node, among the references of the node.
  check_node-missing :
      n.provenance ≡ some s
      → is_empty s.speaker ≡ false
      → has_node g s.speaker ≡ false
      → In (node_field id by_ref s.speaker) (check_node g id n)
  unfolding check_node check_source miss_optional miss
  check_node-missing p e u =
      (in-append _ (miss_optional g (node_field id while_ref n.while_node) n.while_node) _).1 (
        inr (
          (in-append _ (miss_optional g (node_field id owner_ref n.owner) n.owner) _).1
            (inr (rw (p, e, u, check_source, miss_optional, miss) (inl refl)))))

  check_nodes-missing :
      (ns : Nodes)
      → In (id, n) ns
      → n.provenance ≡ some s
      → is_empty s.speaker ≡ false
      → has_node g s.speaker ≡ false
      → In (node_field id by_ref s.speaker) (check_nodes g ns)
  unfolding check_nodes
  check_nodes-missing [] i p e u = absurd i
  check_nodes-missing ((j, m) ∷ ns) (inl same) p e u =
      (in-append _ (check_node g j m) (check_nodes g ns)).1 (
        inl (
          subst (λ (x : Str × Node). In (node_field id by_ref s.speaker) (check_node g x.0 x.1))
            same (check_node-missing p e u)))
  check_nodes-missing ((j, m) ∷ ns) (inr i) p e u =
      (in-append _ (check_node g j m) (check_nodes g ns)).1 (inr (check_nodes-missing ns i p e u))

-- Where the files declare a source that is not folded itself and whose speaker is folded away by
-- same_as, checkRefs reports on the built graph that the source refers to an unknown speaker: the merge
-- moves no speaker to the node that absorbed it.
pub check_refs-retired_speaker :
    (docs : List Doc) (id : Str) (n : Node) (s : Source)
    → In (id, n) (all_nodes [] docs)
    → n.provenance ≡ some s
    → is_empty s.speaker ≡ false
    → In s.speaker (keys_of (build docs).retired)
    → ¬ In id (keys_of (build docs).retired)
    → In (node_field id by_ref s.speaker) (check_refs (build docs))
unfolding build assemble merge check_refs
check_refs-retired_speaker docs id n s i p e r k =
    let ns = all_nodes [] docs in
    let es = all_edges docs in
    let (m, j, q) = Stands-merge_by (final_of ns ns) es id (some s) ns k (n, i, p) in
    (in-append _ (check_edges (build docs) (build docs).edges)
        (check_nodes (build docs) (build docs).nodes)).1
      (inr (
        check_nodes-missing (build docs) id m s (build docs).nodes j q e
          (unknown-retired docs s.speaker r)))
