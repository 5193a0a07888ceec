-- ===== src/Graph/Refs.antt =====
-- checkRefs of graph.go: references to nodes that are not there. A diagnostic is a value that says
-- who refers, by which field, to what; its file, its line and its words follow from these.
use kgraph.Base.{
  Str, ◌≡◌, refl, sym, subst, ◌↔◌, ◌⊎◌, inl, inr, true, if◌then◌else◌, Option, none, some, List, [],
  ◌∷◌, ◌++◌, arith, In, is_empty,
}
use kgraph.Model.{Node, Edge, Source}
use kgraph.Graph.{Graph, Nodes, has_node}

pub data Field : Type 0 where
  while_ref owner_ref by_ref derived_from_ref : Field

pub data Dangling : Type 0 where
  edge_src edge_dst edge_while : Edge → Dangling
  node_field : Str → Field → Str → Dangling

module _ (g : Graph) where
  -- The report on one reference, where it is required to be given.
  unfoldable pub miss : Dangling → Str → List Dangling
  unfolding has_node
  miss d ref = if has_node g ref then [] else d ∷ []

  unfoldable pub miss_optional : Dangling → Str → List Dangling
  unfolding miss
  miss_optional d ref = if is_empty ref then [] else miss d ref

  unfoldable pub check_edge : Edge → List Dangling
  unfolding miss miss_optional
  check_edge e =
      miss (edge_src e) e.src
      ++ (miss (edge_dst e) e.dst ++ miss_optional (edge_while e) e.while_node)

  unfoldable pub check_edges : List Edge → List Dangling
  unfolding check_edge
  check_edges [] = []
  check_edges (e ∷ es) = check_edge e ++ check_edges es

  unfoldable pub check_premises : Str → List Str → List Dangling
  unfolding miss
  check_premises id [] = []
  check_premises id (p ∷ ps) = miss (node_field id derived_from_ref p) p ++ check_premises id ps

  unfoldable pub check_source : Str → Option Source → List Dangling
  unfolding check_premises miss_optional
  check_source id none = []
  check_source id (some s) =
      miss_optional (node_field id by_ref s.speaker) s.speaker ++ check_premises id s.premises

  unfoldable pub check_node : Str → Node → List Dangling
  unfolding check_source miss_optional
  check_node id n =
      miss_optional (node_field id while_ref n.while_node) n.while_node
      ++ (miss_optional (node_field id owner_ref n.owner) n.owner ++ check_source id n.provenance)

  unfoldable pub check_nodes : Nodes → List Dangling
  unfolding check_node
  check_nodes [] = []
  check_nodes ((id, n) ∷ rest) = check_node id n ++ check_nodes rest

  unfoldable pub check_refs : List Dangling
  unfolding check_edges check_nodes
  check_refs = check_edges g.edges ++ check_nodes g.nodes

  abbrev pub IsKnown : Str → Type 0
  IsKnown ref = has_node g ref ≡ true

  -- The reference is empty or names a node.
  abbrev pub IsFine : Str → Type 0
  IsFine ref = (is_empty ref ≡ true) ⊎ IsKnown ref

  append_nil : (xs ys : List Dangling) → (xs ++ ys ≡ []) ↔ ((xs ≡ []) × (ys ≡ []))
  append_nil [] ys = (λ h. (refl, h), λ h. h.1)
  append_nil (x ∷ xs) ys = (λ h. cc, λ h. cc h.0)

  miss-nil : (d : Dangling) (ref : Str) → (miss d ref ≡ []) ↔ IsKnown ref
  unfolding miss
  miss-nil d ref = ground arith

  miss_optional-nil : (d : Dangling) (ref : Str) → (miss_optional d ref ≡ []) ↔ IsFine ref
  unfolding miss_optional
  miss_optional-nil d ref = ground (arith, miss-nil d ref)

  -- Every reference that an edge makes is to a node of the graph.
  abbrev pub EdgeFine : Edge → Type 0
  EdgeFine e = IsKnown e.src × IsKnown e.dst × IsFine e.while_node

  abbrev pub SourceFine : Option Source → Type 0
  SourceFine none = Unit
  SourceFine (some s) = IsFine s.speaker × ((p : Str) → In p s.premises → IsKnown p)

  abbrev pub NodeFine : Node → Type 0
  NodeFine n = IsFine n.while_node × IsFine n.owner × SourceFine n.provenance

  check_edge-nil : (e : Edge) → (check_edge e ≡ []) ↔ EdgeFine e
  unfolding check_edge
  check_edge-nil e =
      let a =
        append_nil (miss (edge_src e) e.src)
          (miss (edge_dst e) e.dst ++ miss_optional (edge_while e) e.while_node) in
      let b = append_nil (miss (edge_dst e) e.dst) (miss_optional (edge_while e) e.while_node) in
      let s = miss-nil (edge_src e) e.src in
      let d = miss-nil (edge_dst e) e.dst in
      let w = miss_optional-nil (edge_while e) e.while_node in
      (
        λ h. let (p, q) = a.0 h in let (r, t) = b.0 q in (s.0 p, d.0 r, w.0 t),
        λ f. a.1 (s.1 f.0, b.1 (d.1 f.1, w.1 f.2)),
      )

  check_edges-nil : (es : List Edge) → (check_edges es ≡ []) ↔ ((e : Edge) → In e es → EdgeFine e)
  unfolding check_edges
  check_edges-nil [] = (λ _ e i. absurd i, λ _. refl)
  check_edges-nil (e ∷ es) =
      let a = append_nil (check_edge e) (check_edges es) in
      let c = check_edge-nil e in
      let ih = check_edges-nil es in
      (
        λ h f i. elim i [
          | inl q ↦ subst EdgeFine (sym q) (c.0 (a.0 h).0)
          | inr j ↦ ih.0 (a.0 h).1 f j
        ],
        λ h. a.1 (c.1 (h e (inl refl)), ih.1 (λ f i. h f (inr i))),
      )

  check_premises-nil :
      (id : Str) (ps : List Str) → (check_premises id ps ≡ []) ↔ ((p : Str) → In p ps → IsKnown p)
  unfolding check_premises
  check_premises-nil id [] = (λ _ e i. absurd i, λ _. refl)
  check_premises-nil id (p ∷ ps) =
      let a = append_nil (miss (node_field id derived_from_ref p) p) (check_premises id ps) in
      let c = miss-nil (node_field id derived_from_ref p) p in
      let ih = check_premises-nil id ps in
      (
        λ h f i. elim i [
          | inl q ↦ subst IsKnown (sym q) (c.0 (a.0 h).0)
          | inr j ↦ ih.0 (a.0 h).1 f j
        ],
        λ h. a.1 (c.1 (h p (inl refl)), ih.1 (λ f i. h f (inr i))),
      )

  check_source-nil : (id : Str) (s : Option Source) → (check_source id s ≡ []) ↔ SourceFine s
  unfolding check_source
  check_source-nil id none = (λ _. tt, λ _. refl)
  check_source-nil id (some s) =
      let a =
        append_nil (miss_optional (node_field id by_ref s.speaker) s.speaker)
          (check_premises id s.premises) in
      let c = miss_optional-nil (node_field id by_ref s.speaker) s.speaker in
      let ps = check_premises-nil id s.premises in
      (λ h. (c.0 (a.0 h).0, ps.0 (a.0 h).1), λ f. a.1 (c.1 f.0, ps.1 f.1))

  check_node-nil : (id : Str) (n : Node) → (check_node id n ≡ []) ↔ NodeFine n
  unfolding check_node
  check_node-nil id n =
      let w = miss_optional-nil (node_field id while_ref n.while_node) n.while_node in
      let o = miss_optional-nil (node_field id owner_ref n.owner) n.owner in
      let s = check_source-nil id n.provenance in
      let b =
        append_nil (miss_optional (node_field id owner_ref n.owner) n.owner)
          (check_source id n.provenance) in
      let a =
        append_nil (miss_optional (node_field id while_ref n.while_node) n.while_node) (
          miss_optional (node_field id owner_ref n.owner) n.owner
          ++ check_source id n.provenance) in
      (
        λ h. let (p, q) = a.0 h in let (r, t) = b.0 q in (w.0 p, o.0 r, s.0 t),
        λ f. a.1 (w.1 f.0, b.1 (o.1 f.1, s.1 f.2)),
      )

  check_nodes-nil :
      (ns : Nodes) → (check_nodes ns ≡ []) ↔ ((id : Str) (n : Node) → In (id, n) ns → NodeFine n)
  unfolding check_nodes
  check_nodes-nil [] = (λ _ id n i. absurd i, λ _. refl)
  check_nodes-nil ((k, m) ∷ ns) =
      let a = append_nil (check_node k m) (check_nodes ns) in
      let c = check_node-nil k m in
      let ih = check_nodes-nil ns in
      (
        λ h id n i. elim i [
          | inl q ↦ subst (λ (x : Str × Node). NodeFine x.1) (sym q) (c.0 (a.0 h).0)
          | inr j ↦ ih.0 (a.0 h).1 id n j
        ],
        λ h. a.1 (c.1 (h k m (inl refl)), ih.1 (λ id n i. h id n (inr i))),
      )

  -- No dangling reference is reported exactly when every end and branch of an edge, and every
  -- branch, owner, speaker and premise of a node, is a node of the graph or is not given.
  pub check_refs_exact : (check_refs ≡ []) ↔ (
      ((e : Edge) → In e g.edges → EdgeFine e)
      × ((id : Str) (n : Node) → In (id, n) g.nodes → NodeFine n))
  unfolding check_refs
  check_refs_exact =
      let a = append_nil (check_edges g.edges) (check_nodes g.nodes) in
      let e = check_edges-nil g.edges in
      let n = check_nodes-nil g.nodes in
      (λ h. (e.0 (a.0 h).0, n.0 (a.0 h).1), λ h. a.1 (e.1 h.0, n.1 h.1))
