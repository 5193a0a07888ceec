-- ===== src/Facts/Agreed.antt =====
-- The two forms of a relation in kfacts.go, side by side.
use kgraph.Base.{
  Str, lit, ℕ, ◌≡◌, refl, sym, ap, ◌∙◌, ◌≢◌, ◌⊎◌, inl, inr, false, none, some, [], ◌∷◌, ◌++◌, map,
  is_empty, str_eq, find_key, Bool-cases, Option-cases,
}
use kgraph.Model.{Edge, EdgeType, body_keys, forward_edge, inverse_edge, one_way_edge}
use kgraph.Time.{Floats}
use kgraph.Dialect.{Dialect, edge_of}
use kgraph.Facts.{
  Yaml, scalar, shape_of, text_at, id_at, line_of, EdgeRef, edge_at, bare_ref, edge_refs,
}
use kgraph.Facts.Edges.{edge_cid, parse_edge, relate}
use kgraph.Facts.Entry.{Draft, read_key, read_forward, read_inverse, relation_of}
use kgraph.Facts.Declared.{backfill}
use kgraph.Facts.Surfaces.{
  relation_entry, KeepsInverses, stored, edge_refs-one, or_id-own, or_id-filled, here,
  conclude-unrelated, conclude-related, one_way_edge-inverse, read_key-forward, read_key-inverse,
  read_key-field, relation_of-core, relation_of-dialect,
}

module _ (digest : Str → Str) (fl : Floats) (dl : Dialect) (path : Str) (base line : ℕ) (k v : Yaml)
    (a b : Str) (st : Draft) where
  -- Both forms give no edge, or both give the same stored edge; on the node it is one-way if its key
  -- is, as an entry it is not.
  abbrev pub Agrees : Type 0
  Agrees =
      (((parse_edge digest dl path line (relation_entry a (text_at k) b)).0 ≡ none)
        × ((read_key fl dl path base (k, v) st).edges ≡ st.edges))
      ⊎ ((e : Edge) × (d : Edge) × ((parse_edge digest dl path line
              (relation_entry a (text_at k) b)).0
            ≡ some e)
          × ((read_key fl dl path base (k, v) st).edges ≡ st.edges ++ d ∷ [])
          × (stored (backfill digest a d) ≡ stored e)
          × (e.one_way ≡ false)
          × (d.one_way ≡ one_way_edge (text_at k)))

  two_way :
      (find_key forward_edge (text_at k) ≢ none) ⊎ (find_key inverse_edge (text_at k) ≡ none)
      → false ≡ one_way_edge (text_at k)
  two_way h = elim (Bool-cases (one_way_edge (text_at k))) [
    | inr o ↦ sym o
    | inl o ↦ elim h [
      | inl f ↦ absurd (f (one_way_edge-inverse (text_at k) o).0)
      | inr f ↦ absurd ((one_way_edge-inverse (text_at k) o).1 f)
    ]
  ]

  forward-Agrees :
      (t : EdgeType)
      → is_empty a ≡ false
      → is_empty b ≡ false
      → is_empty (text_at k) ≡ false
      → st.node.id ≡ a
      → edge_refs v ≡ bare_ref b ∷ []
      → find_key body_keys (text_at k) ≡ none
      → relate dl (text_at k) (here digest dl path line a (text_at k) b)
        ≡ some (record (here digest dl path line a (text_at k) b) { type = t })
      → relation_of fl dl path base (text_at k) ≡ some t
      → false ≡ one_way_edge (text_at k)
      → Agrees
  unfolding backfill edge_at bare_ref read_forward
  forward-Agrees t ea eb ek i refs body r o w = inr (
    record (edge_at (bare_ref []) a b t path line) { cid = edge_cid digest a t b },
    edge_at (bare_ref b) st.node.id b t path (line_of base k),
    conclude-related digest dl path line a (text_at k) b (edge_at (bare_ref []) a b t path line) ek
        r ea eb,
    read_key-forward fl dl path base k v st t body o
        ∙ ap
            (λ l.
              st.edges
              ++ map (λ (q : EdgeRef). edge_at q st.node.id q.id t path (line_of base k)) l)
            refs,
    rw (i, or_id-own a, or_id-filled a b eb),
    refl,
    w,
  )

  inverse-Agrees :
      (t : EdgeType)
      → is_empty a ≡ false
      → is_empty b ≡ false
      → is_empty (text_at k) ≡ false
      → st.node.id ≡ a
      → edge_refs v ≡ bare_ref b ∷ []
      → find_key body_keys (text_at k) ≡ none
      → relate dl (text_at k) (here digest dl path line a (text_at k) b)
        ≡ some (edge_at (bare_ref []) b a t path line)
      → relation_of fl dl path base (text_at k) ≡ none
      → find_key inverse_edge (text_at k) ≡ some t
      → Agrees
  unfolding backfill edge_at bare_ref read_inverse
  inverse-Agrees t ea eb ek i refs body r o g = inr (
    record (edge_at (bare_ref []) b a t path line) { cid = edge_cid digest b t a },
    record (edge_at (bare_ref b) b st.node.id t path (line_of base k)) {
      one_way = one_way_edge (text_at k);
    },
    conclude-related digest dl path line a (text_at k) b (edge_at (bare_ref []) b a t path line) ek
        r eb ea,
    read_key-inverse fl dl path base k v st t body o g
        ∙ ap
            (λ l.
              st.edges
              ++ map
                  (λ (q : EdgeRef). record (edge_at q q.id st.node.id t path (line_of base k)) {
                    one_way = one_way_edge (text_at k);
                  })
                  l)
            refs,
    rw (i, or_id-own a, or_id-filled a b eb),
    refl,
    refl,
  )

  -- A relation that is written on its node and the same relation as an entry of its own are one. Take a
  -- node with the id `a`, a key that is no kind and not derived_from, a single other end `b`, and a
  -- dialect that redefines no inverse relation. Then both forms give no edge, or both give an edge with
  -- the same ends, type and content id. On the node the edge is one-way if the key is; as an entry it
  -- is not.
  pub read_key-Agrees :
      is_empty a ≡ false
      → is_empty b ≡ false
      → is_empty (text_at k) ≡ false
      → st.node.id ≡ a
      → shape_of v ≡ scalar
      → id_at v ≡ b
      → find_key body_keys (text_at k) ≡ none
      → str_eq (text_at k) (lit "derived_from") ≡ false
      → KeepsInverses dl (text_at k)
      → Agrees
  unfolding relate edge_at
  read_key-Agrees ea eb ek i s ib body nd keeps =
      let key = text_at k in
      let refs = edge_refs-one v b s ib eb in
      elim (Option-cases (find_key forward_edge key)) [
        | inr (t, f) ↦
            forward-Agrees t ea eb ek i refs body (rw (f, relate))
              (relation_of-core fl dl path base key t nd f) (two_way (inl (λ n. cc (n, f))))
        | inl f ↦ elim (Option-cases (find_key inverse_edge key)) [
          | inr (t, g) ↦
              inverse-Agrees t ea eb ek i refs body (rw (f, g, relate))
                (relation_of-dialect fl dl path base key nd f ∙ keeps (λ n. cc (n, g))) g
          | inl g ↦ elim (Option-cases (edge_of dl key)) [
            | inr (t, d) ↦
                forward-Agrees t ea eb ek i refs body (rw (f, g, d, relate))
                  (relation_of-dialect fl dl path base key nd f ∙ d) (two_way (inr g))
            | inl d ↦ inl (
              conclude-unrelated digest dl path line a key b ek (rw (f, g, d, relate)),
              read_key-field fl dl path base k v st body
                  (relation_of-dialect fl dl path base key nd f ∙ d) g,
            )
          ]
        ]
      ]
