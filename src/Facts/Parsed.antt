-- ===== src/Facts/Parsed.antt =====
-- What parseNode of kfacts.go returns.
use kgraph.Base.{
  Str, ℕ, arith, ◌≡◌, refl, sym, ap, subst, ◌⊎◌, inl, inr, true, false, Option, none, some, List,
  [], ◌∷◌, map, In, in-append, is_empty, Bool-cases, Option-cases,
}
use kgraph.Model.{Node, Edge, kind_eq, group, derived_from}
use kgraph.Time.{Floats}
use kgraph.Dialect.{Dialect}
use kgraph.Facts.{Yaml, Remark, line_of, edge_at, bare_ref, pairs_of}
use kgraph.Facts.Subtypes.{NodeSubtypes, parse_is}
use kgraph.Facts.Edges.{edge_cid, is_mapping}
use kgraph.Facts.Entry.{Draft, remark, read_keys, new_node}
use kgraph.Facts.Declared.{
  check_title, read_is, route, route_all, premise_edges, or_id, backfill, finish_node, settle,
  declare_node, parse_node,
}
use kgraph.Facts.Assigned.{if_both, HasRecord}
use kgraph.Facts.Gathered.{Faulted, Touches, AllTouch, Sound, remark-Sound, read_keys-Sound}

-- Both ends are there, and the content id is that of the stored direction.
abbrev pub IsStored : (Str → Str) → Edge → Type 0
IsStored digest e =
    (is_empty e.src ≡ false)
    × (is_empty e.dst ≡ false)
    × (e.cid ≡ edge_cid digest e.src e.type e.dst)

abbrev pub IsTitled : Node → Type 0
IsTitled n = kind_eq n.kind group ≡ false → n.title ≡ []

-- A node with an id, with a source record where it is a source, and a title where it is a group only.
abbrev pub IsNamed : Node → Type 0
IsNamed n = (is_empty n.id ≡ false) × HasRecord n.kind n.provenance × IsTitled n

-- The node is at one end.
abbrev pub IsOn : Node → Edge → Type 0
IsOn n e = (e.src ≡ n.id) ⊎ (e.dst ≡ n.id)

abbrev pub IsParsed : (Str → Str) → (Node × List Edge) × List Remark → Type 0
IsParsed digest r =
    IsNamed r.0.0
    × ((e : Edge) → In e r.0.1 → IsStored digest e)
    × (Faulted r.1 ⊎ ((e : Edge) → In e r.0.1 → IsOn r.0.0 e))

abbrev Settled : Draft → Type 0
Settled st = (is_empty st.node.id ≡ false) × Sound st × IsTitled st.node

remark-Settled : (st : Draft) (rs : List Remark) → Settled st → Settled (remark st rs)
unfolding remark
remark-Settled st rs (i, s, t) = (i, remark-Sound st rs s, t)

empty-nil : (s : Str) → is_empty s ≡ true → s ≡ []
empty-nil s h = ground arith

or_id-filled : (id s : Str) → is_empty id ≡ false → is_empty (or_id id s) ≡ false
unfolding or_id
or_id-filled id s h = ground arith

or_id-open : (id s : Str) → is_empty s ≡ true → or_id id s ≡ id
unfolding or_id
or_id-open id s h = rw h

or_id-same : (id s : Str) → s ≡ id → or_id id s ≡ id
unfolding or_id
or_id-same id s h = ground arith

backfill-IsStored :
    (digest : Str → Str) (id : Str) (e : Edge)
    → is_empty id ≡ false
    → IsStored digest (backfill digest id e)
unfolding backfill
backfill-IsStored digest id e h = (or_id-filled id e.src h, or_id-filled id e.dst h, refl)

backfill-touches :
    (digest : Str → Str) (id : Str) (e : Edge)
    → Touches id e
    → ((backfill digest id e).src ≡ id) ⊎ ((backfill digest id e).dst ≡ id)
unfolding backfill
backfill-touches digest id e (inl p) = inl (or_id-open id e.src p)
backfill-touches digest id e (inr (inl p)) = inl (or_id-same id e.src p)
backfill-touches digest id e (inr (inr (inl p))) = inr (or_id-open id e.dst p)
backfill-touches digest id e (inr (inr (inr p))) = inr (or_id-same id e.dst p)

in-map_edges :
    (f : Edge → Edge) (es : List Edge) (e : Edge)
    → In e (map f es)
    → (d : Edge) × In d es × (e ≡ f d)
in-map_edges f [] e i = absurd i
in-map_edges f (d ∷ es) e (inl p) = (d, inl refl, p)
in-map_edges f (d ∷ es) e (inr i) = let (c, j, p) = in-map_edges f es e i in (c, inr j, p)

premises_touch :
    (n : Node) (ps : List Str) (e : Edge)
    → In e (map (λ p. edge_at (bare_ref []) n.id p derived_from [] 0) ps)
    → Touches n.id e
unfolding edge_at
premises_touch n [] e i = absurd i
premises_touch n (p ∷ ps) e (inl q) = inr (inl (ap (λ (d : Edge). d.src) q))
premises_touch n (p ∷ ps) e (inr i) = premises_touch n ps e i

premise_edges-touch : (n : Node) → AllTouch n.id (premise_edges n)
unfolding premise_edges
premise_edges-touch n e i = elim (Option-cases n.provenance) [
  | inl q ↦ absurd (rw (q, premise_edges) at i)
  | inr (s, q) ↦ premises_touch n s.premises e (rw (q, premise_edges) at i)
]

abbrev Answer : Type 0
Answer = Option (Node × List Edge) × List Remark

nothing_read :
    (rs ss : List Remark) (p : Node × List Edge) → ¬ (◌≡◌ {A = Answer} (none, rs) (some p, ss))
nothing_read rs ss p h = cc h

parsed_inj :
    (r : (Node × List Edge) × List Remark) (p : Node × List Edge) (rs : List Remark)
    → ◌≡◌ {A = Answer} (some r.0, r.1) (some p, rs)
    → r ≡ (p, rs)
parsed_inj r p rs h = cc h

abbrev pub first_draft : Str → ℕ → Draft
first_draft path line = record {
  node = new_node path line;
  edges = [];
  body_key = [];
  scalar_line = [];
  is_node = none;
  deferred = [];
  remarks = [];
}

first_draft-Sound : (path : Str) (line : ℕ) → Sound (first_draft path line)
unfolding new_node
first_draft-Sound path line = (λ e. cc e, inr (λ e. refl, λ e i. absurd i))

module _ (digest lower : Str → Str) (fl : Floats) (dl : Dialect) (path : Str) where
  finish_node-IsParsed :
      (line : ℕ) (st : Draft)
      → Settled st
      → IsParsed digest (finish_node digest lower fl dl path line st)
  unfolding finish_node
  finish_node-IsParsed line st (i, (h, s), t) = (
    (i, h, t),
    λ e j.
        let (d, k, p) = in-map_edges _ _ e j in
        subst (IsStored digest) (sym p) (backfill-IsStored digest st.node.id d i),
    elim s [
      | inl (r, k, f) ↦ inl (r, (in-append r st.remarks _).1 (inl k), f)
      | inr (f, a) ↦ inr (λ e j.
          let (d, k, p) = in-map_edges _ _ e j in
          subst (λ (c : Edge). (c.src ≡ st.node.id) ⊎ (c.dst ≡ st.node.id)) (sym p)
            (backfill-touches digest st.node.id d
              (elim ((in-append d st.edges (premise_edges st.node)).0 k) [
                | inl q ↦ a d q
                | inr q ↦ premise_edges-touch st.node d q
              ])))
    ],
  )

  check_title-Settled :
      (base : ℕ) (st : Draft)
      → is_empty st.node.id ≡ false
      → Sound st
      → Settled (check_title fl dl path base st)
  unfolding check_title
  check_title-Settled base st i s = elim (Bool-cases (is_empty st.node.title)) [
    | inl e ↦ rw (e, check_title) (i, s, λ g. empty-nil st.node.title e)
    | inr e ↦ elim (Bool-cases (kind_eq st.node.kind group)) [
      | inl f ↦ rw (e, f, check_title) (i, s, λ g. cc (f, g))
      | inr f ↦
          rw (e, f, check_title)
            (remark-Settled (record st { node = record st.node { title = [] } }) _
              (i, s, λ g. refl))
    ]
  ]

  read_is-Settled : (base : ℕ) (st : Draft) → Settled st → Settled (read_is fl dl path base st).0
  unfolding read_is
  read_is-Settled base st h = elim (Option-cases st.is_node) [
    | inl e ↦ rw (e, read_is) h
    | inr (y, e) ↦
        rw (e, read_is)
          (remark-Settled
            (record st {
              node = record st.node { is = (parse_is dl y st.node.kind (line_of base y)).0.names };
            })
            _ h)
  ]

  route-Settled :
      (base : ℕ) (subs : NodeSubtypes) (p : Yaml × Yaml) (st : Draft)
      → Settled st
      → Settled (route fl dl path base subs p st)
  unfolding route
  route-Settled base subs (k, v) st h =
      if_both Settled _ (if_both Settled _ h (remark-Settled st _ h))
        (if_both Settled _ (remark-Settled st _ h) (remark-Settled st _ h))

  route_all-Settled :
      (base : ℕ) (subs : NodeSubtypes) (ps : List (Yaml × Yaml)) (st : Draft)
      → Settled st
      → Settled (route_all fl dl path base subs ps st)
  unfolding route_all
  route_all-Settled base subs [] st h = h
  route_all-Settled base subs (p ∷ ps) st h =
      route_all-Settled base subs ps _ (route-Settled base subs p st h)

  settle-IsParsed :
      (base line : ℕ) (st : Draft)
      → is_empty st.node.id ≡ false
      → Sound st
      → IsParsed digest (settle digest lower fl dl path base line st)
  unfolding settle
  settle-IsParsed base line st i s =
      let titled = check_title fl dl path base st in
      let kept = (read_is fl dl path base titled).0 in
      let subs = (read_is fl dl path base titled).1 in
      finish_node-IsParsed line (route_all fl dl path base subs kept.deferred kept) (
        route_all-Settled base subs kept.deferred kept
          (read_is-Settled base titled (check_title-Settled base st i s)))

  declare_node-IsParsed :
      (base line : ℕ) (st : Draft) (n : Node) (es : List Edge) (rs : List Remark)
      → Sound st
      → declare_node digest lower fl dl path base line st ≡ (some (n, es), rs)
      → IsParsed digest ((n, es), rs)
  unfolding declare_node
  declare_node-IsParsed base line st n es rs s h = elim (Bool-cases (is_empty st.node.id)) [
    | inl e ↦ absurd (nothing_read _ _ (n, es) (rw (e, declare_node) at h))
    | inr e ↦ elim (Bool-cases (is_empty st.body_key)) [
      | inl f ↦ absurd (nothing_read _ _ (n, es) (rw (e, f, declare_node) at h))
      | inr f ↦
          subst (IsParsed digest) (parsed_inj _ _ _ (rw (e, f, declare_node) at h))
            (settle-IsParsed base line st e s)
    ]
  ]

  -- A node that parseNode returns has an id, a source record where it is a source, and a title only
  -- where it is a group. Each of its edges has both ends and the content id of its stored direction.
  -- Where no error was reported, the node is at one end of each edge, in whatever order its keys are
  -- written.
  pub parse_node-IsParsed :
      (line base : ℕ) (m : Yaml) (n : Node) (es : List Edge) (rs : List Remark)
      → parse_node digest lower fl dl path line base m ≡ (some (n, es), rs)
      → IsNamed n
        × ((e : Edge) → In e es → IsStored digest e)
        × (Faulted rs ⊎ ((e : Edge) → In e es → IsOn n e))
  unfolding parse_node
  parse_node-IsParsed line base m n es rs h = elim (Bool-cases (is_mapping m)) [
    | inr e ↦ absurd (nothing_read _ _ (n, es) (rw (e, parse_node) at h))
    | inl e ↦
        declare_node-IsParsed base line
          (read_keys fl dl path base (pairs_of m) (first_draft path line)) n es rs
          (read_keys-Sound fl dl path base (pairs_of m) (first_draft path line)
            (first_draft-Sound path line))
          (rw (e, parse_node) at h)
  ]
