-- ===== src/Facts/Whole.antt =====
-- The document that parseEntries of kfacts.go reads, and the edges of parseEdge.
use kgraph.Base.{
  Str, ℕ, ◌+◌, ◌-◌, arith, ◌≡◌, refl, sym, ap, subst, ◌≢◌, ◌⊎◌, inl, inr, Bool, false, Option, none,
  some, List, [], ◌∷◌, ◌++◌, map, In, in-append, NoRepeat, NoRepeat-concat, is_empty, find_key,
  put_key, find_key-put_key, str_eq, str_eq_refl, Bool-cases, Option-cases, ◌||◌,
}
use kgraph.Model.{Node, Edge, about}
use kgraph.Time.{Floats}
use kgraph.Dialect.{Dialect}
use kgraph.Facts.{
  edge_at, bare_ref, Yaml, Shape, scalar, mapping, other, sequence, shape_of, items_of, pairs_of,
  line_at, Remark,
}
use kgraph.Facts.Edges.{
  EdgeDraft, is_edge_entry, parse_edge, conclude, finish_edge, relate, is_withdrawn, edge_status,
  read_ends,
}
use kgraph.Facts.Declared.{parse_node}
use kgraph.Facts.File.{
  Reading, take_edge, take_node, read_item, read_entries, read_root, doc_of, parse_entries,
}
use kgraph.Facts.Parsed.{IsStored, IsNamed, parse_node-IsParsed}

abbrev pub ids_of_nodes : List Node → List Str
ids_of_nodes ns = map (λ (n : Node). n.id) ns

abbrev Noted : List (Str × ℕ) → List Node → Type 0
Noted seen ns = (k : Str) → In k (ids_of_nodes ns) → find_key seen k ≢ none

-- The nodes have distinct ids, and nodes and edges are as parseNode and parseEdge leave them.
abbrev pub IsFiled : (Str → Str) → List Node → List Edge → Type 0
IsFiled digest ns es =
    NoRepeat (ids_of_nodes ns)
    × ((n : Node) → In n ns → IsNamed n)
    × ((e : Edge) → In e es → IsStored digest e)

abbrev Filed : (Str → Str) → Reading → Type 0
Filed digest st = Noted st.seen st.nodes × IsFiled digest st.nodes st.edges

abbrev pub first_end : Str → ℕ → EdgeDraft
first_end path line = record {
  edge = edge_at (bare_ref []) [] [] about path line;
  is_key = [];
  remarks = [];
}

nothing_related :
    (rs ss : List Remark) (e : Edge)
    → ¬ (◌≡◌ {A = Option Edge × List Remark} (none, rs) (some e, ss))
nothing_related rs ss e h = cc h

some_edge :
    (d e : Edge) (rs ss : List Remark)
    → ◌≡◌ {A = Option Edge × List Remark} (some d, rs) (some e, ss)
    → d ≡ e
some_edge d e rs ss h = cc h

or-false : (a b : Bool) → (a || b) ≡ false → (a ≡ false) × (b ≡ false)
or-false a b h = ground arith

ids_of-append : (ns ms : List Node) → ids_of_nodes (ns ++ ms) ≡ ids_of_nodes ns ++ ids_of_nodes ms
ids_of-append [] ms = refl
ids_of-append (n ∷ ns) ms = ap (λ l. n.id ∷ l) (ids_of-append ns ms)

pub List-cases {ℓ} : {A : Type ℓ} (l : List A) → (l ≡ []) ⊎ ((x : A) × (xs : List A) × (l ≡ x ∷ xs))
List-cases [] = inl refl
List-cases (x ∷ xs) = inr (x, xs, refl)

pub if_list {ℓ κ} :
    {A : Type ℓ} (P : A → Type κ) (s : Shape) {x y : A}
    → P x
    → P y
    → P (elim s [ sequence ↦ x | _ ↦ y ])
if_list P scalar p q = q
if_list P sequence p q = p
if_list P mapping p q = q
if_list P other p q = q

abbrev pub nothing_read : Reading
nothing_read = record { nodes = []; edges = []; seen = []; remarks = [] }

nothing_read-Filed : (digest : Str → Str) → Filed digest nothing_read
nothing_read-Filed digest = (λ k i. absurd i, (tt, λ n i. absurd i, λ e i. absurd i))

module _ (digest : Str → Str) (dl : Dialect) where
  finish_edge-IsStored :
      (line : ℕ) (d e : Edge) (rs ss : List Remark)
      → finish_edge digest dl line d rs ≡ (some e, ss)
      → IsStored digest e
  unfolding finish_edge
  finish_edge-IsStored line d e rs ss h = elim (Bool-cases (is_empty d.src || is_empty d.dst)) [
    | inl f ↦ absurd (nothing_related _ _ e (rw (f, finish_edge) at h))
    | inr f ↦
        subst (IsStored digest) (some_edge _ _ _ _ (rw (f, finish_edge) at h))
          ((or-false _ _ f).0, (or-false _ _ f).1, refl)
  ]

  conclude-IsStored :
      (line : ℕ) (status : Option Str) (st : EdgeDraft) (e : Edge) (ss : List Remark)
      → conclude digest dl line status st ≡ (some e, ss)
      → IsStored digest e
  unfolding conclude
  conclude-IsStored line status st e ss h = elim (Bool-cases (is_empty st.is_key)) [
    | inl f ↦ absurd (nothing_related _ _ e (rw (f, conclude) at h))
    | inr f ↦ elim (Bool-cases (is_withdrawn status)) [
      | inl g ↦ absurd (nothing_related _ _ e (rw (f, g, conclude) at h))
      | inr g ↦ elim (Option-cases (relate dl st.is_key st.edge)) [
        | inl k ↦ absurd (nothing_related _ _ e (rw (f, g, k, conclude) at h))
        | inr (d, k) ↦ finish_edge-IsStored line d e st.remarks ss (rw (f, g, k, conclude) at h)
      ]
    ]
  ]

  parse_edge-IsStored :
      (path : Str) (line : ℕ) (m : Yaml) (e : Edge) (ss : List Remark)
      → parse_edge digest dl path line m ≡ (some e, ss)
      → IsStored digest e
  unfolding parse_edge
  parse_edge-IsStored path line m e ss h =
      conclude-IsStored line (edge_status (pairs_of m))
        (read_ends line (pairs_of m) (first_end path line)) e ss h

  take_edge-Filed :
      (r : Option Edge × List Remark) (st : Reading)
      → ((e : Edge) → r.0 ≡ some e → IsStored digest e)
      → Filed digest st
      → Filed digest (take_edge r st)
  unfolding take_edge
  take_edge-Filed (none, rs) st k h = h
  take_edge-Filed (some e, rs) st k (a, (u, n, f)) = (
    a,
    (
      u,
      n,
      λ d i. elim ((in-append d st.edges (e ∷ [])).0 i) [
        | inl j ↦ f d j
        | inr (inl p) ↦ subst (IsStored digest) (sym p) (k e refl)
        | inr (inr j) ↦ absurd j
      ],
    ),
  )

  Noted-put :
      (st : Reading) (n : Node)
      → Noted st.seen st.nodes
      → Noted (put_key n.id n.line st.seen) (st.nodes ++ n ∷ [])
  Noted-put st n a k i e = elim (Bool-cases (str_eq n.id k)) [
    | inl p ↦ cc (find_key-put_key n.id n.line st.seen k, p, e)
    | inr p ↦
        elim ((in-append k (ids_of_nodes st.nodes) (n.id ∷ [])).0
          (subst (In k) (ids_of-append st.nodes (n ∷ [])) i)) [
            | inl j ↦ a k j (cc (find_key-put_key n.id n.line st.seen k, p, e))
            | inr (inl q) ↦ cc (q, p, str_eq_refl k)
            | inr (inr j) ↦ absurd j
          ]
  ]

  take_node-Filed :
      (r : Option (Node × List Edge) × List Remark) (st : Reading)
      → ((n : Node) (es : List Edge)
          → r.0 ≡ some (n, es)
          → IsNamed n × ((e : Edge) → In e es → IsStored digest e))
      → Filed digest st
      → Filed digest (take_node r st)
  unfolding take_node
  take_node-Filed (none, rs) st k h = h
  take_node-Filed (some (n, es), rs) st k (a, (u, m, f)) =
      elim (Option-cases (find_key st.seen n.id)) [
        | inr (prev, e) ↦ rw (e, take_node) (a, (u, m, f))
        | inl e ↦
            rw (e, take_node)
              (
                Noted-put st n a,
                (
                  subst NoRepeat (sym (ids_of-append st.nodes (n ∷ [])))
                      (NoRepeat-concat (ids_of_nodes st.nodes) n.id u (λ i. a n.id i e)),
                  λ c i. elim ((in-append c st.nodes (n ∷ [])).0 i) [
                    | inl j ↦ m c j
                    | inr (inl p) ↦ subst IsNamed (sym p) (k n es refl).0
                    | inr (inr j) ↦ absurd j
                  ],
                  λ d i. elim ((in-append d st.edges es).0 i) [
                    | inl j ↦ f d j
                    | inr j ↦ (k n es refl).1 d j
                  ],
                ),
              )
      ]

module _ (digest lower : Str → Str) (fl : Floats) (dl : Dialect) (path : Str) where
  read_item-Filed :
      (base : ℕ) (item : Yaml) (st : Reading)
      → Filed digest st
      → Filed digest (read_item digest lower fl dl path base item st)
  unfolding read_item
  read_item-Filed base item st h =
      let line = base + line_at item - 1 in
      elim (Bool-cases (is_edge_entry item)) [
        | inl e ↦
            rw (e, read_item)
              (take_edge-Filed digest dl (parse_edge digest dl path line item) st
                (λ d p.
                  parse_edge-IsStored digest dl path line item d _
                    (λ i. (p i, (parse_edge digest dl path line item).1)))
                h)
        | inr e ↦
            rw (e, read_item)
              (take_node-Filed digest dl (parse_node digest lower fl dl path line base item) st
                (λ n es p.
                  let r =
                    parse_node-IsParsed digest lower fl dl path line base item n es
                      (parse_node digest lower fl dl path line base item).1
                      (λ i. (p i, (parse_node digest lower fl dl path line base item).1)) in
                  (r.0, r.1))
                h)
      ]

  read_entries-Filed :
      (base : ℕ) (ys : List Yaml) (st : Reading)
      → Filed digest st
      → Filed digest (read_entries digest lower fl dl path base ys st)
  unfolding read_entries
  read_entries-Filed base [] st h = h
  read_entries-Filed base (y ∷ ys) st h =
      read_entries-Filed base ys (read_item digest lower fl dl path base y st)
        (read_item-Filed base y st h)

  read_root-Filed :
      (base : ℕ) (root : Yaml) → Filed digest (read_root digest lower fl dl path base root)
  unfolding read_root
  read_root-Filed base root =
      if_list (Filed digest) (shape_of root)
        (read_entries-Filed base (items_of root) nothing_read (nothing_read-Filed digest))
        (nothing_read-Filed digest)

-- The nodes that are read have distinct ids. Each has an id, a source record where it is a source,
-- and a title only where it is a group. Each edge, also one that is written as an entry of its own,
-- has both ends and the content id of its stored direction.
pub parse_entries-IsFiled :
    (unmarshal : Str → Option Yaml) (digest lower : Str → Str) (fl : Floats) (dl : Dialect)
    (path src : Str)
    → let doc = (parse_entries unmarshal digest lower fl dl path src).0 in
      IsFiled digest doc.nodes doc.edges
unfolding parse_entries doc_of
parse_entries-IsFiled unmarshal digest lower fl dl path src = elim (Option-cases (unmarshal src)) [
  | inl e ↦ rw (e, parse_entries) (nothing_read-Filed digest).1
  | inr (root, e) ↦ elim (List-cases (items_of root)) [
    | inl f ↦ rw (e, f, parse_entries) (nothing_read-Filed digest).1
    | inr (y, ys, f) ↦ rw (e, f, parse_entries) (read_root-Filed digest lower fl dl path 1 y).1
  ]
]
