-- ===== src/Facts/Lossless.antt =====
-- The account of each entry that parseEntries of kfacts.go reads.
use kgraph.Base.{
  Str, ℕ, ◌+◌, ◌-◌, ◌≡◌, refl, sym, ap, subst, ◌⊎◌, inl, inr, true, false, Option, none, some,
  split_lines, List, [], ◌∷◌, ◌++◌, In, in-append, find_key, Bool-cases, Option-cases,
}
use kgraph.Model.{Node, Edge, Doc}
use kgraph.Time.{Floats}
use kgraph.Dialect.{Dialect}
use kgraph.Facts.{
  Yaml, shape_of, items_of, pairs_of, line_at, Remark, fault, duplicate_id, not_a_list,
}
use kgraph.Facts.Edges.{is_edge_entry, parse_edge, is_withdrawn, edge_status}
use kgraph.Facts.Declared.{parse_node}
use kgraph.Facts.File.{
  Reading, take_edge, take_node, read_item, read_entries, read_root, doc_of, hash_remarks,
  parse_entries,
}
use kgraph.Facts.Gathered.{Faulted, Faulted-last}
use kgraph.Facts.Whole.{if_list, nothing_read}
use kgraph.Facts.Refused.{
  Grows, Grows-trans, take_edge-Grows, take_node-Grows, Faulted-more, parse_edge-refused,
  parse_node-refused,
}

module _ (digest lower : Str → Str) (fl : Floats) (dl : Dialect) (path : Str) where
  -- What was made of an entry: it was refused, it is a relation that is withdrawn, it is a relation
  -- of the document, or a node of the document with all its edges.
  abbrev pub Accounted : ℕ → Yaml → List Node → List Edge → List Remark → Type 0
  Accounted line item ns es rs =
      Faulted rs
      ⊎ ((is_edge_entry item ≡ true) × (is_withdrawn (edge_status (pairs_of item)) ≡ true))
      ⊎ ((e : Edge) × ((parse_edge digest dl path line item).0 ≡ some e) × In e es)
      ⊎ ((n : Node) × (fs : List Edge) × ((parse_node digest lower fl dl path line 1 item).0
            ≡ some (n, fs))
          × In n ns
          × ((e : Edge) → In e fs → In e es))

  abbrev Taken : Yaml → Reading → Type 0
  Taken item st = Accounted (1 + line_at item - 1) item st.nodes st.edges st.remarks

  Taken-Grows : (item : Yaml) (a b : Reading) → Grows a b → Taken item a → Taken item b
  Taken-Grows item a b g (inl f) = inl (g.0 f)
  Taken-Grows item a b g (inr (inl w)) = inr (inl w)
  Taken-Grows item a b g (inr (inr (inl (e, p, i)))) = inr (inr (inl (e, p, g.2 e i)))
  Taken-Grows item a b g (inr (inr (inr (n, fs, p, i, j)))) =
      inr (inr (inr (n, fs, p, g.1 n i, λ e k. g.2 e (j e k))))

  read_item-Grows :
      (item : Yaml) (st : Reading) → Grows st (read_item digest lower fl dl path 1 item st)
  unfolding read_item
  read_item-Grows item st = elim (Bool-cases (is_edge_entry item)) [
    | inl e ↦
        rw (e, read_item)
          (take_edge-Grows (parse_edge digest dl path (1 + line_at item - 1) item) st)
    | inr e ↦
        rw (e, read_item)
          (take_node-Grows (parse_node digest lower fl dl path (1 + line_at item - 1) 1 item) st)
  ]

  read_entries-Grows :
      (ys : List Yaml) (st : Reading) → Grows st (read_entries digest lower fl dl path 1 ys st)
  unfolding read_entries
  read_entries-Grows [] st = (λ f. f, λ n i. i, λ e i. i)
  read_entries-Grows (y ∷ ys) st =
      let next = read_item digest lower fl dl path 1 y st in
      Grows-trans st next (read_entries digest lower fl dl path 1 ys next) (read_item-Grows y st)
        (read_entries-Grows ys next)

  take_edge-Taken :
      (item : Yaml) (r : Option Edge × List Remark) (st : Reading)
      → is_edge_entry item ≡ true
      → r ≡ parse_edge digest dl path (1 + line_at item - 1) item
      → Taken item (take_edge r st)
  unfolding take_edge
  take_edge-Taken item (none, rs) st h q =
      elim (parse_edge-refused digest dl path (1 + line_at item - 1) item
        (ap (λ (r : Option Edge × List Remark). r.0) (sym q))) [
          | inl f ↦ inl (
              Faulted-more st.remarks rs
                (subst Faulted (ap (λ (r : Option Edge × List Remark). r.1) (sym q)) f))
          | inr w ↦ inr (inl (h, w))
        ]
  take_edge-Taken item (some e, rs) st h q = inr (
      inr (
        inl (
          e,
          ap (λ (r : Option Edge × List Remark). r.0) (sym q),
          (in-append e st.edges (e ∷ [])).1 (inr (inl refl)),
        )))

  take_node-Taken :
      (item : Yaml) (r : Option (Node × List Edge) × List Remark) (st : Reading)
      → r ≡ parse_node digest lower fl dl path (1 + line_at item - 1) 1 item
      → Taken item (take_node r st)
  unfolding take_node
  take_node-Taken item (none, rs) st q = inl (
      Faulted-more st.remarks rs (
        subst Faulted (ap (λ (r : Option (Node × List Edge) × List Remark). r.1) (sym q)) (
          parse_node-refused digest lower fl dl path (1 + line_at item - 1) 1 item
            (ap (λ (r : Option (Node × List Edge) × List Remark). r.0) (sym q)))))
  take_node-Taken item (some (n, es), rs) st q = elim (Option-cases (find_key st.seen n.id)) [
    | inr (prev, e) ↦
        rw (e, take_node)
          (inl (
            Faulted-more st.remarks (rs ++ (fault n.line (duplicate_id n.id) ∷ []))
              (Faulted-last rs (fault n.line (duplicate_id n.id)) refl)))
    | inl e ↦
        rw (e, take_node)
          (inr (
            inr (
              inr (
                n,
                es,
                ap (λ (r : Option (Node × List Edge) × List Remark). r.0) (sym q),
                (in-append n st.nodes (n ∷ [])).1 (inr (inl refl)),
                λ d i. (in-append d st.edges es).1 (inr i),
              ))))
  ]

  read_item-relation :
      (item : Yaml) (st : Reading)
      → is_edge_entry item ≡ true
      → read_item digest lower fl dl path 1 item st
        ≡ take_edge (parse_edge digest dl path (1 + line_at item - 1) item) st
  unfolding read_item
  read_item-relation item st e = rw (e, read_item)

  read_item-node :
      (item : Yaml) (st : Reading)
      → is_edge_entry item ≡ false
      → read_item digest lower fl dl path 1 item st
        ≡ take_node (parse_node digest lower fl dl path (1 + line_at item - 1) 1 item) st
  unfolding read_item
  read_item-node item st e = rw (e, read_item)

  read_item-Taken :
      (item : Yaml) (st : Reading) → Taken item (read_item digest lower fl dl path 1 item st)
  read_item-Taken item st =
      let line = 1 + line_at item - 1 in
      elim (Bool-cases (is_edge_entry item)) [
        | inl e ↦
            subst (Taken item) (sym (read_item-relation item st e))
              (take_edge-Taken item (parse_edge digest dl path line item) st e refl)
        | inr e ↦
            subst (Taken item) (sym (read_item-node item st e))
              (take_node-Taken item (parse_node digest lower fl dl path line 1 item) st refl)
      ]

  read_entries-Taken :
      (item : Yaml) (ys : List Yaml) (st : Reading)
      → In item ys
      → Taken item (read_entries digest lower fl dl path 1 ys st)
  unfolding read_entries
  read_entries-Taken item [] st i = absurd i
  read_entries-Taken item (y ∷ ys) st (inl p) =
      let next = read_item digest lower fl dl path 1 y st in
      Taken-Grows item next (read_entries digest lower fl dl path 1 ys next)
        (read_entries-Grows ys next)
        (subst (λ z. Taken item (read_item digest lower fl dl path 1 z st)) p
          (read_item-Taken item st))
  read_entries-Taken item (y ∷ ys) st (inr i) = read_entries-Taken item ys _ i

  read_root-Taken :
      (root item : Yaml)
      → In item (items_of root)
      → Taken item (read_root digest lower fl dl path 1 root)
  unfolding read_root
  read_root-Taken root item i =
      if_list (Taken item) (shape_of root) (read_entries-Taken item (items_of root) nothing_read i)
        (inl (fault 1 not_a_list, inl refl, refl))

  parse_entries-read :
      (unmarshal : Str → Option Yaml) (src : Str) (top root : Yaml) (more : List Yaml)
      → unmarshal src ≡ some top
      → items_of top ≡ root ∷ more
      → let st = read_root digest lower fl dl path 1 root in
        parse_entries unmarshal digest lower fl dl path src
        ≡ (doc_of digest lower fl dl path st, hash_remarks 1 (split_lines src) ++ st.remarks)
  unfolding parse_entries
  parse_entries-read unmarshal src top root more h r = rw (h, r, parse_entries)

  Accounted-more :
      (line : ℕ) (item : Yaml) (ns : List Node) (es : List Edge) (rs ss : List Remark)
      → Accounted line item ns es ss
      → Accounted line item ns es (rs ++ ss)
  Accounted-more line item ns es rs ss (inl f) = inl (Faulted-more rs ss f)
  Accounted-more line item ns es rs ss (inr a) = inr a

  -- No entry of a fact file is lost in silence. Where the text is YAML whose first document is `root`,
  -- for each entry of it an error is reported in the file, or the entry is a relation whose status is
  -- withdrawn, or the relation that is read from it is in the document, or the node that is read from
  -- it is there with all of its edges.
  pub parse_entries-lossless :
      (unmarshal : Str → Option Yaml) (src : Str) (top root item : Yaml) (more : List Yaml)
      → unmarshal src ≡ some top
      → items_of top ≡ root ∷ more
      → In item (items_of root)
      → let (doc, rs) = parse_entries unmarshal digest lower fl dl path src in
        Accounted (1 + line_at item - 1) item doc.nodes doc.edges rs
  unfolding parse_entries doc_of
  parse_entries-lossless unmarshal src top root item more h r i =
      let st = read_root digest lower fl dl path 1 root in
      let line = 1 + line_at item - 1 in
      subst (λ (a : Doc × List Remark). Accounted line item a.0.nodes a.0.edges a.1)
        (sym (parse_entries-read unmarshal src top root more h r))
        (Accounted-more line item st.nodes st.edges (hash_remarks 1 (split_lines src)) st.remarks
          (read_root-Taken root item i))
