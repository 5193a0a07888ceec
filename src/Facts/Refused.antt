-- ===== src/Facts/Refused.antt =====
-- parseNode and parseEdge of kfacts.go where they give nothing, and what parseEntries has read.
use kgraph.Base.{
  Str, ℕ, ◌≡◌, refl, ◌⊎◌, inl, inr, true, Option, none, some, List, [], ◌++◌, In, in-append,
  is_empty, find_key, Bool-cases, Option-cases, ◌||◌,
}
use kgraph.Model.{Node, Edge}
use kgraph.Time.{Floats}
use kgraph.Dialect.{Dialect}
use kgraph.Facts.{Yaml, pairs_of, Remark, fault, not_a_mapping}
use kgraph.Facts.Edges.{
  EdgeDraft, parse_edge, conclude, finish_edge, relate, is_withdrawn, edge_status, read_ends,
  is_mapping,
}
use kgraph.Facts.Entry.{Draft, read_keys}
use kgraph.Facts.Declared.{parse_node, declare_node}
use kgraph.Facts.File.{Reading, take_edge, take_node}
use kgraph.Facts.Gathered.{Faulted, Faulted-append, Faulted-last}
use kgraph.Facts.Parsed.{first_draft}
use kgraph.Facts.Whole.{first_end}

-- Nothing that is read is taken back.
abbrev pub Grows : Reading → Reading → Type 0
Grows st new =
    (Faulted st.remarks → Faulted new.remarks)
    × ((n : Node) → In n st.nodes → In n new.nodes)
    × ((e : Edge) → In e st.edges → In e new.edges)

pub Grows-trans : (a b c : Reading) → Grows a b → Grows b c → Grows a c
Grows-trans a b c p q = (λ f. q.0 (p.0 f), λ n i. q.1 n (p.1 n i), λ e i. q.2 e (p.2 e i))

pub take_edge-Grows : (r : Option Edge × List Remark) (st : Reading) → Grows st (take_edge r st)
unfolding take_edge
take_edge-Grows (none, rs) st = (Faulted-append st.remarks rs, λ n i. i, λ e i. i)
take_edge-Grows (some e, rs) st =
    (Faulted-append st.remarks rs, λ n i. i, λ d i. (in-append d st.edges _).1 (inl i))

pub take_node-Grows :
    (r : Option (Node × List Edge) × List Remark) (st : Reading) → Grows st (take_node r st)
unfolding take_node
take_node-Grows (none, rs) st = (Faulted-append st.remarks rs, λ n i. i, λ e i. i)
take_node-Grows (some (n, es), rs) st = elim (Option-cases (find_key st.seen n.id)) [
  | inr (prev, e) ↦ rw (e, take_node) (Faulted-append st.remarks _, λ m i. i, λ e i. i)
  | inl e ↦
      rw (e, take_node)
        (
          Faulted-append st.remarks rs,
          λ m i. (in-append m st.nodes _).1 (inl i),
          λ d i. (in-append d st.edges _).1 (inl i),
        )
]

pub Faulted-more : (rs ss : List Remark) → Faulted ss → Faulted (rs ++ ss)
Faulted-more rs ss (r, i, e) = (r, (in-append r rs ss).1 (inr i), e)

module _ (digest : Str → Str) (dl : Dialect) (path : Str) (line : ℕ) where
  -- An entry of a relation that gives none is refused or withdrawn.
  finish_edge-refused :
      (d : Edge) (rs : List Remark)
      → (finish_edge digest dl line d rs).0 ≡ none
      → Faulted (finish_edge digest dl line d rs).1
  unfolding finish_edge
  finish_edge-refused d rs h = elim (Bool-cases (is_empty d.src || is_empty d.dst)) [
    | inl f ↦ rw (f, finish_edge) (Faulted-last rs _ refl)
    | inr f ↦ cc (rw (f, finish_edge) at h)
  ]

  conclude-refused :
      (status : Option Str) (st : EdgeDraft)
      → (conclude digest dl line status st).0 ≡ none
      → Faulted (conclude digest dl line status st).1 ⊎ (is_withdrawn status ≡ true)
  unfolding conclude
  conclude-refused status st h = elim (Bool-cases (is_empty st.is_key)) [
    | inl f ↦ inl (rw (f, conclude) (Faulted-last st.remarks _ refl))
    | inr f ↦ elim (Bool-cases (is_withdrawn status)) [
      | inl g ↦ inr g
      | inr g ↦ elim (Option-cases (relate dl st.is_key st.edge)) [
        | inl k ↦ inl (rw (f, g, k, conclude) (Faulted-last st.remarks _ refl))
        | inr (d, k) ↦ inl (
            rw (f, g, k, conclude) (finish_edge-refused d st.remarks (rw (f, g, k, conclude) at h)))
      ]
    ]
  ]

  pub parse_edge-refused :
      (m : Yaml)
      → (parse_edge digest dl path line m).0 ≡ none
      → Faulted (parse_edge digest dl path line m).1
        ⊎ (is_withdrawn (edge_status (pairs_of m)) ≡ true)
  unfolding parse_edge
  parse_edge-refused m h =
      conclude-refused (edge_status (pairs_of m))
        (read_ends line (pairs_of m) (first_end path line)) h

module _ (digest lower : Str → Str) (fl : Floats) (dl : Dialect) (path : Str) where
  declare_node-refused :
      (base line : ℕ) (st : Draft)
      → (declare_node digest lower fl dl path base line st).0 ≡ none
      → Faulted (declare_node digest lower fl dl path base line st).1
  unfolding declare_node
  declare_node-refused base line st h = elim (Bool-cases (is_empty st.node.id)) [
    | inl e ↦ rw (e, declare_node) (Faulted-last st.remarks _ refl)
    | inr e ↦ elim (Bool-cases (is_empty st.body_key)) [
      | inl f ↦ rw (e, f, declare_node) (Faulted-last st.remarks _ refl)
      | inr f ↦ cc (rw (e, f, declare_node) at h)
    ]
  ]

  pub parse_node-refused :
      (line base : ℕ) (m : Yaml)
      → (parse_node digest lower fl dl path line base m).0 ≡ none
      → Faulted (parse_node digest lower fl dl path line base m).1
  unfolding parse_node
  parse_node-refused line base m h = elim (Bool-cases (is_mapping m)) [
    | inr e ↦ rw (e, parse_node) (Faulted-last [] (fault line not_a_mapping) refl)
    | inl e ↦
        rw (e, parse_node)
          (declare_node-refused base line
            (read_keys fl dl path base (pairs_of m) (first_draft path line))
            (rw (e, parse_node) at h))
  ]
