-- ===== src/Facts/Surfaces.antt =====
-- The two forms of a relation in kfacts.go: a key of the node, which parseNode reads, and an entry of
-- its own, which parseEdge reads.
use kgraph.Base.{
  Str, lit, ℕ, arith, ◌≡◌, refl, sym, ap, subst, ◌≢◌, inl, inr, true, false, none, some, [], ◌∷◌,
  is_empty, has, str_eq, str_eq_iff, find_key, Option-cases,
}
use kgraph.Model.{Edge, EdgeType, body_keys, forward_edge, inverse_edge, one_way_edge, about}
use kgraph.Time.{Floats}
use kgraph.Dialect.{Dialect, edge_of}
use kgraph.Facts.{
  Yaml, yaml, no_more, and_more, scalar, mapping, shape_of, text_at, id_at, edge_at, add_ref,
  bare_ref, edge_refs, pairs_of,
}
use kgraph.Facts.Edges.{
  EdgeDraft, edge_cid, parse_edge, conclude, finish_edge, relate, read_ends, edge_status,
  is_withdrawn,
}
use kgraph.Facts.Entry.{
  Draft, remark, read_key, read_forward, read_inverse, read_field, read_scalar, relation_of,
  scalar_fields,
}
use kgraph.Facts.Declared.{or_id}
use kgraph.Facts.Assigned.{if_both}
use kgraph.Facts.Gathered.{note_line-again, note_line-once}

abbrev word : Str → Yaml
word s = yaml scalar s 1 no_more

-- The entry that relates `a` to `b` under the key.
unfoldable pub relation_entry : Str → Str → Str → Yaml
relation_entry a key b = yaml mapping [] 1 (
    and_more (word (lit "from")) (
      and_more (word a) (
        and_more (word (lit "is"))
          (and_more (word key) (and_more (word (lit "to")) (and_more (word b) no_more))))))

-- A dialect that redefines no inverse relation of the core, which its file is checked for.
abbrev pub KeepsInverses : Dialect → Str → Type 0
KeepsInverses dl key = find_key inverse_edge key ≢ none → edge_of dl key ≡ none

-- The ends, the type and the content id.
abbrev pub stored : Edge → Str × EdgeType × Str × Str
stored e = (e.src, e.type, e.dst, e.cid)

pub edge_refs-one :
    (v : Yaml) (b : Str)
    → shape_of v ≡ scalar
    → id_at v ≡ b
    → is_empty b ≡ false
    → edge_refs v ≡ bare_ref b ∷ []
unfolding edge_refs add_ref
edge_refs-one v b s h e = rw (s, h, e, edge_refs)

read_ends-one :
    (a key b path : Str) (line : ℕ)
    → read_ends line
        (pairs_of (relation_entry a key b))
        (record { edge = edge_at (bare_ref []) [] [] about path line; is_key = []; remarks = [] })
      ≡ record { edge = edge_at (bare_ref []) a b about path line; is_key = key; remarks = [] }
unfolding read_ends relation_entry pairs_of edge_at str_eq
read_ends-one a key b path line = refl

pub or_id-own : (a : Str) → or_id a a ≡ a
unfolding or_id
or_id-own a = ground arith

pub or_id-filled : (a b : Str) → is_empty b ≡ false → or_id a b ≡ b
unfolding or_id
or_id-filled a b h = rw h

module _ (digest : Str → Str) (dl : Dialect) (path : Str) (line : ℕ) (a key b : Str) where
  abbrev pub here : Edge
  here = edge_at (bare_ref []) a b about path line

  parse_edge-concludes :
      parse_edge digest dl path line (relation_entry a key b)
      ≡ conclude digest dl line none (record { edge = here; is_key = key; remarks = [] })
  unfolding parse_edge relation_entry edge_status pairs_of str_eq
  parse_edge-concludes =
      ap (λ (st : EdgeDraft). conclude digest dl line none st) (read_ends-one a key b path line)

  pub conclude-unrelated :
      is_empty key ≡ false
      → relate dl key here ≡ none
      → (parse_edge digest dl path line (relation_entry a key b)).0 ≡ none
  unfolding conclude is_withdrawn
  conclude-unrelated h r = rw (parse_edge-concludes, conclude, h, r)

  pub conclude-related :
      (d : Edge)
      → is_empty key ≡ false
      → relate dl key here ≡ some d
      → is_empty d.src ≡ false
      → is_empty d.dst ≡ false
      → (parse_edge digest dl path line (relation_entry a key b)).0
        ≡ some (record d { cid = edge_cid digest d.src d.type d.dst })
  unfolding conclude is_withdrawn finish_edge
  conclude-related d h r p q = rw (parse_edge-concludes, conclude, h, r, finish_edge, p, q)

-- The only key that is one-way is an inverse one.
pub one_way_edge-inverse :
    (key : Str)
    → one_way_edge key ≡ true
    → (find_key forward_edge key ≡ none) × (find_key inverse_edge key ≢ none)
unfolding one_way_edge forward_edge inverse_edge find_key str_eq
one_way_edge-inverse key h =
    subst (λ k. (find_key forward_edge k ≡ none) × (find_key inverse_edge k ≢ none))
      (sym ((str_eq_iff key (lit "undercut_by")).0 h)) (refl, λ e. cc e)

module _ (fl : Floats) (dl : Dialect) (path : Str) (base : ℕ) where
  read_scalar-edges :
      (key : Str) (k v : Yaml) (st : Draft)
      → (read_scalar fl dl path base key k v st).edges ≡ st.edges
  unfolding read_scalar remark
  read_scalar-edges key k v st = elim (Option-cases (find_key st.scalar_line key)) [
    | inr (first, e) ↦
        ap (λ (d : Draft). d.edges) (note_line-again fl dl path base key k st first e)
    | inl e ↦ ap (λ (d : Draft). d.edges) (note_line-once fl dl path base key k st e)
  ]

  read_field-edges :
      (key : Str) (k v : Yaml) (st : Draft)
      → (read_field fl dl path base key k v st).edges ≡ st.edges
  unfolding read_field
  read_field-edges key k v st =
      if_both (λ (d : Draft). d.edges ≡ st.edges) (str_eq key (lit "is")) refl
        (if_both (λ (d : Draft). d.edges ≡ st.edges) (has scalar_fields key)
          (read_scalar-edges key k v st) refl)

  pub read_key-forward :
      (k v : Yaml) (st : Draft) (t : EdgeType)
      → find_key body_keys (text_at k) ≡ none
      → relation_of fl dl path base (text_at k) ≡ some t
      → (read_key fl dl path base (k, v) st).edges ≡ (read_forward fl dl path base t k v st).edges
  unfolding read_key
  read_key-forward k v st t h r = rw (h, r, read_key)

  pub read_key-inverse :
      (k v : Yaml) (st : Draft) (t : EdgeType)
      → find_key body_keys (text_at k) ≡ none
      → relation_of fl dl path base (text_at k) ≡ none
      → find_key inverse_edge (text_at k) ≡ some t
      → (read_key fl dl path base (k, v) st).edges
        ≡ (read_inverse fl dl path base (text_at k) t k v st).edges
  unfolding read_key
  read_key-inverse k v st t h r i = rw (h, r, i, read_key)

  pub read_key-field :
      (k v : Yaml) (st : Draft)
      → find_key body_keys (text_at k) ≡ none
      → relation_of fl dl path base (text_at k) ≡ none
      → find_key inverse_edge (text_at k) ≡ none
      → (read_key fl dl path base (k, v) st).edges ≡ st.edges
  unfolding read_key
  read_key-field k v st h r i = rw (h, r, i, read_key) (read_field-edges (text_at k) k v st)

  pub relation_of-core :
      (key : Str) (t : EdgeType)
      → str_eq key (lit "derived_from") ≡ false
      → find_key forward_edge key ≡ some t
      → relation_of fl dl path base key ≡ some t
  unfolding relation_of
  relation_of-core key t h f = rw (h, f, relation_of)

  pub relation_of-dialect :
      (key : Str)
      → str_eq key (lit "derived_from") ≡ false
      → find_key forward_edge key ≡ none
      → relation_of fl dl path base key ≡ edge_of dl key
  unfolding relation_of
  relation_of-dialect key h f = rw (h, f, relation_of)
