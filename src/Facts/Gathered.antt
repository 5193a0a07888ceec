-- ===== src/Facts/Gathered.antt =====
-- The loop of parseNode in kfacts.go: the source record of the node, and the ends of its edges, which
-- are empty where they are the node and its id is still to come.
use kgraph.Base.{
  Str, lit, ℕ, ◌≡◌, refl, sym, ap, ◌∙◌, subst, ◌⊎◌, inl, inr, Bool, true, false, none, some, List,
  [], ◌∷◌, ◌++◌, map, In, in-append, is_empty, has, str_eq, str_eq_iff, find_key, put_key,
  find_key-put_key, Bool-cases, Option-cases, if◌then◌else◌,
}
use kgraph.Model.{
  Node, Edge, EdgeType, Kind, claim, question, entity, event, action, group, source, body_keys,
  inverse_edge,
}
use kgraph.Time.{Floats}
use kgraph.Dialect.{Dialect}
use kgraph.Dialect.Rules.{sev_error}
use kgraph.Facts.{
  Yaml, text_at, line_of, Remark, EdgeRef, edge_refs, edge_at, id_list, fault, written_twice,
}
use kgraph.Facts.Scalar.{assign_scalar}
use kgraph.Facts.Subtypes.{complain}
use kgraph.Facts.Entry.{
  Draft, remark, set_body, rule_remarks, read_body, read_forward, read_inverse, note_line,
  read_scalar, read_field, scalar_fields, relation_of, read_key, read_keys,
}
use kgraph.Facts.Assigned.{if_both, HasRecord, assign_scalar-Assigned}

abbrev pub Faulted : List Remark → Type 0
Faulted rs = (r : Remark) × In r rs × (r.severity ≡ sev_error)

-- An end is the node, or is not known yet.
abbrev pub Touches : Str → Edge → Type 0
Touches id e = (is_empty e.src ≡ true) ⊎ (e.src ≡ id) ⊎ (is_empty e.dst ≡ true) ⊎ (e.dst ≡ id)

abbrev pub AllTouch : Str → List Edge → Type 0
AllTouch id es = (e : Edge) → In e es → Touches id e

-- The id is set once, under its own line.
abbrev pub Fresh : List (Str × ℕ) → Str → Type 0
Fresh noted id = find_key noted (lit "id") ≡ none → is_empty id ≡ true

abbrev pub Sound : Draft → Type 0
Sound st =
    HasRecord st.node.kind st.node.provenance
    × (Faulted st.remarks ⊎ (Fresh st.scalar_line st.node.id × AllTouch st.node.id st.edges))

pub Faulted-append : (rs ss : List Remark) → Faulted rs → Faulted (rs ++ ss)
Faulted-append rs ss (r, i, e) = (r, (in-append r rs ss).1 (inl i), e)

pub Faulted-last : (rs : List Remark) (r : Remark) → r.severity ≡ sev_error → Faulted (rs ++ r ∷ [])
Faulted-last rs r e = (r, (in-append r rs (r ∷ [])).1 (inr (inl refl)), e)

pub remark-Sound : (st : Draft) (rs : List Remark) → Sound st → Sound (remark st rs)
unfolding remark
remark-Sound st rs (h, inl f) = (h, inl (Faulted-append st.remarks rs f))
remark-Sound st rs (h, inr t) = (h, inr t)

set_body-id : (key : Str) (kind : Kind) (s : Str) (n : Node) → (set_body key kind s n).id ≡ n.id
unfolding set_body
set_body-id key claim s n = refl
set_body-id key question s n = refl
set_body-id key entity s n = refl
set_body-id key event s n = refl
set_body-id key action s n = refl
set_body-id key group s n = refl
set_body-id key source s n = refl

set_body-HasRecord :
    (key : Str) (kind : Kind) (s : Str) (n : Node)
    → HasRecord (set_body key kind s n).kind (set_body key kind s n).provenance
unfolding set_body
set_body-HasRecord key claim s n e = cc e
set_body-HasRecord key question s n e = cc e
set_body-HasRecord key entity s n e = cc e
set_body-HasRecord key event s n e = cc e
set_body-HasRecord key action s n e = cc e
set_body-HasRecord key group s n e = cc e
set_body-HasRecord key source s n e = λ f. cc f

AllTouch-append :
    (id : Str) (es fs : List Edge) → AllTouch id es → AllTouch id fs → AllTouch id (es ++ fs)
AllTouch-append id es fs p q e i = elim ((in-append e es fs).0 i) [ inl j ↦ p e j | inr j ↦ q e j ]

-- Edges that are made from references, each with the node at one end.
AllTouch-map :
    (id : Str) (f : EdgeRef → Edge)
    → ((r : EdgeRef) → Touches id (f r))
    → (rs : List EdgeRef) → AllTouch id (map f rs)
AllTouch-map id f h [] e i = absurd i
AllTouch-map id f h (r ∷ rs) e (inl p) = subst (Touches id) (sym p) (h r)
AllTouch-map id f h (r ∷ rs) e (inr i) = AllTouch-map id f h rs e i

-- The edges of a node without an id have an open end, whatever the id will be.
AllTouch-open :
    (id new : Str) (es : List Edge) → is_empty id ≡ true → AllTouch id es → AllTouch new es
AllTouch-open id new es o t e i = elim (t e i) [
  | inl p ↦ inl p
  | inr (inl p) ↦ inl (ap is_empty p ∙ o)
  | inr (inr (inl p)) ↦ inr (inr (inl p))
  | inr (inr (inr p)) ↦ inr (inr (inl (ap is_empty p ∙ o)))
]

module _ (fl : Floats) (dl : Dialect) (path : Str) (base : ℕ) where
  read_body-Sound :
      (key : Str) (kind : Kind) (k v : Yaml) (st : Draft)
      → Sound st
      → Sound (read_body fl dl path base key kind k v st)
  unfolding read_body
  read_body-Sound key kind k v st h = elim (Bool-cases (is_empty st.body_key)) [
    | inl e ↦ rw e (
        remark-Sound (record st { node = set_body key kind (text_at v) st.node; body_key = key })
          (rule_remarks (line_of base v) kind (text_at v))
          (
            set_body-HasRecord key kind (text_at v) st.node,
            elim h.1 [
              | inl f ↦ inl f
              | inr (f, t) ↦ rw (set_body-id key kind (text_at v) st.node) (inr (f, t))
            ],
          ))
    | inr e ↦ rw e (remark-Sound st _ h)
  ]

  read_forward-Sound :
      (t : EdgeType) (k v : Yaml) (st : Draft)
      → Sound st
      → Sound (read_forward fl dl path base t k v st)
  unfolding read_forward edge_at
  read_forward-Sound t k v st (h, inl f) = (h, inl f)
  read_forward-Sound t k v st (h, inr (f, a)) = (
    h,
    inr (
      f,
      AllTouch-append st.node.id st.edges _ a
          (AllTouch-map st.node.id _ (λ r. inr (inl refl)) (edge_refs v)),
    ),
  )

  options-Sound :
      (b : Bool) (n : Node) (ids : List Str)
      → let m = if b then record n { options = ids } else n in
        (m.id ≡ n.id) × (m.kind ≡ n.kind) × (m.provenance ≡ n.provenance)
  options-Sound true n ids = (refl, refl, refl)
  options-Sound false n ids = (refl, refl, refl)

  read_inverse-Sound :
      (key : Str) (t : EdgeType) (k v : Yaml) (st : Draft)
      → Sound st
      → Sound (read_inverse fl dl path base key t k v st)
  unfolding read_inverse edge_at
  read_inverse-Sound key t k v st (h, s) =
      let (i, c, p) = options-Sound (str_eq key (lit "options")) st.node (id_list v) in
      (
        rw (c, p) h,
        elim s [
          | inl f ↦ inl f
          | inr (f, a) ↦ rw i (
              inr (
                f,
                AllTouch-append st.node.id st.edges _ a
                    (AllTouch-map st.node.id _ (λ r. inr (inr (inr refl))) (edge_refs v)),
              ))
        ],
      )

  -- A field that is not noted yet, with the node that it leaves.
  noted_once :
      (key : Str) (st : Draft) (new : Str) (line : ℕ)
      → (str_eq key (lit "id") ≡ false → new ≡ st.node.id)
      → find_key st.scalar_line key ≡ none
      → Fresh st.scalar_line st.node.id
      → AllTouch st.node.id st.edges
      → Fresh (put_key key line st.scalar_line) new × AllTouch new st.edges
  noted_once key st new line i e f a = elim (Bool-cases (str_eq key (lit "id"))) [
    | inl q ↦ (
      λ g. cc (find_key-put_key key line st.scalar_line (lit "id"), q, g),
      AllTouch-open st.node.id new st.edges
          (f (subst (λ j. find_key st.scalar_line j ≡ none) ((str_eq_iff key (lit "id")).0 q) e)) a,
    )
    | inr q ↦ (
      λ g. rw (i q) (
          f (
            sym (
              subst
                (λ b.
                  find_key (put_key key line st.scalar_line) (lit "id")
                  ≡ (if b then some line else find_key st.scalar_line (lit "id")))
                q (find_key-put_key key line st.scalar_line (lit "id")))
            ∙ g)),
      rw (i q) a,
    )
  ]

  pub note_line-again :
      (key : Str) (k : Yaml) (st : Draft) (first : ℕ)
      → find_key st.scalar_line key ≡ some first
      → note_line fl dl path base key k st
        ≡ remark st (fault (line_of base k) (written_twice key) ∷ [])
  unfolding note_line
  note_line-again key k st first e = rw (e, note_line)

  pub note_line-once :
      (key : Str) (k : Yaml) (st : Draft)
      → find_key st.scalar_line key ≡ none
      → note_line fl dl path base key k st
        ≡ record st { scalar_line = put_key key (line_of base k) st.scalar_line }
  unfolding note_line
  note_line-once key k st e = rw (e, note_line)

  -- The field, once its line is noted.
  abbrev assigned : Str → Yaml → Draft → Draft
  assigned key v noted =
      let r = assign_scalar fl dl noted.node key v in
      remark (record noted { node = r.0 }) (complain (line_of base v) r.1)

  read_scalar-Sound :
      (key : Str) (k v : Yaml) (st : Draft)
      → Sound st
      → Sound (read_scalar fl dl path base key k v st)
  unfolding read_scalar remark
  read_scalar-Sound key k v st (h, s) =
      let (c, p, i) = assign_scalar-Assigned fl dl st.node key v in
      elim (Option-cases (find_key st.scalar_line key)) [
        | inr (first, e) ↦
            subst (λ d. Sound (assigned key v d)) (sym (note_line-again key k st first e))
              (
                p h,
                inl (
                    Faulted-append _ _
                      (Faulted-last st.remarks (fault (line_of base k) (written_twice key)) refl)),
              )
        | inl e ↦
            subst (λ d. Sound (assigned key v d)) (sym (note_line-once key k st e))
              (
                p h,
                elim s [
                  | inl f ↦ inl (Faulted-append st.remarks _ f)
                  | inr (f, a) ↦ inr (noted_once key st _ (line_of base k) i e f a)
                ],
              )
      ]

  read_field-Sound :
      (key : Str) (k v : Yaml) (st : Draft)
      → Sound st
      → Sound (read_field fl dl path base key k v st)
  unfolding read_field
  read_field-Sound key k v st h =
      if_both Sound (str_eq key (lit "is")) h
        (if_both Sound (has scalar_fields key) (read_scalar-Sound key k v st h) h)

  read_key-Sound : (p : Yaml × Yaml) (st : Draft) → Sound st → Sound (read_key fl dl path base p st)
  unfolding read_key
  read_key-Sound (k, v) st h = elim (Option-cases (find_key body_keys (text_at k))) [
    | inr (kind, e) ↦ rw (e, read_key) (read_body-Sound (text_at k) kind k v st h)
    | inl e ↦ elim (Option-cases (relation_of fl dl path base (text_at k))) [
      | inr (t, f) ↦ rw (e, f, read_key) (read_forward-Sound t k v st h)
      | inl f ↦ elim (Option-cases (find_key inverse_edge (text_at k))) [
        | inr (t, g) ↦ rw (e, f, g, read_key) (read_inverse-Sound (text_at k) t k v st h)
        | inl g ↦ rw (e, f, g, read_key) (read_field-Sound (text_at k) k v st h)
      ]
    ]
  ]

  pub read_keys-Sound :
      (ps : List (Yaml × Yaml)) (st : Draft) → Sound st → Sound (read_keys fl dl path base ps st)
  unfolding read_keys
  read_keys-Sound [] st h = h
  read_keys-Sound (p ∷ ps) st h =
      read_keys-Sound ps (read_key fl dl path base p st) (read_key-Sound p st h)
