-- ===== src/Facts/Edges.antt =====
-- The standalone form of a relation: isEdgeEntry, edgeStatus and parseEdge of kfacts.go. `digest` is
-- the first sixteen digits of SHA-256, and the name of an edge type its Go string.
use kgraph.Base.{
  Str, lit, ℕ, Bool, true, false, not, ◌&&◌, ◌||◌, if◌then◌else◌, Option, none, some, List, [], ◌∷◌,
  ◌++◌, any, is_empty, has, str_eq, find_key, put_key, keys_of,
}
use kgraph.Model.{
  Edge, EdgeType, causes, implies, requires, prohibits, supports, contradicts, answers, supersedes,
  member_of, about, attests, derived_from, dialect_edge, body_keys, forward_edge, inverse_edge,
}
use kgraph.Dialect.{Dialect, edge_of}
use kgraph.Facts.{
  Yaml, scalar, mapping, shape_of, text_at, pairs_of, Remark, fault, not_a_scalar, no_relation,
  unknown_relation, no_ends, bare_ref, edge_at,
}

unfoldable pub type_name : EdgeType → Str
type_name causes = lit "causes"
type_name implies = lit "implies"
type_name requires = lit "requires"
type_name prohibits = lit "prohibits"
type_name supports = lit "supports"
type_name contradicts = lit "contradicts"
type_name answers = lit "answers"
type_name supersedes = lit "supersedes"
type_name member_of = lit "member_of"
type_name about = lit "about"
type_name attests = lit "attests"
type_name derived_from = lit "derived_from"
type_name (dialect_edge key) = key

-- EdgeCID
unfoldable pub edge_cid : (Str → Str) → Str → EdgeType → Str → Str
unfolding type_name
edge_cid digest src t dst = digest (src ++ (0 ∷ (type_name t ++ (0 ∷ dst))))

-- A mapping with no body key and both ends.
unfoldable pub has_key : List (Yaml × Yaml) → Str → Bool
unfolding text_at
has_key ps key = any (λ (p : Yaml × Yaml). str_eq (text_at p.0) key) ps

unfoldable pub has_body : List (Yaml × Yaml) → Bool
unfolding text_at
has_body ps = any (λ (p : Yaml × Yaml). has (keys_of body_keys) (text_at p.0)) ps

unfoldable pub is_mapping : Yaml → Bool
unfolding shape_of
is_mapping y = elim (shape_of y) [ mapping ↦ true | _ ↦ false ]

unfoldable pub is_scalar : Yaml → Bool
unfolding shape_of
is_scalar y = elim (shape_of y) [ scalar ↦ true | _ ↦ false ]

-- isEdgeEntry
unfoldable pub is_edge_entry : Yaml → Bool
unfolding has_body has_key is_mapping pairs_of
is_edge_entry m =
    is_mapping m
    && not (has_body (pairs_of m))
    && has_key (pairs_of m) (lit "from")
    && has_key (pairs_of m) (lit "to")

-- edgeStatus
unfoldable pub edge_status : List (Yaml × Yaml) → Option Str
unfolding text_at
edge_status [] = none
edge_status ((k, v) ∷ ps) =
    let rest = edge_status ps in
    if str_eq (text_at k) (lit "status") then some (text_at v) else rest

-- The edge that is read so far, the key of its relation, and what was reported.
pub record EdgeDraft : Type 0 where
  pub edge : Edge
  pub is_key : Str
  pub remarks : List Remark

unfoldable pub annotate : ℕ → Str → Yaml → EdgeDraft → EdgeDraft
unfolding is_scalar text_at fault
annotate line k v st =
    if is_scalar v
    then record st { edge = record st.edge { bag = put_key k (text_at v) st.edge.bag } }
    else record st { remarks = st.remarks ++ (fault line (not_a_scalar k) ∷ []) }

-- One turn of the loop of parseEdge.
unfoldable pub read_end : ℕ → Yaml × Yaml → EdgeDraft → EdgeDraft
unfolding text_at annotate
read_end line (k, v) st =
    let key = text_at k in
    let s = text_at v in
    if str_eq key (lit "id")
    then record st { edge = record st.edge { id = s } }
    else if str_eq key (lit "from")
    then record st { edge = record st.edge { src = s } }
    else if str_eq key (lit "to")
    then record st { edge = record st.edge { dst = s } }
    else if str_eq key (lit "is")
    then record st { is_key = s }
    else if str_eq key (lit "valid_from")
    then record st { edge = record st.edge { valid_from = s } }
    else if str_eq key (lit "valid_until")
    then record st { edge = record st.edge { valid_until = s } }
    else if str_eq key (lit "while")
    then record st { edge = record st.edge { while_node = s } }
    else if str_eq key (lit "because")
    then record st { edge = record st.edge { because = s } }
    else if str_eq key (lit "one_way")
    then record st { edge = record st.edge { one_way = str_eq s (lit "true") } }
    else annotate line key v st

unfoldable pub read_ends : ℕ → List (Yaml × Yaml) → EdgeDraft → EdgeDraft
unfolding read_end
read_ends line [] st = st
read_ends line (p ∷ ps) st = read_ends line ps (read_end line p st)

unfoldable pub is_withdrawn : Option Str → Bool
is_withdrawn none = false
is_withdrawn (some s) = str_eq s (lit "withdrawn")

-- The relation of the key, in its stored direction: the core table, its inverses, the dialect.
unfoldable pub relate : Dialect → Str → Edge → Option Edge
unfolding edge_of
relate dl key e = elim (find_key forward_edge key) [
  | some t ↦ some (record e { type = t })
  | none ↦ elim (find_key inverse_edge key) [
    | some t ↦ some (record e { type = t; src = e.dst; dst = e.src })
    | none ↦ elim (edge_of dl key) [ some t ↦ some (record e { type = t }) | none ↦ none ]
  ]
]

module _ (digest : Str → Str) (dl : Dialect) where
  unfoldable pub finish_edge : ℕ → Edge → List Remark → Option Edge × List Remark
  unfolding edge_cid fault
  finish_edge line e remarks =
      if is_empty e.src || is_empty e.dst
      then (none, remarks ++ (fault line no_ends ∷ []))
      else (some (record e { cid = edge_cid digest e.src e.type e.dst }), remarks)

  unfoldable pub conclude : ℕ → Option Str → EdgeDraft → Option Edge × List Remark
  unfolding is_withdrawn relate finish_edge fault
  conclude line status st =
      if is_empty st.is_key
      then (none, st.remarks ++ (fault line no_relation ∷ []))
      else if is_withdrawn status
      then (none, st.remarks)
      else elim (relate dl st.is_key st.edge) [
        | none ↦ (none, st.remarks ++ (fault line (unknown_relation st.is_key) ∷ []))
        | some e ↦ finish_edge line e st.remarks
      ]

  -- parseEdge; the type of an edge that is not related yet is of no account.
  unfoldable pub parse_edge : Str → ℕ → Yaml → Option Edge × List Remark
  unfolding read_ends edge_status conclude pairs_of edge_at bare_ref
  parse_edge path line m = conclude line (edge_status (pairs_of m)) (
      read_ends line (pairs_of m)
        (record { edge = edge_at (bare_ref []) [] [] about path line; is_key = []; remarks = [] }))
