-- ===== src/Facts/Declared.antt =====
-- What parseNode of kfacts.go does behind its loop, the checks of a node, CID and NormalizeBody of
-- node.go.
use mathlib.Core.List.{reverse}
use kgraph.Base.{
  Str, lit, ℕ, suc, ◌-◌, ◌==◌, Bool, not, ◌&&◌, ◌||◌, if◌then◌else◌, Option, none, some, List, [],
  ◌∷◌, ◌++◌, map, is_empty, str_eq, find_key, put_key, join, length, ltb, any,
}
use kgraph.Model.{
  Node, Edge, type_eq, supports, answers, attests, derived_from, Kind, question, group, source,
  kind_eq, kind_name,
}
use kgraph.Time.{Floats}
use kgraph.Values.{split_fields}
use kgraph.Dialect.{Dialect}
use kgraph.Dialect.Rules.{sev_warn}
use kgraph.Facts.{
  Yaml, text_at, line_of, pairs_of, Remark, fault, stray_title, not_a_scalar, ambiguous_key,
  unknown_field, not_a_mapping, no_id, no_kind, inverted, truncated, edge_at, bare_ref,
}
use kgraph.Facts.Subtypes.{NodeSubtypes, no_subtypes, parse_is, governs_key, claimants}
use kgraph.Facts.Edges.{edge_cid, is_mapping, is_scalar}
use kgraph.Facts.Entry.{Draft, new_node, remark, read_keys}

module _ (fl : Floats) (dl : Dialect) (path : Str) (base : ℕ) where
  -- A title is for a group.
  unfoldable pub check_title : Draft → Draft
  unfolding remark fault
  check_title st =
      if not (is_empty st.node.title) && not (kind_eq st.node.kind group)
      then remark (record st { node = record st.node { title = [] } })
          (fault (elim (find_key st.scalar_line (lit "title")) [ none ↦ 0 | some l ↦ l ])
              (stray_title st.node.id)
            ∷ [])
      else st

  -- One turn of the loop over the deferred keys.
  unfoldable pub route : NodeSubtypes → Yaml × Yaml → Draft → Draft
  unfolding governs_key claimants remark fault line_of text_at is_scalar
  route subs (k, v) st =
      let key = text_at k in
      if governs_key subs key
      then (if is_scalar v
          then record st { node = record st.node { bag = put_key key (text_at v) st.node.bag } }
          else remark st (fault (line_of base k) (not_a_scalar key) ∷ []))
      else if ltb 1 (length (claimants subs key))
      then remark st (fault (line_of base k) (ambiguous_key key) ∷ [])
      else remark st (fault (line_of base k) (unknown_field key) ∷ [])

  unfoldable pub route_all : NodeSubtypes → List (Yaml × Yaml) → Draft → Draft
  unfolding route
  route_all subs [] st = st
  route_all subs (p ∷ ps) st = route_all subs ps (route subs p st)

  unfoldable pub read_is : Draft → Draft × NodeSubtypes
  unfolding parse_is no_subtypes remark line_of
  read_is st = elim st.is_node [
    | none ↦ (st, no_subtypes)
    | some y ↦
        let r = parse_is dl y st.node.kind (line_of base y) in
        (remark (record st { node = record st.node { is = r.0.names } }) r.1, r.0)
  ]

-- One edge for each premise of the source.
unfoldable pub premise_edges : Node → List Edge
unfolding edge_at bare_ref
premise_edges n = elim n.provenance [
  | none ↦ []
  | some s ↦ map (λ p. edge_at (bare_ref []) n.id p derived_from [] 0) s.premises
]

unfoldable pub or_id : Str → Str → Str
or_id id s = if is_empty s then id else s

-- An end that was written before the id is the node.
unfoldable pub backfill : (Str → Str) → Str → Edge → Edge
unfolding edge_cid or_id
backfill digest id e = record e {
  src = or_id id e.src;
  dst = or_id id e.dst;
  cid = edge_cid digest (or_id id e.src) e.type (or_id id e.dst);
}

-- checkIdiom
unfoldable pub check_idiom : Node → List Edge → List Remark
unfolding fault
check_idiom n [] = []
check_idiom n (e ∷ es) =
    let rest = check_idiom n es in
    if not (str_eq e.src n.id)
    then rest
    else if (kind_eq n.kind question && (type_eq e.type supports || type_eq e.type answers))
        || (not (kind_eq n.kind source) && type_eq e.type attests)
    then fault e.line (inverted e.dst) ∷ rest
    else rest

-- checkTruncated: the brackets that are open at the end.
unfoldable pub open_brackets : ℕ → Str → ℕ
open_brackets depth [] = depth
open_brackets depth (c ∷ s) =
    open_brackets
      (if (c == 40) || (c == 91)
        then suc depth
        else if (c == 41) || (c == 93)
        then depth - 1
        else depth)
      s

unfoldable pub check_truncated : ℕ → Node → List Remark
unfolding open_brackets
check_truncated line n =
    if open_brackets 0 n.body == 0
    then []
    else record { line = line; severity = sev_warn; complaint = truncated n.body } ∷ []

-- strings.Trim of the marks .,;:!?"'()[]
unfoldable pub is_mark : ℕ → Bool
is_mark c = any (λ m. c == m) (46 ∷ 44 ∷ 59 ∷ 58 ∷ 33 ∷ 63 ∷ 34 ∷ 39 ∷ 40 ∷ 41 ∷ 91 ∷ 93 ∷ [])

unfoldable pub drop_marks : Str → Str
unfolding is_mark
drop_marks [] = []
drop_marks (c ∷ s) = let rest = drop_marks s in if is_mark c then rest else c ∷ s

-- NormalizeBody
unfoldable pub normalize_body : (Str → Str) → Str → Str
unfolding drop_marks
normalize_body lower body =
    join (32 ∷ [])
      (map (λ w. reverse (drop_marks (reverse (drop_marks w)))) (split_fields [] (lower body)))

module _ (digest lower : Str → Str) (fl : Floats) (dl : Dialect) (path : Str) where
  -- CID
  unfoldable pub node_cid : Kind → Str → Str
  unfolding normalize_body
  node_cid kind body = digest (kind_name kind ++ (0 ∷ normalize_body lower body))

  -- What follows the deferred keys.
  unfoldable pub finish_node : ℕ → Draft → (Node × List Edge) × List Remark
  unfolding premise_edges backfill check_idiom check_truncated node_cid
  finish_node line st =
      let edges = map (backfill digest st.node.id) (st.edges ++ premise_edges st.node) in
      (
        (record st.node { cid = node_cid st.node.kind st.node.body }, edges),
        st.remarks ++ (check_idiom st.node edges ++ check_truncated line st.node),
      )

  -- What follows the loop, for a node with an id and a kind.
  unfoldable pub settle : ℕ → ℕ → Draft → (Node × List Edge) × List Remark
  unfolding check_title read_is route_all finish_node
  settle base line st =
      let (kept, subs) = read_is fl dl path base (check_title fl dl path base st) in
      finish_node line (route_all fl dl path base subs kept.deferred kept)

  unfoldable pub declare_node : ℕ → ℕ → Draft → Option (Node × List Edge) × List Remark
  unfolding settle fault
  declare_node base line st =
      if is_empty st.node.id
      then (none, st.remarks ++ (fault line no_id ∷ []))
      else if is_empty st.body_key
      then (none, st.remarks ++ (fault line no_kind ∷ []))
      else (let r = settle base line st in (some r.0, r.1))

  -- parseNode
  unfoldable pub parse_node : ℕ → ℕ → Yaml → Option (Node × List Edge) × List Remark
  unfolding read_keys declare_node new_node is_mapping pairs_of fault
  parse_node line base m =
      if not (is_mapping m)
      then (none, fault line not_a_mapping ∷ [])
      else declare_node base line (
          read_keys fl dl path base (pairs_of m) (record {
            node = new_node path line;
            edges = [];
            body_key = [];
            scalar_line = [];
            is_node = none;
            deferred = [];
            remarks = [];
          }))
