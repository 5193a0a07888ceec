-- ===== src/Facts/Entry.antt =====
-- The loop of parseNode in kfacts.go: the keys of one entry that declares a node.
use kgraph.Base.{
  Str, lit, ℕ, false, not, ◌&&◌, if◌then◌else◌, Option, none, some, List, [], ◌∷◌, ◌++◌, map, has,
  is_empty, str_eq, find_key, put_key,
}
use kgraph.Model.{
  Node, Edge, EdgeType, Kind, claim, group, source, kind_eq, Status, Needs, day, body_keys,
  forward_edge, inverse_edge, one_way_edge,
}
use kgraph.Time.{Floats}
use kgraph.Satisfy.Expr.{valid_group_expr}
use kgraph.Dialect.{Dialect, edge_of}
use kgraph.Facts.{
  Yaml, text_at, line_of, Remark, fault, two_kinds, no_rule, written_twice, EdgeRef, edge_refs,
  edge_at, id_list,
}
use kgraph.Facts.Scalar.{source_or_new, assign_scalar}
use kgraph.Facts.Subtypes.{complain}

-- scalarFields
unfoldable pub scalar_fields : List Str
scalar_fields =
    lit "id"
    ∷ lit "status"
    ∷ lit "owner"
    ∷ lit "reason"
    ∷ lit "supersedes_reason"
    ∷ lit "while"
    ∷ lit "at"
    ∷ lit "valid_from"
    ∷ lit "valid_until"
    ∷ lit "from"
    ∷ lit "to"
    ∷ lit "precision"
    ∷ lit "value"
    ∷ lit "unit"
    ∷ lit "ordered"
    ∷ lit "exhaustive"
    ∷ lit "aliases"
    ∷ lit "needs"
    ∷ lit "same_as"
    ∷ lit "underdetermined"
    ∷ lit "title"
    ∷ lit "by"
    ∷ lit "medium"
    ∷ lit "recorded"
    ∷ lit "doc"
    ∷ lit "anchor"
    ∷ lit "class"
    ∷ lit "derived_from"
    ∷ []

-- What the loop of parseNode has gathered. The kind is of account once there is a body key.
pub record Draft : Type 0 where
  pub node : Node
  pub edges : List Edge
  pub body_key : Str
  pub scalar_line : List (Str × ℕ)
  pub is_node : Option Yaml
  pub deferred : List (Yaml × Yaml)
  pub remarks : List Remark

-- &Node{File: path, Line: line, Precision: PDay}
unfoldable pub new_node : Str → ℕ → Node
new_node path line = record {
  id = [];
  cid = [];
  kind = claim;
  body = [];
  status = Status.unset;
  owner = [];
  valid_from = [];
  valid_until = [];
  at = [];
  occ_from = [];
  occ_to = [];
  at_expr = [];
  precision = day;
  while_node = [];
  value = 0;
  has_value = false;
  value_expr = [];
  unit = [];
  group_expr = [];
  title = [];
  ordered = false;
  options = [];
  exhaustive = false;
  underdetermined = [];
  same_as = [];
  needs = Needs.unset;
  aliases = [];
  is = [];
  bag = [];
  reason = [];
  supersedes_reason = [];
  provenance = none;
  file = path;
  line = line;
}

unfoldable pub remark : Draft → List Remark → Draft
remark st rs = record st { remarks = st.remarks ++ rs }

-- The body, as the kind has it.
unfoldable pub set_body : Str → Kind → Str → Node → Node
unfolding source_or_new
set_body key source s n = record n {
  kind = source;
  body = s;
  provenance = some (record (source_or_new n) { form = key });
}
set_body key group s n = record n { kind = group; body = []; group_expr = s }
set_body key kind s n = record n { kind = kind; body = s }

unfoldable pub rule_remarks : ℕ → Kind → Str → List Remark
unfolding fault
rule_remarks line kind s =
    if kind_eq kind group && not (valid_group_expr s) then fault line (no_rule s) ∷ [] else []

module _ (fl : Floats) (dl : Dialect) (path : Str) (base : ℕ) where
  unfoldable pub read_body : Str → Kind → Yaml → Yaml → Draft → Draft
  unfolding set_body rule_remarks remark fault text_at line_of
  read_body key kind k v st =
      if is_empty st.body_key
      then remark (record st { node = set_body key kind (text_at v) st.node; body_key = key })
          (rule_remarks (line_of base v) kind (text_at v))
      else remark st (fault (line_of base k) (two_kinds key) ∷ [])

  -- The edges of a relation that is authored on its source.
  unfoldable pub read_forward : EdgeType → Yaml → Yaml → Draft → Draft
  unfolding edge_refs edge_at line_of
  read_forward t k v st = record st {
    edges =
        st.edges
        ++ map (λ (r : EdgeRef). edge_at r st.node.id r.id t path (line_of base k)) (edge_refs v);
  }

  -- The edges of a relation that is authored on its destination.
  unfoldable pub read_inverse : Str → EdgeType → Yaml → Yaml → Draft → Draft
  unfolding edge_refs edge_at line_of id_list
  read_inverse key t k v st = record st {
    edges =
        st.edges
        ++ map
            (λ (r : EdgeRef). record (edge_at r r.id st.node.id t path (line_of base k)) {
              one_way = one_way_edge key;
            })
            (edge_refs v);
    node = if str_eq key (lit "options") then record st.node { options = id_list v } else st.node;
  }

  unfoldable pub note_line : Str → Yaml → Draft → Draft
  unfolding remark fault line_of
  note_line key k st = elim (find_key st.scalar_line key) [
    | some first ↦ remark st (fault (line_of base k) (written_twice key) ∷ [])
    | none ↦ record st { scalar_line = put_key key (line_of base k) st.scalar_line }
  ]

  unfoldable pub read_scalar : Str → Yaml → Yaml → Draft → Draft
  unfolding note_line assign_scalar remark complain line_of
  read_scalar key k v st =
      let noted = note_line key k st in
      let r = assign_scalar fl dl noted.node key v in
      remark (record noted { node = r.0 }) (complain (line_of base v) r.1)

  unfoldable pub read_field : Str → Yaml → Yaml → Draft → Draft
  unfolding read_scalar scalar_fields
  read_field key k v st =
      if str_eq key (lit "is")
      then record st { is_node = some v }
      else if has scalar_fields key
      then read_scalar key k v st
      else record st { deferred = st.deferred ++ ((k, v) ∷ []) }

  -- The relation of a key: of the core table (where `derived_from` is a field), then of the dialect.
  unfoldable pub relation_of : Str → Option EdgeType
  unfolding edge_of
  relation_of key =
      if str_eq key (lit "derived_from")
      then edge_of dl key
      else elim (find_key forward_edge key) [ some t ↦ some t | none ↦ edge_of dl key ]

  -- One turn of the loop of parseNode.
  unfoldable pub read_key : Yaml × Yaml → Draft → Draft
  unfolding read_body read_forward read_inverse read_field relation_of text_at
  read_key (k, v) st =
      let key = text_at k in
      elim (find_key body_keys key) [
        | some kind ↦ read_body key kind k v st
        | none ↦ elim (relation_of key) [
          | some t ↦ read_forward t k v st
          | none ↦ elim (find_key inverse_edge key) [
            | some t ↦ read_inverse key t k v st
            | none ↦ read_field key k v st
          ]
        ]
      ]

  unfoldable pub read_keys : List (Yaml × Yaml) → Draft → Draft
  unfolding read_key
  read_keys [] st = st
  read_keys (p ∷ ps) st = read_keys ps (read_key p st)
