-- ===== src/Facts.antt =====
-- kfacts.go: entries of a fact file, which are read from the tree of the third-party package yaml.
-- `Yaml` is its type Node: the kind of the node, its value, its line, and its children, which for a
-- mapping are the keys and values in turn.
pub mod Scalar
pub mod Subtypes
pub mod Edges
pub mod Entry
pub mod Declared
pub mod File
mod Assigned
pub mod Gathered
pub mod Parsed
pub mod Whole
pub mod Refused
pub mod Lossless
pub mod Surfaces
pub mod Agreed
pub mod Order
use kgraph.Base.{
  Str, lit, ℕ, ◌+◌, ◌-◌, Bool, true, false, not, ◌||◌, if◌then◌else◌, Option, none, some, List, [],
  ◌∷◌, ◌++◌, is_empty, str_eq, trim_space,
}
use kgraph.Model.{Alias, EdgeType, Edge}
use kgraph.Dialect.Rules.{Severity, sev_error, sev_warn}
use kgraph.Values.{trim_prefix}

pub data Shape : Type 0 where
  scalar sequence mapping other : Shape

mutual
  pub data Yaml : Type 0 where
    yaml : Shape → Str → ℕ → Yamls → Yaml

  pub data Yamls : Type 0 where
    no_more : Yamls
    and_more : Yaml → Yamls → Yamls

unfoldable pub shape_of : Yaml → Shape
shape_of (yaml s v l c) = s

unfoldable pub text_at : Yaml → Str
text_at (yaml s v l c) = v

unfoldable pub line_at : Yaml → ℕ
line_at (yaml s v l c) = l

unfoldable pub listed : Yamls → List Yaml
listed no_more = []
listed (and_more y ys) = y ∷ listed ys

unfoldable pub items_of : Yaml → List Yaml
unfolding listed
items_of (yaml s v l c) = listed c

-- for i := 0; i+1 < len(m.Content); i += 2
unfoldable pub paired : Yamls → List (Yaml × Yaml)
paired no_more = []
paired (and_more k no_more) = []
paired (and_more k (and_more v ys)) = (k, v) ∷ paired ys

unfoldable pub pairs_of : Yaml → List (Yaml × Yaml)
unfolding paired
pairs_of (yaml s v l c) = paired c

-- What a diagnostic says, without its text.
pub data Complaint : Type 0 where
  not_a_list not_a_mapping no_id no_kind no_relation no_ends invalid_yaml self_same_as : Complaint
  two_kinds no_rule written_twice bad_status bad_precision bad_value bad_needs bad_class :
      Str → Complaint
  says_nothing stray_title not_a_scalar ambiguous_key unknown_field unknown_relation :
      Str → Complaint
  unknown_subtype wrong_kind shared_prefix duplicate_id inverted truncated hash_comment :
      Str → Complaint

-- A diagnostic; its file is the one that is read.
pub record Remark : Type 0 where
  pub line : ℕ
  pub severity : Severity
  pub complaint : Complaint

unfoldable pub fault : ℕ → Complaint → Remark
fault l c = record { line = l; severity = sev_error; complaint = c }

-- lineOf
unfoldable pub line_of : ℕ → Yaml → ℕ
unfolding line_at
line_of base y = base + line_at y - 1

pub record EdgeRef : Type 0 where
  pub id : Str
  pub valid_from : Str
  pub valid_until : Str
  pub while_node : Str
  pub because : Str

unfoldable pub bare_ref : Str → EdgeRef
bare_ref id = record { id = id; valid_from = []; valid_until = []; while_node = []; because = [] }

-- The closures `add` of edgeRefs and idList: an id, without a leading "#".
unfoldable pub id_at : Yaml → Str
unfolding trim_prefix text_at
id_at y = trim_prefix (trim_space (text_at y)) (lit "#")

unfoldable pub add_ref : Str → List EdgeRef → List EdgeRef
unfolding bare_ref
add_ref id refs = if is_empty id then refs else bare_ref id ∷ refs

-- One pair of the long form of a reference.
unfoldable pub qualify : Yaml × Yaml → EdgeRef → EdgeRef
unfolding text_at trim_prefix
qualify (k, v) r =
    let val = trim_prefix (text_at v) (lit "#") in
    if str_eq (text_at k) (lit "id")
    then record r { id = val }
    else if str_eq (text_at k) (lit "valid_from")
    then record r { valid_from = val }
    else if str_eq (text_at k) (lit "valid_until")
    then record r { valid_until = val }
    else if str_eq (text_at k) (lit "while")
    then record r { while_node = val }
    else if str_eq (text_at k) (lit "because")
    then record r { because = trim_space (text_at v) }
    else r

unfoldable pub qualify_all : List (Yaml × Yaml) → EdgeRef → EdgeRef
unfolding qualify
qualify_all [] r = r
qualify_all (p ∷ ps) r = qualify_all ps (qualify p r)

unfoldable pub refs_of : List Yaml → List EdgeRef
unfolding add_ref id_at qualify_all pairs_of shape_of
refs_of [] = []
refs_of (y ∷ ys) =
    let rest = refs_of ys in
    elim (shape_of y) [
      | mapping ↦
          let r = qualify_all (pairs_of y) (bare_ref []) in if is_empty r.id then rest else r ∷ rest
      | _ ↦ add_ref (id_at y) rest
    ]

-- edgeRefs
unfoldable pub edge_refs : Yaml → List EdgeRef
unfolding refs_of items_of
edge_refs y = elim (shape_of y) [
  | scalar ↦ add_ref (id_at y) []
  | sequence ↦ refs_of (items_of y)
  | _ ↦ []
]

-- edgeRef.edge
unfoldable pub edge_at : EdgeRef → Str → Str → EdgeType → Str → ℕ → Edge
edge_at r src dst t path line = record {
  id = [];
  cid = [];
  src = src;
  dst = dst;
  type = t;
  valid_from = r.valid_from;
  valid_until = r.valid_until;
  while_node = r.while_node;
  file = path;
  line = line;
  bag = [];
  because = r.because;
  one_way = false;
}

unfoldable pub add_id : Str → List Str → List Str
add_id id ids = if is_empty id then ids else id ∷ ids

unfoldable pub ids_in : List (Yaml × Yaml) → List Str → List Str
unfolding add_id id_at
ids_in [] rest = rest
ids_in ((k, v) ∷ ps) rest =
    let more = ids_in ps rest in
    if str_eq (text_at k) (lit "id") then add_id (id_at v) more else more

unfoldable pub ids_of : List Yaml → List Str
unfolding ids_in
ids_of [] = []
ids_of (y ∷ ys) = elim (shape_of y) [
  | mapping ↦ ids_in (pairs_of y) (ids_of ys)
  | _ ↦ add_id (id_at y) (ids_of ys)
]

-- idList
unfoldable pub id_list : Yaml → List Str
unfolding ids_of
id_list y = elim (shape_of y) [
  | scalar ↦ add_id (id_at y) []
  | sequence ↦ ids_of (items_of y)
  | _ ↦ []
]

unfoldable pub read_alias : List (Yaml × Yaml) → Alias → Alias
unfolding text_at
read_alias [] a = a
read_alias ((k, v) ∷ ps) a = read_alias ps (
    if str_eq (text_at k) (lit "as") || str_eq (text_at k) (lit "name")
    then record a { name = text_at v }
    else if str_eq (text_at k) (lit "from")
    then record a { starts = text_at v }
    else if str_eq (text_at k) (lit "until")
    then record a { until = text_at v }
    else a)

unfoldable pub add_alias : Alias → List Alias → List Alias
add_alias a rest = if is_empty a.name then rest else a ∷ rest

unfoldable pub bare_alias : Str → Alias
bare_alias name = record { name = name; starts = []; until = [] }

unfoldable pub alias_list : List Yaml → List Alias
unfolding read_alias add_alias bare_alias
alias_list [] = []
alias_list (y ∷ ys) = elim (shape_of y) [
  | mapping ↦ add_alias (read_alias (pairs_of y) (bare_alias [])) (alias_list ys)
  | _ ↦ add_alias (bare_alias (text_at y)) (alias_list ys)
]

-- parseAliases
unfoldable pub parse_aliases : Yaml → List Alias
unfolding alias_list
parse_aliases y = elim (shape_of y) [
  | scalar ↦ add_alias (bare_alias (text_at y)) []
  | sequence ↦ alias_list (items_of y)
  | _ ↦ []
]
