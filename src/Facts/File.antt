-- ===== src/Facts/File.antt =====
-- fencedBlocks, ParseEntries, parseEntries and checkHashCommentIn of kfacts.go. `unmarshal` is
-- yaml.Unmarshal into a node, without the text of its error.
use kgraph.Base.{
  Str, lit, ℕ, zero, suc, length, ◌==◌, ◌+◌, ◌-◌, Bool, false, not, ◌&&◌, if◌then◌else◌, Option,
  none, some, List, [], ◌∷◌, ◌++◌, is_empty, has_prefix, contains, str_eq, trim_space, find_key,
  put_key, join, split_lines,
}
use kgraph.Model.{Node, Edge, Doc}
use kgraph.Time.{Floats}
use kgraph.Dialect.{Dialect}
use kgraph.Facts.{
  Yaml, sequence, shape_of, line_at, items_of, Remark, fault, not_a_list, duplicate_id,
  invalid_yaml, hash_comment,
}
use kgraph.Facts.Edges.{is_edge_entry, parse_edge}
use kgraph.Facts.Declared.{parse_node}

-- The document that is read so far, with the lines of the ids that it has.
pub record Reading : Type 0 where
  pub nodes : List Node
  pub edges : List Edge
  pub seen : List (Str × ℕ)
  pub remarks : List Remark

unfoldable pub take_edge : Option Edge × List Remark → Reading → Reading
take_edge (none, rs) st = record st { remarks = st.remarks ++ rs }
take_edge (some e, rs) st = record st { edges = st.edges ++ (e ∷ []); remarks = st.remarks ++ rs }

unfoldable pub take_node : Option (Node × List Edge) × List Remark → Reading → Reading
unfolding fault
take_node (none, rs) st = record st { remarks = st.remarks ++ rs }
take_node (some (n, es), rs) st = elim (find_key st.seen n.id) [
  | some prev ↦ record st {
    remarks = st.remarks ++ (rs ++ (fault n.line (duplicate_id n.id) ∷ []));
  }
  | none ↦ record {
    nodes = st.nodes ++ (n ∷ []);
    edges = st.edges ++ es;
    seen = put_key n.id n.line st.seen;
    remarks = st.remarks ++ rs;
  }
]

module _ (digest lower : Str → Str) (fl : Floats) (dl : Dialect) (path : Str) where
  -- One turn of the loop of parseEntries.
  unfoldable pub read_item : ℕ → Yaml → Reading → Reading
  unfolding is_edge_entry parse_edge parse_node take_edge take_node line_at
  read_item base item st =
      let line = base + line_at item - 1 in
      if is_edge_entry item
      then take_edge (parse_edge digest dl path line item) st
      else take_node (parse_node digest lower fl dl path line base item) st

  unfoldable pub read_entries : ℕ → List Yaml → Reading → Reading
  unfolding read_item
  read_entries base [] st = st
  read_entries base (y ∷ ys) st = read_entries base ys (read_item base y st)

  -- parseEntries, for a document that has the path only.
  unfoldable pub read_root : ℕ → Yaml → Reading
  unfolding read_entries shape_of items_of fault
  read_root base root =
      let none_yet : Reading = record { nodes = []; edges = []; seen = []; remarks = [] } in
      elim (shape_of root) [
        | sequence ↦ read_entries base (items_of root) none_yet
        | _ ↦ record none_yet { remarks = fault base not_a_list ∷ [] }
      ]

  unfoldable pub doc_of : Reading → Doc
  doc_of st = record { path = path; nodes = st.nodes; edges = st.edges }

pub record Block : Type 0 where
  pub body : Str
  pub first_line : ℕ

unfoldable pub is_managed : Str → Bool
unfolding has_prefix
is_managed l = has_prefix (trim_space l) (lit "<!-- kgraph:managed")

-- The lines before the closing fence.
unfoldable pub inside : List Str → List Str
inside [] = []
inside (l ∷ ls) = let rest = inside ls in if str_eq (trim_space l) (lit "```") then [] else l ∷ rest

-- The loop of fencedBlocks, at line `at` counted from 1, of which `skip` lines are read already.
unfoldable pub blocks_from : Str → ℕ → ℕ → List Str → List Block
unfolding is_managed inside
blocks_from lang at skip [] = []
blocks_from lang at (suc skip) (l ∷ ls) = blocks_from lang (at + 1) skip ls
blocks_from lang at zero (l ∷ ls) =
    let body = inside ls in
    let next = blocks_from lang (at + 1) 0 ls in
    let behind = blocks_from lang (at + 1) (length body + 1) ls in
    if is_managed l
    then []
    else if not (str_eq (trim_space l) (lit "```" ++ lang))
    then next
    else record { body = join (10 ∷ []) body; first_line = at + 1 } ∷ behind

-- fencedBlocks
unfoldable pub fenced_blocks : Str → Str → List Block
unfolding blocks_from
fenced_blocks src lang = blocks_from lang 1 0 (split_lines src)

-- strings.Cut(s, ": "), what is behind it.
unfoldable pub behind_colon : Str → Option Str
behind_colon [] = none
behind_colon (c ∷ []) = none
behind_colon (c ∷ (d ∷ s)) =
    let rest = behind_colon (d ∷ s) in if (c == 58) && (d == 32) then some s else rest

-- The value of a line is written without quotes and has a space and a "#" in it.
unfoldable pub eats_value : Str → Bool
unfolding has_prefix contains
eats_value val =
    not (has_prefix val (34 ∷ [])) && not (has_prefix val (39 ∷ [])) && contains val (lit " #")

unfoldable pub comments_out : Str → Bool
unfolding behind_colon eats_value
comments_out trimmed =
    not (is_empty trimmed)
    && not (has_prefix trimmed (lit "#"))
    && elim (behind_colon trimmed) [ none ↦ false | some v ↦ eats_value (trim_space v) ]

-- checkHashCommentIn, from the line `line` on.
unfoldable pub hash_remarks : ℕ → List Str → List Remark
unfolding comments_out fault
hash_remarks line [] = []
hash_remarks line (l ∷ ls) =
    let rest = hash_remarks (line + 1) ls in
    if comments_out (trim_space l) then fault line (hash_comment (trim_space l)) ∷ rest else rest

-- ParseEntries
module _ (unmarshal : Str → Option Yaml) (digest lower : Str → Str) (fl : Floats)
    (dl : Dialect) where
  unfoldable pub parse_entries : Str → Str → Doc × List Remark
  unfolding hash_remarks read_root doc_of items_of fault
  parse_entries path src =
      let hashes = hash_remarks 1 (split_lines src) in
      let nothing : Doc = record { path = path; nodes = []; edges = [] } in
      elim (unmarshal src) [
        | none ↦ (nothing, hashes ++ (fault 1 invalid_yaml ∷ []))
        | some root ↦ elim (items_of root) [
          | [] ↦ (nothing, hashes)
          | y ∷ _ ↦
              let st = read_root digest lower fl dl path 1 y in
              (doc_of digest lower fl dl path st, hashes ++ st.remarks)
        ]
      ]
