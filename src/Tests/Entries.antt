-- ===== src/Tests/Entries.antt =====
-- Entries of a fact file: a source with a premise and a relation above its id, a claim, and a relation
-- that stands for itself.
use kgraph.Base.{
  Str, lit, ℕ, ◌≡◌, refl, ◌≢◌, ◌⊎◌, inl, inr, Bool, true, false, Option, none, some, List, [], ◌∷◌,
  ◌++◌, In, is_empty, str_eq,
}
use kgraph.Model.{Node, Edge, EdgeType, Doc, month, approx, one_way_edge}
use kgraph.Dialect.{legal}
use kgraph.Facts.{
  Yaml, yaml, no_more, and_more, scalar, sequence, mapping, Remark, self_same_as, text_at,
}
use kgraph.Facts.Scalar.{assign_scalar}
use kgraph.Facts.Entry.{Draft, new_node}
use kgraph.Facts.Declared.{parse_node}
use kgraph.Facts.File.{parse_entries}
use kgraph.Facts.Gathered.{Faulted}
use kgraph.Facts.Parsed.{IsNamed, IsStored, IsOn, parse_node-IsParsed, first_draft}
use kgraph.Facts.Whole.{IsFiled, parse_entries-IsFiled}
use kgraph.Facts.Lossless.{Accounted, parse_entries-lossless}
use kgraph.Facts.Agreed.{Agrees, read_key-Agrees}
use kgraph.Facts.Order.{assign_scalar-same_as}
use kgraph.Tests.Samples.{no_floats}

abbrev word_at : ℕ → Str → Yaml
word_at line s = yaml scalar s line no_more

abbrev record_entry : Yaml
record_entry = yaml mapping [] 1 (
    and_more (word_at 1 (lit "attests")) (
      and_more (word_at 1 (lit "c1")) (
        and_more (word_at 2 (lit "id")) (
          and_more (word_at 2 (lit "s1")) (
            and_more (word_at 3 (lit "inference")) (
              and_more (word_at 3 (lit "It follows")) (
                and_more (word_at 4 (lit "derived_from"))
                  (and_more (word_at 4 (lit "c2")) no_more))))))))

abbrev claim_entry : Yaml
claim_entry = yaml mapping [] 5 (
    and_more (word_at 5 (lit "id")) (
      and_more (word_at 5 (lit "c1"))
        (and_more (word_at 6 (lit "claim")) (and_more (word_at 6 (lit "It rained")) no_more))))

abbrev link_entry : Yaml
link_entry = yaml mapping [] 7 (
    and_more (word_at 7 (lit "from")) (
      and_more (word_at 7 (lit "c1")) (
        and_more (word_at 8 (lit "is")) (
          and_more (word_at 8 (lit "supports"))
            (and_more (word_at 9 (lit "to")) (and_more (word_at 9 (lit "c2")) no_more))))))

abbrev entry_list : Yaml
entry_list =
    yaml sequence [] 1 (and_more record_entry (and_more claim_entry (and_more link_entry no_more)))

abbrev file_tree : Yaml
file_tree = yaml mapping [] 1 (and_more entry_list no_more)

abbrev unchanged : Str → Str
unchanged s = s

abbrev parsed_record : Option (Node × List Edge) × List Remark
parsed_record = parse_node unchanged unchanged no_floats legal (lit "f") 1 1 record_entry

abbrev node_of : Option (Node × List Edge) → Node
node_of none = new_node [] 0
node_of (some p) = p.0

abbrev edges_of : Option (Node × List Edge) → List Edge
edges_of none = []
edges_of (some p) = p.1

parse_node-IsParsed_example :
    IsNamed (node_of parsed_record.0)
    × ((e : Edge) → In e (edges_of parsed_record.0) → IsStored unchanged e)
    × (Faulted parsed_record.1
        ⊎ ((e : Edge) → In e (edges_of parsed_record.0) → IsOn (node_of parsed_record.0) e))
unfolding parse_node kgraph.Base.find_key kgraph.Model.body_keys str_eq legal
    kgraph.Model.inverse_edge kgraph.Base.has kgraph.Model.forward_edge kgraph.Base.put_key
parse_node-IsParsed_example =
    parse_node-IsParsed unchanged unchanged no_floats legal (lit "f") 1 1 record_entry
      (node_of parsed_record.0) (edges_of parsed_record.0) parsed_record.1 refl

parse_entries-IsFiled_example :
    let doc =
      (parse_entries (λ s. some file_tree) unchanged unchanged no_floats legal (lit "f") []).0 in
    IsFiled unchanged doc.nodes doc.edges
parse_entries-IsFiled_example =
    parse_entries-IsFiled (λ s. some file_tree) unchanged unchanged no_floats legal (lit "f") []

parse_entries-lossless_example :
    let (doc, rs) =
      parse_entries (λ s. some file_tree) unchanged unchanged no_floats legal (lit "f") [] in
    Accounted unchanged unchanged no_floats legal (lit "f") 5 claim_entry doc.nodes doc.edges rs
unfolding kgraph.Facts.items_of kgraph.Facts.line_at
parse_entries-lossless_example =
    parse_entries-lossless unchanged unchanged no_floats legal (lit "f") (λ s. some file_tree) []
      file_tree entry_list claim_entry [] refl refl (inr (inl refl))

abbrev named_draft : Draft
named_draft = record (first_draft (lit "f") 1) {
  node = record (new_node (lit "f") 1) { id = lit "c1" };
}

read_key-Agrees_example :
    Agrees unchanged no_floats legal
      (lit "f")
      1
      2
      (word_at 2 (lit "undercut_by"))
      (word_at 2 (lit "c2"))
      (lit "c1")
      (lit "c2")
      named_draft
unfolding text_at kgraph.Facts.shape_of kgraph.Facts.id_at kgraph.Base.trim_space
    kgraph.Base.has_prefix kgraph.Base.find_key kgraph.Model.body_keys str_eq kgraph.Dialect.edge_of
    legal
read_key-Agrees_example =
    read_key-Agrees unchanged no_floats legal (lit "f") 1 2 (word_at 2 (lit "undercut_by"))
      (word_at 2 (lit "c2")) (lit "c1") (lit "c2") named_draft refl refl refl refl refl refl refl
      refl (λ n. refl)

abbrev bare_node : Node
bare_node = new_node (lit "f") 1

assign_scalar-same_as_example :
    ((assign_scalar no_floats legal
        (assign_scalar no_floats legal bare_node (lit "id") (word_at 1 (lit "c1"))).0
        (lit "same_as")
        (word_at 1 (lit "c1"))).1
      ≡ some self_same_as)
    × (let (m, c) =
          assign_scalar no_floats legal bare_node (lit "same_as") (word_at 1 (lit "c1")) in
        let (l, d) = assign_scalar no_floats legal m (lit "id") (word_at 1 (lit "c1")) in
        (c ≡ none) × (d ≡ none) × (l.same_as ≡ l.id))
unfolding new_node text_at
assign_scalar-same_as_example =
    assign_scalar-same_as no_floats legal bare_node (word_at 1 (lit "c1")) refl refl

-- The list is read without a remark.
read_list :
    (parse_entries (λ s. some file_tree) unchanged unchanged no_floats legal (lit "f") []).1 ≡ []
unfolding parse_entries kgraph.Base.split_lines kgraph.Base.trim_space kgraph.Base.any
    kgraph.Base.has kgraph.Model.body_keys str_eq kgraph.Base.find_key kgraph.Model.forward_edge
    legal kgraph.Model.inverse_edge kgraph.Base.put_key kgraph.Model.kind_eq
read_list = refl
