-- ===== src/Tests/Samples.antt =====
-- A corpus of one question, two claims that conflict, their sources and a group, with the graph that
-- its relations make.
use kgraph.Base.{
  Str, lit, ℕ, ◌+◌, ◌*◌, ◌-◌, refl, false, Option, none, some, List, [], ◌∷◌, if◌then◌else◌, str_eq,
  ltb, arith,
}
use kgraph.Model.{
  Node, Edge, Source, Alias, Doc, Kind, claim, question, group, source, EdgeType, attests,
  contradicts, requires, member_of, Status, asserted, still_open, Needs, Precision,
}
use kgraph.Time.{Floats}
use kgraph.Graph.{Graph}

-- A parser of numbers of one or two digits.
abbrev pub digit : Str → Option ℕ
digit (c ∷ []) = some (c - 48)
digit (c ∷ d ∷ []) = some ((c - 48) * 10 + (d - 48))
digit _ = none

abbrev pub digits_only : Floats
digits_only = record {
  parse_float = digit;
  less = ltb;
  less_asymm = λ x y h. ground arith;
  less_trans = λ x y z h k. ground arith;
}

abbrev pub no_floats : Floats
no_floats = record {
  parse_float = λ _. none;
  less = λ _ _. false;
  less_asymm = λ _ _ _. refl;
  less_trans = λ _ _ _ h _. h;
}

abbrev pub node_of : Str → Kind → Status → Option Source → Node
node_of id kind status provenance = record {
  id = id;
  cid = [];
  kind = kind;
  body = id;
  status = status;
  owner = [];
  valid_from = [];
  valid_until = [];
  at = [];
  occ_from = [];
  occ_to = [];
  at_expr = [];
  precision = Precision.unset;
  while_node = [];
  value = 0;
  has_value = false;
  value_expr = [];
  unit = [];
  group_expr = lit "all";
  title = [];
  ordered = false;
  options = [];
  exhaustive = false;
  underdetermined = [];
  same_as = [];
  needs = Needs.unset;
  aliases = [];
  is = [];
  bag = [];
  reason = [];
  supersedes_reason = [];
  provenance = provenance;
  file = lit "a.kfacts.md";
  line = 1;
}

abbrev pub edge_from : Str → EdgeType → Str → Edge
edge_from src type dst = record {
  id = [];
  cid = [];
  src = src;
  dst = dst;
  type = type;
  valid_from = [];
  valid_until = [];
  while_node = [];
  file = lit "a.kfacts.md";
  line = 1;
  bag = [];
  because = [];
  one_way = false;
}

abbrev pub said : Str → Str → Source
said class speaker = record {
  form = lit "document";
  class = class;
  speaker = speaker;
  medium = [];
  recorded = false;
  doc_path = [];
  doc_hash = [];
  anchor = [];
  premises = [];
}

abbrev pub name_of : Str → Str → Str → Alias
name_of name starts until = record { name = name; starts = starts; until = until }

-- The facts: a survey that a record attests, and that a deed with the better source contradicts; the
-- survey requires an open question to be answered.
abbrev pub facts : List (Str × Node)
facts =
    (lit "c1", node_of (lit "c1") claim asserted none)
    ∷ (lit "c2", node_of (lit "c2") claim asserted none)
    ∷ (
      lit "s1",
      node_of (lit "s1") source Status.unset (some (said (lit "interested") (lit "wren"))),
    )
    ∷ (lit "s2", node_of (lit "s2") source Status.unset (some (said (lit "record") [])))
    ∷ (lit "q", node_of (lit "q") question still_open none)
    ∷ (lit "g", node_of (lit "g") group Status.unset none)
    ∷ []

abbrev pub attests_one : Edge
attests_one = edge_from (lit "s1") attests (lit "c1")

abbrev pub attests_two : Edge
attests_two = edge_from (lit "s2") attests (lit "c2")

abbrev pub conflicts : Edge
conflicts = edge_from (lit "c2") contradicts (lit "c1")

abbrev pub needs_answer : Edge
needs_answer = edge_from (lit "c1") requires (lit "q")

abbrev pub belongs : Edge
belongs = edge_from (lit "c1") member_of (lit "g")

abbrev pub relations : List Edge
relations = attests_one ∷ attests_two ∷ conflicts ∷ needs_answer ∷ belongs ∷ []

abbrev pub at_node_c1 : List Edge
at_node_c1 = attests_one ∷ conflicts ∷ needs_answer ∷ belongs ∷ []

-- The edges at an id.
abbrev pub touching : Str → List Edge
touching id =
    if str_eq id (lit "c1")
    then at_node_c1
    else if str_eq id (lit "c2")
    then attests_two ∷ conflicts ∷ []
    else if str_eq id (lit "g")
    then belongs ∷ []
    else []

abbrev pub matter : Graph
matter = record {
  nodes = facts;
  edges = relations;
  incident = touching;
  aliases = λ _. [];
  retired = [];
}

abbrev pub document : Doc
document = record {
  path = lit "a.kfacts.md";
  nodes =
      record (node_of (lit "c1") claim asserted none) { same_as = lit "c2" }
      ∷ node_of (lit "q") question still_open none
      ∷ node_of (lit "c2") claim asserted none
      ∷ node_of (lit "q") question still_open none
      ∷ [];
  edges = needs_answer ∷ needs_answer ∷ [];
}

abbrev pub documents : List Doc
documents = document ∷ []

-- A claim that a second one is folded into, and what the two relate to.
abbrev pub twins : List (Str × Node)
twins =
    (lit "a", record (node_of (lit "a") claim asserted none) { same_as = lit "b" })
    ∷ (lit "b", node_of (lit "b") claim asserted none)
    ∷ (lit "q", node_of (lit "q") question still_open none)
    ∷ []

abbrev pub twin_edges : List Edge
twin_edges =
    edge_from (lit "a") requires (lit "q")
    ∷ edge_from (lit "b") requires (lit "q")
    ∷ edge_from (lit "a") contradicts (lit "b")
    ∷ []
