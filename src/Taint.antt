-- ===== src/Taint.antt =====
-- taint.go: the open questions that a fact rests on. Here the answers of edgeLive at the date are
-- given, as `live`; Taint.Asked is the same code with edgeLive asked at each edge, which may not answer.
pub mod Visit
pub mod Exact
pub mod Asked
use kgraph.Base.{
  Str, ℕ, zero, suc, Bool, true, false, not, ◌&&◌, if◌then◌else◌, Option, none, some, List, [], ◌∷◌,
  ◌++◌, has, str_eq, sort_strings, is_empty, length, ◌>>=◌,
}
use kgraph.Model.{
  Node, Edge, Status, still_open, status_eq, Kind, question, group, kind_eq, requires, member_of,
  type_eq,
}
use kgraph.Graph.{Graph, node_at}

-- The two maps that the recursion shares.
pub record State : Type 0 where
  pub seen : List Str
  pub holes : List Str

unfoldable pub open_question : Node → Bool
open_question n = kind_eq n.kind question && status_eq n.status still_open

unfoldable pub see : Str → State → State
see id st = record st { seen = id ∷ st.seen }

-- The calls of one body, in their order, on the shared maps.
unfoldable pub visit_all : (Str → State → Option State) → List Str → State → Option State
visit_all visit [] st = some st
visit_all visit (d ∷ ds) st = visit d st >>= λ st'. visit_all visit ds st'

module _ (live : Edge → Bool) (g : Graph) where
  unfoldable pub required : Str → List Edge → List Str
  required id [] = []
  required id (e ∷ es) =
      let rest = required id es in
      if str_eq e.src id && live e && type_eq e.type requires then e.dst ∷ rest else rest

  unfoldable pub member_srcs : Str → List Edge → List Str
  member_srcs id [] = []
  member_srcs id (e ∷ es) =
      let rest = member_srcs id es in
      if type_eq e.type member_of && str_eq e.dst id && live e then e.src ∷ rest else rest

  -- membersAt, with the liveness of the edges at hand.
  unfoldable pub members : Str → List Str
  unfolding member_srcs
  members id = sort_strings (member_srcs id (g.incident id))

  -- What a node rests on: what it requires, the members of a group, and its branch.
  unfoldable pub rests_on : Str → Node → List Str
  unfolding required members
  rests_on id n =
      required id (g.incident id)
      ++ ((if kind_eq n.kind group then members id else [])
          ++ (if is_empty n.while_node then [] else n.while_node ∷ []))

  unfoldable pub taint : ℕ → Str → State → Option State
  unfolding open_question see visit_all rests_on
  taint zero id st = none
  taint (suc fuel) id st = if has st.seen id then some st else elim (node_at g id) [
    | none ↦ some (see id st)
    | some n ↦
        if open_question n
        then some (record { seen = id ∷ st.seen; holes = id ∷ st.holes })
        else visit_all (taint fuel) (rests_on id n) (see id st)
  ]

  -- g.Taint(id, at), with the fuel that is always enough.
  unfoldable pub taint_of : Str → Option (List Str)
  unfolding taint
  taint_of id = taint (suc (length g.nodes)) id (record { seen = []; holes = [] }) >>= λ st.
      some (sort_strings st.holes)

  -- g.TaintedSet(ids, at): the holes of all, each once.
  unfoldable pub add_new : List Str → List Str → List Str
  add_new acc [] = acc
  add_new acc (q ∷ qs) = add_new (if has acc q then acc else q ∷ acc) qs

  unfoldable pub tainted_from : List Str → List Str → Option (List Str)
  unfolding add_new taint_of
  tainted_from holes [] = some holes
  tainted_from holes (id ∷ ids) = taint_of id >>= λ qs. tainted_from (add_new holes qs) ids

  unfoldable pub tainted_set : List Str → Option (List Str)
  unfolding tainted_from
  tainted_set ids = tainted_from [] ids >>= λ holes. some (sort_strings holes)
