-- ===== src/Closure.antt =====
-- hopTargets, eval.go: one hop of a query, or its transitive closure by a queue. Here the answers of
-- edgeLive at the query's date are given, as `live`; Closure.Asked is the same code with edgeLive
-- asked at each edge, which may not answer.
pub mod Reach
pub mod Ends
pub mod Asked
use kgraph.Base.{
  Str, ℕ, zero, suc, ◌+◌, Bool, true, false, not, ◌&&◌, if◌then◌else◌, Option, none, some, List, [],
  ◌∷◌, ◌++◌, has, str_eq, length,
}
use kgraph.Model.{Edge, EdgeType, type_eq}
use kgraph.Graph.{Graph, Nodes}

-- The directions 1, -1 and 0 of a hop.
pub data Direction : Type 0 where
  forward inverse undirected : Direction

pub record Hop : Type 0 where
  pub type : EdgeType
  pub dir : Direction
  pub star : Bool

-- The other end of an edge, if the hop may cross it from `id`.
unfoldable pub cross : Direction → Str → Edge → List Str
cross forward id e = if str_eq e.src id then e.dst ∷ [] else []
cross inverse id e = if str_eq e.dst id then e.src ∷ [] else []
cross undirected id e =
    if str_eq e.src id then e.dst ∷ [] else if str_eq e.dst id then e.src ∷ [] else []

module _ (live : Edge → Bool) (g : Graph) where
  unfoldable pub step_from : Hop → Str → List Edge → List Str
  unfolding cross
  step_from h id [] = []
  step_from h id (e ∷ es) =
      let rest = step_from h id es in
      if type_eq e.type h.type && live e then cross h.dir id e ++ rest else rest

  unfoldable pub step : Hop → Str → List Str
  unfolding step_from
  step h id = step_from h id (g.incident id)

  -- The loop over the queue. `out` holds what was seen, in order; `none` is the end of the fuel.
  unfoldable pub drain : ℕ → Hop → List Str → List Str → Option (List Str)
  unfolding step
  drain zero h out queue = elim queue [ [] ↦ some out | _ ∷ _ ↦ none ]
  drain (suc fuel) h out [] = some out
  drain (suc fuel) h out (id ∷ queue) = elim (has out id) [
    | true ↦ drain fuel h out queue
    | false ↦ drain fuel h (out ++ id ∷ []) (queue ++ step h id)
  ]

  -- The steps from each node of the list, counted.
  unfoldable pub all_steps : Hop → Nodes → ℕ
  all_steps h [] = 0
  all_steps h ((id, n) ∷ ns) = length (step h id) + all_steps h ns

  -- The fuel: every id is queued by a step from a node that is expanded once.
  unfoldable pub hop_targets : Str → Hop → Option (List Str)
  unfolding step drain all_steps
  hop_targets from h =
      if not h.star
      then some (step h from)
      else drain (length (step h from) + all_steps h g.nodes) h [] (step h from)
