-- ===== src/Induced.antt =====
-- Induced of conflict.go: the nodes around a result, found round by round. The nodes that are shown are
-- ids here, and `keep` is the list of the ids in the map of that name.
pub mod Bounded
use kgraph.Base.{
  Str, ℕ, zero, suc, Bool, true, false, not, ◌&&◌, ◌||◌, if◌then◌else◌, List, [], ◌∷◌, ◌++◌, length,
  has, str_eq, ltb, leb, sort_strings,
}
use kgraph.Model.{Edge, type_eq}
use kgraph.Graph.{Graph, has_node}
use kgraph.Values.{Signed, up, down}

-- The nodes that are kept, and those that the next round starts from.
pub record Reached : Type 0 where
  pub kept : List Str
  pub next : List Str

-- depth, and limit with its default.
unfoldable pub depth_of : Signed → ℕ
depth_of (up n) = n
depth_of (down n) = 0

unfoldable pub limit_of : Signed → ℕ
limit_of (up zero) = 250
limit_of (up (suc n)) = suc n
limit_of (down n) = 250

module _ (g : Graph) where
  -- The body of the first loop: an id that is a node.
  unfoldable pub add_match : Str → Reached → Reached
  unfolding has_node
  add_match id st =
      if has_node g id
      then record {
        kept = if has st.kept id then st.kept else id ∷ st.kept;
        next = st.next ++ (id ∷ []);
      }
      else st

  unfoldable pub start_from : List Str → Reached → Reached
  unfolding add_match
  start_from [] st = st
  start_from (id ∷ ids) st = start_from ids (add_match id st)

  -- One end of an edge at the node `id`.
  unfoldable pub add_side : ℕ → Str → Str → Reached → Reached
  unfolding has_node
  add_side limit id side st =
      if str_eq side id || has st.kept side || not (has_node g side) || leb limit (length st.kept)
      then st
      else record { kept = side ∷ st.kept; next = st.next ++ (side ∷ []) }

  unfoldable pub add_edges : ℕ → Str → List Edge → Reached → Reached
  unfolding add_side
  add_edges limit id [] st = st
  add_edges limit id (e ∷ es) st =
      add_edges limit id es (add_side limit id e.dst (add_side limit id e.src st))

  unfoldable pub add_frontier : ℕ → List Str → Reached → Reached
  unfolding add_edges
  add_frontier limit [] st = st
  add_frontier limit (id ∷ ids) st = add_frontier limit ids (add_edges limit id (g.incident id) st)

  -- The rounds; a round starts from what the one before it reached.
  unfoldable pub rounds : ℕ → ℕ → Reached → List Str
  unfolding add_frontier
  rounds limit zero st = st.kept
  rounds limit (suc depth) st =
      let later =
        rounds limit depth (add_frontier limit st.next (record { kept = st.kept; next = [] })) in
      if ltb (length st.kept) limit then later else st.kept

  unfoldable pub induced_ids : List Str → Signed → Signed → List Str
  unfolding rounds start_from depth_of limit_of
  induced_ids ids depth limit =
      rounds (limit_of limit) (depth_of depth) (start_from ids (record { kept = []; next = [] }))

  unfoldable pub is_truncated : List Str → Signed → Signed → Bool
  unfolding induced_ids limit_of
  is_truncated ids depth limit = leb (limit_of limit) (length (induced_ids ids depth limit))

  -- The edges between kept nodes, each relation once.
  unfoldable pub induced_edges : List Str → List Edge → List Edge → List Edge
  induced_edges kept seen [] = []
  induced_edges kept seen (e ∷ es) =
      let taken = induced_edges kept (e ∷ seen) es in
      let passed = induced_edges kept seen es in
      if has kept e.src && has kept e.dst && not (was_seen seen e) then e ∷ taken else passed
    where
      was_seen : List Edge → Edge → Bool
      was_seen [] e = false
      was_seen (d ∷ ds) e =
          (str_eq d.src e.src && str_eq d.dst e.dst && type_eq d.type e.type) || was_seen ds e
