-- ===== src/Satisfy.antt =====
-- Satisfaction, eval.go: `edgeLive`, `membersAt`, `groupStat` and `satisfied`. They call one another
-- without a bound, so `satisfied` takes fuel, and `none` means that the fuel ran out. Each function
-- below it takes the call that the source makes one level down as the argument `sat`.
pub mod Expr
pub mod Stat
pub mod Total
pub mod Endless
pub mod Asked
use kgraph.Base.{
  Str, ℕ, zero, suc, ◌+◌, Bool, true, false, not, ◌&&◌, if◌then◌else◌, Option, none, some, List, [],
  ◌∷◌, is_empty, has, str_eq, sort_strings, ◌>>=◌, ltb,
}
use kgraph.Model.{
  Node, Edge, Status, asserted, done, resolved, Kind, group, kind_eq, member_of, type_eq,
}
use kgraph.Time.{Floats, compare, is_before, is_after, valid_at}
use kgraph.Graph.{Graph, node_at}
use kgraph.Satisfy.Expr.{meets}

-- A question of satisfaction, or that the fuel ran out.
abbrev pub Answer : Type 0
Answer = Option Bool

pub record GroupStat : Type 0 where
  pub total : ℕ
  pub satisfied : ℕ
  pub blocking : List Str
  pub met : Bool

-- The statuses that hold.
unfoldable pub status_holds : Status → Bool
status_holds asserted = true
status_holds done = true
status_holds resolved = true
status_holds _ = false

unfoldable pub add_member : Str → Bool → GroupStat → GroupStat
add_member m true st = record st { total = st.total + 1; satisfied = st.satisfied + 1 }
add_member m false st = record st { total = st.total + 1; blocking = m ∷ st.blocking }

-- The loop over the members. The blocking ones are sorted afterwards.
unfoldable pub count_members : (Str → Answer) → List Str → Option GroupStat
unfolding add_member
count_members sat [] = some (record { total = 0; satisfied = 0; blocking = []; met = false })
count_members sat (m ∷ ms) =
    let rest = count_members sat ms in sat m >>= λ b. rest >>= λ st. some (add_member m b st)

module _ (fl : Floats) (g : Graph) where
  -- Whether the edge can be walked at a date. `sat` is g.Satisfied(·, at).
  unfoldable pub edge_live : (Str → Answer) → Str → Edge → Answer
  unfolding is_before is_after
  edge_live sat at e =
      if is_empty at
      then some true
      else if not (is_empty e.valid_from) && is_before (compare fl at e.valid_from)
      then some false
      else if not (is_empty e.valid_until) && is_after (compare fl at e.valid_until)
      then some false
      else if is_empty e.while_node
      then some true
      else sat e.while_node

  unfoldable pub live_members : (Str → Answer) → Str → Str → List Edge → Option (List Str)
  unfolding edge_live
  live_members sat id at [] = some []
  live_members sat id at (e ∷ es) =
      let rest = live_members sat id at es in
      if type_eq e.type member_of && str_eq e.dst id
      then (edge_live sat at e >>= λ b. rest >>= λ ms. some (if b then e.src ∷ ms else ms))
      else rest

  unfoldable pub members_at : (Str → Answer) → Str → Str → Option (List Str)
  unfolding live_members
  members_at sat id at = live_members sat id at (g.incident id) >>= λ ms. some (sort_strings ms)

  -- `sat` answers for a member, with the nodes seen so far; `fresh` answers for the branch of an
  -- edge, where the source starts with nothing seen.
  unfoldable pub group_stat : (Str → Answer) → (Str → Answer) → Str → Str → Option GroupStat
  unfolding members_at count_members
  group_stat fresh sat id at = elim (node_at g id) [
    | none ↦ some (record { total = 0; satisfied = 0; blocking = []; met = false })
    | some n ↦ members_at fresh id at >>= λ ms. count_members sat ms >>= λ st. some (record st {
      blocking = sort_strings st.blocking;
      met = meets n.group_expr st.total st.satisfied;
    })
  ]

  -- A node that is not seen yet: its window, its branch, and its members or its status.
  unfoldable pub node_satisfied : (Str → Answer) → (Str → Answer) → Str → Str → Node → Answer
  unfolding group_stat status_holds
  node_satisfied fresh sat at id n =
      if not (is_empty at) && not (valid_at fl n at)
      then some false
      else ((if is_empty n.while_node then some true else sat n.while_node) >>= λ in_branch.
          if not in_branch
          then some false
          else if kind_eq n.kind group
          then (group_stat fresh sat id at >>= λ st. some st.met)
          else some (status_holds n.status))

  -- The body of `satisfied`. `sat` is the call one level down.
  unfoldable pub satisfied_step : (List Str → Str → Answer) → Str → List Str → Str → Answer
  unfolding node_satisfied
  satisfied_step sat at seen id = elim (node_at g id) [
    | none ↦ some false
    | some n ↦ if has seen id then some false else node_satisfied (sat []) (sat (id ∷ seen)) at id n
  ]

  unfoldable pub satisfied : ℕ → Str → List Str → Str → Answer
  unfolding satisfied_step
  satisfied zero at seen id = none
  satisfied (suc fuel) at seen id = satisfied_step (satisfied fuel at) at seen id
