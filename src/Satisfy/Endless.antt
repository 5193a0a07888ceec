-- ===== src/Satisfy/Endless.antt =====
-- A group whose member is scoped to the group itself: the question whether it is satisfied has no
-- answer, since the branch of an edge is asked about with nothing seen.
use kgraph.Base.{
  Str, ℕ, zero, suc, ◌≡◌, refl, inl, inr, Bool, true, false, not, ◌&&◌, if◌then◌else◌, Option, none,
  some, List, [], ◌∷◌, In, is_empty, has, ◌>>=◌, str_eq, subst,
}
use kgraph.Model.{Node, Edge, group, kind_eq, member_of, type_eq}
use kgraph.Time.{Floats, valid_at, compare, is_before, is_after}
use kgraph.Graph.{Graph, node_at}
use kgraph.Satisfy.{
  Answer, edge_live, live_members, members_at, group_stat, node_satisfied, satisfied_step,
  satisfied,
}

module _ (fl : Floats) (g : Graph) (at id : Str) where
  -- The group holds at the date but for its members, and one of them is a member for as long as
  -- the group is satisfied.
  pub record ScopedToItself (n : Node) (e : Edge) : Type 0 where
    pub here : node_at g id ≡ some n
    pub dated : is_empty at ≡ false
    pub in_window : valid_at fl n at ≡ true
    pub unscoped : is_empty n.while_node ≡ true
    pub is_group : kind_eq n.kind group ≡ true
    pub listed : In e (g.incident id)
    pub is_membership : (type_eq e.type member_of && str_eq e.dst id) ≡ true
    pub started : (not (is_empty e.valid_from) && is_before (compare fl at e.valid_from)) ≡ false
    pub not_over : (not (is_empty e.valid_until) && is_after (compare fl at e.valid_until)) ≡ false
    pub scoped : e.while_node ≡ id
    pub named : is_empty id ≡ false

  live_members-none :
      (sat : Str → Answer) (e : Edge) (es : List Edge)
      → In e es
      → (type_eq e.type member_of && str_eq e.dst id) ≡ true
      → edge_live fl g sat at e ≡ none
      → live_members fl g sat id at es ≡ none
  unfolding live_members
  live_members-none sat e [] i t l = absurd i
  live_members-none sat e (a ∷ es) (inl q) t l = rw (
    subst (λ (x : Edge). (type_eq x.type member_of && str_eq x.dst id) ≡ true) q t,
    subst (λ x. edge_live fl g sat at x ≡ none) q l,
    live_members,
  )
  live_members-none sat e (a ∷ es) (inr i) t l =
      let rest = live_members-none sat e es i t l in
      drop_first (type_eq a.type member_of && str_eq a.dst id) (edge_live fl g sat at a) rest
    where
      drop_first :
          (b : Bool) (m : Answer) {r : Option (List Str)}
          → r ≡ none
          → (if b then (m >>= λ c. r >>= λ ms. some (if c then a.src ∷ ms else ms)) else r) ≡ none
      drop_first true none p = refl
      drop_first true (some c) p = rw p
      drop_first false m p = p

  edge_live-none :
      (sat : Str → Answer) (n : Node) (e : Edge)
      → ScopedToItself n e
      → sat id ≡ none
      → edge_live fl g sat at e ≡ none
  unfolding edge_live
  edge_live-none sat n e h p =
      rw (h.dated, h.started, h.not_over, h.scoped, edge_live) (rw (h.named, p))

  group_stat-none :
      (fresh sat : Str → Answer) (n : Node) (e : Edge)
      → ScopedToItself n e
      → fresh id ≡ none
      → group_stat fl g fresh sat id at ≡ none
  unfolding group_stat
  group_stat-none fresh sat n e h p = rw (
    h.here,
    live_members-none fresh e (g.incident id) h.listed h.is_membership
        (edge_live-none fresh n e h p),
    group_stat,
    members_at,
  )

  node_satisfied-none :
      (fresh sat : Str → Answer) (n : Node) (e : Edge)
      → ScopedToItself n e
      → fresh id ≡ none
      → node_satisfied fl g fresh sat at id n ≡ none
  unfolding node_satisfied
  node_satisfied-none fresh sat n e h p = rw (
    h.dated,
    h.in_window,
    h.unscoped,
    h.is_group,
    group_stat-none fresh sat n e h p,
    node_satisfied,
  )

  -- Take a date and a group of the graph that holds at it, in its window and with no while of its own,
  -- and a membership edge of that group that is in its window too and is scoped to the group itself.
  -- Then however deep the recursion of satisfied goes, it has not answered for the group.
  pub satisfied_endless :
      (n : Node) (e : Edge) (fuel : ℕ) → ScopedToItself n e → satisfied fl g fuel at [] id ≡ none
  unfolding satisfied has
  satisfied_endless n e zero h = refl
  satisfied_endless n e (suc fuel) h =
      rw (h.here, satisfied_step)
        (node_satisfied-none (satisfied fl g fuel at []) (satisfied fl g fuel at (id ∷ [])) n e h
          (satisfied_endless n e fuel h))
