-- ===== src/Graph/Resolve.antt =====
-- ResolveRef of graph.go: what a reference in a query denotes.
use kgraph.Base.{
  find_key, Str, ◌≡◌, none, some, List, [], ◌∷◌, arith, keep, IsSorted, IsSorted-sort_strings,
  in-sort_strings, SameMembers, length, ◌≤◌, sort_strings, map, Option-cases, inl, inr,
}
use kgraph.Model.{Node}
use kgraph.Time.{Floats, holds}
use kgraph.Graph.{Graph, AliasBinding, node_at, lookup}

-- The id, or the nodes that an ambiguous name denotes.
pub data Resolved : Type 0 where
  node : Str → Resolved
  ambiguous : List Str → Resolved

module _ (fl : Floats) (g : Graph) where
  -- The bindings of the name that are in force.
  unfoldable pub in_force : Str → Str → List AliasBinding
  in_force ref at = keep (λ b. holds fl b.alias at) (g.aliases ref)

  unfoldable pub pick : Str → List AliasBinding → Resolved
  pick ref [] = node ref
  pick ref (b ∷ []) = node b.node
  pick ref (b ∷ c ∷ rest) = ambiguous (sort_strings (map (λ h. h.node) (b ∷ c ∷ rest)))

  unfoldable pub resolve_ref : Str → Str → Resolved
  unfolding in_force pick
  resolve_ref ref at = elim (node_at g ref) [
    | some _ ↦ node ref
    | none ↦ elim (find_key g.retired ref) [ some to ↦ node to | none ↦ pick ref (in_force ref at) ]
  ]

  -- A literal id and a merged id are found by the query as by Lookup, whatever aliases there are.
  pub resolve_ref-lookup :
      (ref at : Str) (n : Node)
      → lookup g ref ≡ some n
      → (id : Str) × (resolve_ref ref at ≡ node id) × (node_at g id ≡ some n)
  unfolding resolve_ref lookup
  resolve_ref-lookup ref at n h = elim (Option-cases (find_key g.nodes ref)) [
    | inr (m, p) ↦ (ref, rw (p, resolve_ref), ground arith)
    | inl p ↦ elim (Option-cases (find_key g.retired ref)) [
      | inr (to, q) ↦ (to, rw (p, q, resolve_ref), ground arith)
      | inl q ↦ cc (rw (p, q, lookup) at h)
    ]
  ]

  pick-ambiguous :
      (ref : Str) (hits : List AliasBinding) (who : List Str)
      → pick ref hits ≡ ambiguous who
      → (2 ≤ length hits) × (who ≡ sort_strings (map (λ b. b.node) hits))
  unfolding pick
  pick-ambiguous ref [] who h = cc
  pick-ambiguous ref (b ∷ []) who h = cc
  pick-ambiguous ref (b ∷ c ∷ rest) who h = (omega arith, cc)

  -- A reference is refused as ambiguous only where it is no id, living or merged, and two bindings
  -- are in force; the nodes that the message names are those of the bindings in force, sorted.
  pub resolve_ref-ambiguous :
      (ref at : Str) (who : List Str)
      → resolve_ref ref at ≡ ambiguous who
      → (lookup g ref ≡ none)
        × (2 ≤ length (in_force ref at))
        × IsSorted who
        × SameMembers who (map (λ b. b.node) (in_force ref at))
  unfolding resolve_ref lookup
  resolve_ref-ambiguous ref at who h = elim (Option-cases (find_key g.nodes ref)) [
    | inr (m, p) ↦ cc (rw (p, resolve_ref) at h)
    | inl p ↦ elim (Option-cases (find_key g.retired ref)) [
      | inr (to, q) ↦ cc (rw (p, q, resolve_ref) at h)
      | inl q ↦
          let (two, e) = pick-ambiguous ref (in_force ref at) who (rw (p, q, resolve_ref) at h) in
          let nodes = map (λ (b : AliasBinding). b.node) (in_force ref at) in
          (
            rw (p, q, lookup),
            two,
            rw e (IsSorted-sort_strings nodes),
            rw e (λ a. in-sort_strings a nodes),
          )
    ]
  ]
