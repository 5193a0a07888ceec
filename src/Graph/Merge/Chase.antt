-- ===== src/Graph/Merge/Chase.antt =====
-- The chains of `same_as`: the loop of merge ends, and its survivors are not folded themselves.
use kgraph.Base.{
  find_key, Str, ℕ, zero, suc, ◌<◌, ◌≡◌, ◌≢◌, true, none, some, List, ◌∷◌, arith, has, is_empty,
  length, Bool-cases, Option-cases, inl, inr,
}
use kgraph.Graph.{Nodes}
use kgraph.Graph.Unseen.{unseen, unseen-cons-lt, unseen-le-length}
use kgraph.Graph.Merge.{End, survivor, cycle, out_of_fuel, unknown, chase}

chase-ends :
    (fuel : ℕ) (ns : Nodes) (seen : List Str) (cur : Str)
    → unseen ns seen < fuel
    → chase fuel ns seen cur ≢ out_of_fuel
unfolding chase
chase-ends zero ns seen cur h = absurd (omega arith)
chase-ends (suc fuel) ns seen cur h = elim (Bool-cases (has seen cur)) [
  | inl c ↦ rw (c, chase) (λ e. cc)
  | inr c ↦ elim (Option-cases (find_key ns cur)) [
    | inl p ↦ rw (c, p, chase) (λ e. cc)
    | inr (n, p) ↦ elim (Bool-cases (is_empty n.same_as)) [
      | inl q ↦ rw (c, p, q, chase) (λ e. cc)
      | inr q ↦
          rw (c, p, q, chase)
            (chase-ends fuel ns (cur ∷ seen) n.same_as
              (omega (arith, unseen-cons-lt ns seen cur n p c)))
    ]
  ]
]

-- The loop over a chain ends: one round more than there are nodes is enough.
pub chase_terminates :
    (ns : Nodes) (seen : List Str) (cur : Str) → chase (suc (length ns)) ns seen cur ≢ out_of_fuel
chase_terminates ns seen cur =
    chase-ends (suc (length ns)) ns seen cur (omega (arith, unseen-le-length ns seen))

-- A survivor is a node of the graph that names no other.
abbrev pub IsEnd : Nodes → End → Type 0
IsEnd ns (survivor to n) = (find_key ns to ≡ some n) × (is_empty n.same_as ≡ true)
IsEnd ns cycle = Unit
IsEnd ns out_of_fuel = Unit
IsEnd ns (unknown cur) = find_key ns cur ≡ none

pub chase-IsEnd :
    (fuel : ℕ) (ns : Nodes) (seen : List Str) (cur : Str) → IsEnd ns (chase fuel ns seen cur)
unfolding chase
chase-IsEnd zero ns seen cur = tt
chase-IsEnd (suc fuel) ns seen cur = elim (Bool-cases (has seen cur)) [
  | inl c ↦ rw (c, chase) tt
  | inr c ↦ elim (Option-cases (find_key ns cur)) [
    | inl p ↦ rw (c, p, chase) p
    | inr (m, p) ↦ elim (Bool-cases (is_empty m.same_as)) [
      | inl q ↦ rw (c, p, q, chase) (p, q)
      | inr q ↦ rw (c, p, q, chase) (chase-IsEnd fuel ns (cur ∷ seen) m.same_as)
    ]
  ]
]
