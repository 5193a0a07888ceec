-- ===== src/Tests/Plain.antt =====
-- A date at which no membership of the sample corpus is scoped to a branch.
use kgraph.Base.{
  Str, lit, ◌≡◌, refl, true, false, not, List, In, any, any_iff, is_empty, inr, Bool, Bool-cases,
  inl,
}
use kgraph.Model.{Edge}
use kgraph.Graph.Build.{build}
use kgraph.Graph.Build.WellFormed.{build-IsWellFormed}
use kgraph.Satisfy.Total.{Unconditional}
use kgraph.Tests.Samples.{no_floats, documents}

abbrev pub today : Str
today = lit "2026-01-01"

abbrev scoped : Edge → Bool
scoped e = not (is_empty e.while_node)

none_scoped : any scoped (build documents).edges ≡ false
unfolding build kgraph.Base.find_key kgraph.Base.str_eq kgraph.Model.kind_eq any kgraph.Base.has
    kgraph.Model.type_eq
none_scoped = refl

pub documents-Unconditional : (at : Str) → Unconditional no_floats (build documents) at
documents-Unconditional at = inr (λ id e i t. elim (Bool-cases (is_empty e.while_node)) [
  | inl p ↦ p
  | inr p ↦ cc (
    none_scoped,
    (any_iff scoped (build documents).edges).1
        (e, (((build-IsWellFormed documents).lists id e).0 i).0, rw p),
  )
])
