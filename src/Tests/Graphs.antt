-- ===== src/Tests/Graphs.antt =====
-- What the assembly of a graph does with the sample corpora.
use kgraph.Base.{
  Str, lit, ℕ, ◌+◌, ◌≡◌, ◌≢◌, refl, Bool, true, false, Option, none, some, List, [], ◌∷◌, inl, inr,
  arith, In, length, ◌↔◌, keys_of, IsMap, has, not_in-has, str_eq,
}
use kgraph.Model.{Doc, source, entity, Status, claim, asserted, Edge, Node}
use kgraph.Graph.Build.{build}
use kgraph.Graph.Build.WellFormed.{IsWellFormed, build-IsWellFormed}
use kgraph.Graph.Merge.{merge}
use kgraph.Graph.Merge.Edges.{edges-merge-live}
use kgraph.Graph.Refs.{check_refs, node_field, by_ref}
use kgraph.Graph.Build.Stale.{check_refs-retired_speaker}
use kgraph.Graph.{lookup}
use kgraph.Graph.Build.Found.{lookup-build}
use kgraph.Tests.Samples.{said, node_of, document, documents, twins, twin_edges, needs_answer}

build-IsWellFormed_example : IsWellFormed (build documents)
build-IsWellFormed_example = build-IsWellFormed documents

twins-IsMap : IsMap twins
unfolding has str_eq
twins-IsMap = (
  not_in-has (lit "b" ∷ lit "q" ∷ []) (lit "a") refl,
  (not_in-has (lit "q" ∷ []) (lit "b") refl, (not_in-has [] (lit "q") refl, tt)),
)

abbrev moved : Edge
moved = record needs_answer { src = lit "b" }

edges-merge-live_example :
    (¬ In (lit "b") (keys_of (merge twins twin_edges).retired))
    × (¬ In (lit "q") (keys_of (merge twins twin_edges).retired))
unfolding merge has str_eq kgraph.Base.find_key kgraph.Model.kind_eq
edges-merge-live_example = edges-merge-live twins twin_edges moved twins-IsMap (inl refl)

abbrev folded_claim : Node
folded_claim = record (node_of (lit "c1") claim asserted none) { same_as = lit "c2" }

lookup-build_example : (m : Node) × (lookup (build documents) (lit "c1") ≡ some m)
lookup-build_example = lookup-build documents document folded_claim (inl refl) (inl refl)

-- An entity that was folded away, and what it said.
abbrev statement : Node
statement = node_of (lit "s1") source Status.unset (some (said (lit "interested") (lit "wren")))

abbrev folded_speaker : List Doc
folded_speaker =
    record {
      path = lit "b.kfacts.md";
      nodes =
          record (node_of (lit "wren") entity Status.unset none) { same_as = lit "j-wren" }
          ∷ node_of (lit "j-wren") entity Status.unset none
          ∷ statement
          ∷ [];
      edges = [];
    }
    ∷ []

check_refs-retired_speaker_example :
    In (node_field (lit "s1") by_ref (lit "wren")) (check_refs (build folded_speaker))
unfolding build kgraph.Base.find_key str_eq has kgraph.Model.kind_eq
check_refs-retired_speaker_example =
    check_refs-retired_speaker folded_speaker (lit "s1") statement
      (said (lit "interested") (lit "wren")) (inr (inr (inl refl))) refl refl (inl refl)
      (not_in-has (lit "wren" ∷ []) (lit "s1") refl)
