-- ===== src/Tests/Facts.antt =====
-- What the evaluator says of the sample corpus.
use kgraph.Base.{
  Str, lit, ℕ, suc, ◌≡◌, refl, Bool, true, false, Option, none, some, List, [], ◌∷◌, inl, inr, ◌⊎◌,
  arith, In, length, keep, ◌<◌, ◌≢◌, IsSorted, NoRepeat, ◌↔◌,
}
use kgraph.Model.{Edge, Node, requires, source, kind_eq, member_of, group, claim, asserted, Status}
use kgraph.Graph.{Graph, node_at}
use kgraph.Graph.Unseen.{unseen-le-length}
use kgraph.Graph.Build.{build}
use kgraph.Graph.Build.WellFormed.{build-IsWellFormed}
use kgraph.Satisfy.{Answer, GroupStat, satisfied, group_stat, members_at}
use kgraph.Satisfy.Expr.{meets}
use kgraph.Satisfy.Total.{satisfied_total, Answers}
use kgraph.Satisfy.Stat.{Counts, group_stat-Counts}
use kgraph.Satisfy.Endless.{satisfied_endless}
use kgraph.Closure.{Hop, forward}
use kgraph.Closure.Reach.{Walk}
use kgraph.Closure.Asked.{ask_targets, ask_targets_exact}
use kgraph.Satisfy.Asked.{live_to, is_live, edges_answered}
use kgraph.Tests.Plain.{today, documents-Unconditional}
use kgraph.Taint.Visit.{Rests, is_hole}
use kgraph.Taint.Asked.{ask_taint_of, ask_taint_exact}
use kgraph.Tension.{Side, Impeachment, conflict, speaks_for, impeachment}
use kgraph.Tension.Impeached.{impeachment-IsOutranked, IsOutranked}
use kgraph.Tension.Disputed.{conflict_exact, speaks_against}
use kgraph.Highwater.{
  check_high_water, write_all, never_recorded, collapsed, shrank, check-write_all,
}
use kgraph.Tests.Samples.{no_floats, matter, facts, documents, touching, belongs, node_of}

abbrev every_edge : Edge → Bool
every_edge _ = true

abbrev live_today : Edge → Bool
live_today = is_live no_floats (build documents) (suc (length (build documents).nodes)) today

satisfied_total_example : Answers (satisfied no_floats matter 7 [] [] (lit "g"))
satisfied_total_example =
    satisfied_total no_floats matter [] 7 [] (lit "g") (inl refl)
      (omega (arith, unseen-le-length facts []))

ask_taint_exact_example :
    (qs : List Str) × (ask_taint_of
        (live_to no_floats (build documents) (suc (length (build documents).nodes)) today)
        (build documents)
        (lit "c1")
      ≡ some qs)
    × IsSorted qs
    × ((q : Str)
        → (In q qs
            → (is_hole (live_today) (build documents) q ≡ true)
              × Rests live_today (build documents) q (lit "c1"))
          × (is_hole live_today (build documents) q ≡ true
              → Rests live_today (build documents) q (lit "c1")
              → In q qs))
ask_taint_exact_example =
    ask_taint_exact no_floats (build documents) (suc (length (build documents).nodes)) today
      (lit "c1") (edges_answered no_floats (build documents) today (documents-Unconditional today))

abbrev requirements : Hop
requirements = record { type = requires; dir = forward; star = true }

ask_targets_exact_example :
    (rounds : ℕ) × (res : List Str) × (ask_targets
        (live_to no_floats (build documents) (suc (length (build documents).nodes)) today)
        (build documents)
        rounds
        (lit "c2")
        requirements
      ≡ some res)
    × NoRepeat res
    × ((to : Str)
        → (In to res → Walk live_today (build documents) requirements (lit "c2") to)
          × (Walk live_today (build documents) requirements (lit "c2") to → In to res))
ask_targets_exact_example =
    ask_targets_exact no_floats (build documents) (suc (length (build documents).nodes)) today
      requirements (lit "c2") (build-IsWellFormed documents)
      (edges_answered no_floats (build documents) today (documents-Unconditional today)) refl

abbrev holds_all : Str → Answer
holds_all _ = some true

abbrev tally : GroupStat
tally = record { total = 1; satisfied = 1; blocking = []; met = true }

abbrev the_group : Node
the_group = node_of (lit "g") group Status.unset none

group_stat-Counts_example :
    (ms : List Str) × (members_at no_floats matter holds_all (lit "g") [] ≡ some ms)
    × Counts holds_all ms tally
    × IsSorted []
    × (true ≡ meets (lit "all") 1 1)
unfolding group_stat node_at kgraph.Base.find_key kgraph.Base.str_eq kgraph.Model.type_eq
    kgraph.Base.sort_strings kgraph.Base.sort_by kgraph.Base.insert meets
group_stat-Counts_example =
    group_stat-Counts no_floats matter holds_all holds_all (lit "g") [] the_group tally refl refl

abbrev claim_one : Node
claim_one = node_of (lit "c1") claim asserted none

abbrev impeached_wren : Impeachment
impeached_wren = record {
  speaker = lit "wren";
  by = lit "c2" ∷ [];
  class = lit "interested";
  beat = lit "record";
}

conflict_exact_example :
    ((f a : Side)
      → conflict no_floats every_edge matter (lit "c1") ≡ some (f, a)
      → (f.count
          ≡ length (keep (speaks_for no_floats every_edge matter (lit "c1")) (touching (lit "c1"))))
        × (a.count
            ≡ length (
                keep
                  (speaks_against no_floats every_edge matter (lit "c1") claim_one)
                  (touching (lit "c1"))))
        × (0 < f.count)
        × (0 < a.count))
    × (0 < length (keep (speaks_for no_floats every_edge matter (lit "c1")) (touching (lit "c1")))
        → 0
          < length (
              keep
                (speaks_against no_floats every_edge matter (lit "c1") claim_one)
                (touching (lit "c1")))
        → (sides : Side × Side) × (conflict no_floats every_edge matter (lit "c1") ≡ some sides))
unfolding node_at kind_eq kgraph.Base.find_key kgraph.Base.str_eq
conflict_exact_example = conflict_exact no_floats every_edge matter (lit "c1") claim_one refl refl

impeachment-IsOutranked_example : IsOutranked no_floats every_edge matter (lit "c1") impeached_wren
unfolding impeachment node_at kgraph.Base.find_key kgraph.Base.str_eq kind_eq kgraph.Model.type_eq
    kgraph.Dialect.rank_of kgraph.Dialect.legal kgraph.Model.status_eq kgraph.Base.any
    kgraph.Time.windows_overlap kgraph.Base.sort_strings kgraph.Base.sort_by kgraph.Base.insert
impeachment-IsOutranked_example =
    impeachment-IsOutranked no_floats every_edge matter (lit "c1") impeached_wren refl

-- A group whose only membership holds while the group is satisfied.
abbrev circular : Edge
circular = record belongs { while_node = lit "g" }

abbrev endless : Graph
endless = record {
  nodes = facts;
  edges = circular ∷ [];
  incident = λ _. circular ∷ [];
  aliases = λ _. [];
  retired = [];
}

abbrev day : Str
day = lit "2026-07-01"

satisfied_endless_example : satisfied no_floats endless 1000 day [] (lit "g") ≡ none
unfolding node_at kind_eq kgraph.Base.find_key kgraph.Base.str_eq kgraph.Time.valid_at
    kgraph.Model.type_eq
satisfied_endless_example =
    satisfied_endless no_floats endless day (lit "g") the_group circular 1000 (record {
      here = refl;
      dated = refl;
      in_window = refl;
      unscoped = refl;
      is_group = refl;
      listed = inl refl;
      is_membership = refl;
      started = refl;
      not_over = refl;
      scoped = refl;
      named = refl;
    })

abbrev empty : Graph
empty = record { nodes = []; edges = []; incident = λ _. []; aliases = λ _. []; retired = [] }

check-write_all_example :
    ((length empty.nodes ≡ 0)
      → check_high_water (write_all never_recorded ((matter, day) ∷ [])) empty ≡ collapsed)
    × ((length empty.nodes ≢ 0)
        → check_high_water (write_all never_recorded ((matter, day) ∷ [])) empty ≡ shrank)
check-write_all_example =
    check-write_all never_recorded ((matter, day) ∷ []) matter empty day (inl refl) (omega arith)
