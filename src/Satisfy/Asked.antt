-- ===== src/Satisfy/Asked.antt =====
-- edgeLive of eval.go with the recursion of Satisfied that it starts, followed to a depth.
use kgraph.Base.{
  Str, ℕ, suc, ◌≡◌, refl, Bool, true, false, none, some, [], arith, In, is_empty, length,
}
use kgraph.Model.{Edge}
use kgraph.Time.{Floats}
use kgraph.Graph.{Graph}
use kgraph.Graph.Unseen.{unseen-le-length}
use kgraph.Satisfy.{Answer, edge_live, satisfied}
use kgraph.Satisfy.Total.{Answers, Answers-if, Unconditional, satisfied_total}

module _ (fl : Floats) (g : Graph) (depth : ℕ) (at : Str) where
  -- g.edgeLive(e, at); `none` is a recursion that goes deeper.
  unfoldable pub live_to : Edge → Answer
  live_to e = edge_live fl g (satisfied fl g depth at []) at e

  -- The answer, where there is one.
  unfoldable pub is_live : Edge → Bool
  unfolding live_to
  is_live e = elim (live_to e) [ some b ↦ b | none ↦ false ]

  -- g.Satisfied(id, at), where there is an answer.
  unfoldable pub is_satisfied : Str → Bool
  is_satisfied id = elim (satisfied fl g depth at [] id) [ some b ↦ b | none ↦ false ]

  -- At this depth edgeLive answers for each edge of the graph.
  abbrev pub EdgesAnswered : Type 0
  EdgesAnswered = (id : Str) (e : Edge) → In e (g.incident id) → Answers (live_to e)

  pub live_to-is_live : (e : Edge) → Answers (live_to e) → live_to e ≡ some (is_live e)
  unfolding is_live
  live_to-is_live e (b, p) = rw (p, is_live)

  pub satisfied-is_satisfied :
      (id : Str)
      → Answers (satisfied fl g depth at [] id)
      → satisfied fl g depth at [] id ≡ some (is_satisfied id)
  unfolding is_satisfied
  satisfied-is_satisfied id (b, p) = rw (p, is_satisfied)

-- One level more than there are nodes is deep enough for Satisfied, where no membership is scoped to a
-- branch.
pub satisfied-Answers :
    (fl : Floats) (g : Graph) (at id : Str)
    → Unconditional fl g at
    → Answers (satisfied fl g (suc (length g.nodes)) at [] id)
satisfied-Answers fl g at id u =
    satisfied_total fl g at (suc (length g.nodes)) [] id u
      (omega (arith, unseen-le-length g.nodes []))

edge_live-answered :
    (fl : Floats) (g : Graph) (at : Str) (sat : Str → Answer) (e : Edge)
    → Answers (sat e.while_node)
    → Answers (edge_live fl g sat at e)
unfolding edge_live
edge_live-answered fl g at sat e h =
    Answers-if _ (true, refl)
      (Answers-if _ (false, refl)
        (Answers-if _ (false, refl) (Answers-if (is_empty e.while_node) (true, refl) h)))

-- So it is for edgeLive.
pub edges_answered :
    (fl : Floats) (g : Graph) (at : Str)
    → Unconditional fl g at
    → EdgesAnswered fl g (suc (length g.nodes)) at
unfolding live_to
edges_answered fl g at u id e i =
    edge_live-answered fl g at (satisfied fl g (suc (length g.nodes)) at []) e
      (satisfied-Answers fl g at e.while_node u)
