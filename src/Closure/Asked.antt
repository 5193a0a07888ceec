-- ===== src/Closure/Asked.antt =====
-- hopTargets, eval.go, with the answers of edgeLive as they come: `none` is a question that is not
-- answered, or the end of the rounds.
use kgraph.Base.{
  Str, ℕ, zero, suc, ◌+◌, ◌≡◌, refl, sym, ◌∙◌, inl, inr, Bool, true, false, not, if◌then◌else◌,
  Option, none, some, List, [], ◌∷◌, ◌++◌, In, has, length, ◌>>=◌, Bool-cases, NoRepeat,
}
use kgraph.Model.{Edge, type_eq}
use kgraph.Time.{Floats}
use kgraph.Graph.{Graph}
use kgraph.Graph.Build.WellFormed.{IsWellFormed}
use kgraph.Satisfy.{Answer}
use kgraph.Satisfy.Asked.{live_to, is_live, live_to-is_live, EdgesAnswered}
use kgraph.Closure.{Hop, cross, step, step_from, drain, all_steps, hop_targets}
use kgraph.Closure.Reach.{Walk}
use kgraph.Closure.Ends.{starred, hop_targets_exact}

module _ (live : Edge → Answer) (g : Graph) where
  unfoldable pub ask_steps : Hop → Str → List Edge → Option (List Str)
  unfolding cross
  ask_steps h id [] = some []
  ask_steps h id (e ∷ es) =
      let rest = ask_steps h id es in
      if type_eq e.type h.type
      then (live e >>= λ b. rest >>= λ ids. some (if b then cross h.dir id e ++ ids else ids))
      else rest

  unfoldable pub ask_step : Hop → Str → Option (List Str)
  unfolding ask_steps
  ask_step h id = ask_steps h id (g.incident id)

  unfoldable pub ask_drain : ℕ → Hop → List Str → List Str → Option (List Str)
  unfolding ask_step
  ask_drain zero h out queue = elim queue [ [] ↦ some out | _ ∷ _ ↦ none ]
  ask_drain (suc rounds) h out [] = some out
  ask_drain (suc rounds) h out (id ∷ queue) = elim (has out id) [
    | true ↦ ask_drain rounds h out queue
    | false ↦ ask_step h id >>= λ more. ask_drain rounds h (out ++ id ∷ []) (queue ++ more)
  ]

  -- hopTargets
  unfoldable pub ask_targets : ℕ → Str → Hop → Option (List Str)
  unfolding ask_step ask_drain
  ask_targets rounds from h =
      ask_step h from >>= λ first. if not h.star then some first else ask_drain rounds h [] first

module _ (fl : Floats) (g : Graph) (depth : ℕ) (at : Str) (h : Hop) where
  abbrev asked : Edge → Answer
  asked = live_to fl g depth at

  abbrev known_live : Edge → Bool
  known_live = is_live fl g depth at

  ask_steps-answered :
      (id : Str) (es : List Edge)
      → ((e : Edge) → In e es → asked e ≡ some (known_live e))
      → ask_steps asked g h id es ≡ some (step_from known_live g h id es)
  unfolding ask_steps step_from
  ask_steps-answered id [] a = refl
  ask_steps-answered id (e ∷ es) a =
      let rest = ask_steps-answered id es (λ d i. a d (inr i)) in
      elim (Bool-cases (type_eq e.type h.type)) [
        | inr t ↦ rw (t, ask_steps, step_from) rest
        | inl t ↦ rw (t, ask_steps, step_from, a e (inl refl), rest)
      ]

  ask_step-answered :
      EdgesAnswered fl g depth at
      → (id : Str) → ask_step asked g h id ≡ some (step known_live g h id)
  unfolding ask_step step
  ask_step-answered q id =
      ask_steps-answered id (g.incident id) (λ e i. live_to-is_live fl g depth at e (q id e i))

  ask_drain-answered :
      EdgesAnswered fl g depth at
      → (rounds : ℕ) (out queue : List Str)
      → ask_drain asked g rounds h out queue ≡ drain known_live g rounds h out queue
  unfolding ask_drain drain
  ask_drain-answered q zero out queue = refl
  ask_drain-answered q (suc rounds) out [] = refl
  ask_drain-answered q (suc rounds) out (id ∷ queue) = elim (Bool-cases (has out id)) [
    | inl s ↦ rw (s, ask_drain, drain) (ask_drain-answered q rounds out queue)
    | inr s ↦
        rw (s, ask_drain, drain, ask_step-answered q id)
          (ask_drain-answered q rounds (out ++ id ∷ []) (queue ++ step known_live g h id))
  ]

  -- In a well-formed graph, at a date and a depth at which edgeLive answers for each edge, the starred
  -- hop ends and gives each id that one or more hops over live edges lead to exactly once, and no
  -- other.
  pub ask_targets_exact :
      (from : Str)
      → IsWellFormed g
      → EdgesAnswered fl g depth at
      → h.star ≡ true
      → (rounds : ℕ) × (res : List Str) × (ask_targets (live_to fl g depth at) g rounds from h
          ≡ some res)
        × NoRepeat res
        × ((to : Str)
            → (In to res → Walk (is_live fl g depth at) g h from to)
              × (Walk (is_live fl g depth at) g h from to → In to res))
  unfolding ask_targets hop_targets
  ask_targets_exact from w q s =
      let first = step known_live g h from in
      let rounds = length first + all_steps known_live g h g.nodes in
      let (res, e, once, exact) = hop_targets_exact known_live g h from w s in
      (
        rounds,
        res,
        rw (ask_step-answered q from) (
            starred h.star (some first) (ask_drain asked g rounds h [] first) s
            ∙ ask_drain-answered q rounds [] first
            ∙ sym (starred h.star (some first) (drain known_live g rounds h [] first) s)
            ∙ e),
        once,
        exact,
      )
