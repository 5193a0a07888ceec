-- ===== src/Closure/Ends.antt =====
-- The loop over the queue of hopTargets ends, with the fuel that the model gives it.
use kgraph.Base.{
  Str, ℕ, zero, suc, ◌+◌, ◌≤◌, ◌≡◌, refl, ap, ◌∙◌, subst, ◌⊎◌, inl, inr, Bool, true, false, not,
  if◌then◌else◌, Option, none, some, List, [], ◌∷◌, ◌++◌, arith, In, has, length, length-append,
  str_eq, str_eq_iff, str_eq_sound, Bool-cases, Option-cases, NoRepeat, find_key, ◌||◌,
}
use kgraph.Model.{Edge, Node}
use kgraph.Graph.{Graph, Nodes}
use kgraph.Graph.Build.{known}
use kgraph.Graph.Build.WellFormed.{IsWellFormed}
use kgraph.Closure.{Hop, step, step_from, drain, all_steps, hop_targets}
use kgraph.Closure.Reach.{Walk, drain_exact}

-- An id that is no node of a well-formed graph has no edges.
incident_unknown :
    (g : Graph) (id : Str) → IsWellFormed g → find_key g.nodes id ≡ none → g.incident id ≡ []
unfolding known
incident_unknown g id w p = empty (g.incident id) (λ e i. ends e ((w.lists id e).0 i).1)
  where
    ends :
        (e : Edge)
        → (known g.nodes e.src ≡ true)
          × (known g.nodes e.dst ≡ true)
          × ((e.src ≡ id) ⊎ (e.dst ≡ id))
        → ⊥
    ends e (s, d, inl q) = cc (subst (λ x. known g.nodes x ≡ true) q s, p)
    ends e (s, d, inr q) = cc (subst (λ x. known g.nodes x ≡ true) q d, p)

    empty : (es : List Edge) → ((e : Edge) → ¬ In e es) → es ≡ []
    empty [] h = refl
    empty (e ∷ es) h = absurd (h e (inl refl))

has-concat : (xs : List Str) (x a : Str) → has (xs ++ x ∷ []) a ≡ (has xs a || str_eq a x)
unfolding has
has-concat [] x a = ground arith
has-concat (y ∷ ys) x a = ground (arith, has-concat ys x a)

pub starred : (b : Bool) (x y : Option (List Str)) → b ≡ true → (if not b then x else y) ≡ y
starred b x y p = rw p

module _ (live : Edge → Bool) (g : Graph) (h : Hop) where
  -- The steps that nodes not yet expanded may still add to the queue.
  left : Nodes → List Str → ℕ
  left [] out = 0
  left ((id, n) ∷ ns) out = (if has out id then 0 else length (step live g h id)) + left ns out

  left-visit-le : (ns : Nodes) (out : List Str) (a : Str) → left ns (out ++ a ∷ []) ≤ left ns out
  unfolding left
  left-visit-le [] out a = omega arith
  left-visit-le ((id, n) ∷ ns) out a = ground (arith, has-concat out a id, left-visit-le ns out a)

  left-visit :
      (ns : Nodes) (out : List Str) (a : Str) (n : Node)
      → find_key ns a ≡ some n
      → has out a ≡ false
      → left ns (out ++ a ∷ []) + length (step live g h a) ≤ left ns out
  unfolding left find_key
  left-visit [] out a n f s = cc
  left-visit ((id, m) ∷ ns) out a n f s = elim (Bool-cases (str_eq id a)) [
    | inl e ↦ ground (
      arith,
      has-concat out a id,
      left-visit-le ns out a,
      str_eq_sound id a e,
      str_eq_iff id a,
      str_eq_iff a id,
    )
    | inr e ↦ ground (arith, has-concat out a id, left-visit ns out a n)
  ]

  left-nil : (ns : Nodes) → left ns [] ≡ all_steps live g h ns
  unfolding left all_steps has
  left-nil [] = refl
  left-nil ((id, n) ∷ ns) = omega (arith, left-nil ns)

  visit_fits :
      (out : List Str) (a : Str)
      → IsWellFormed g
      → has out a ≡ false
      → left g.nodes (out ++ a ∷ []) + length (step live g h a) ≤ left g.nodes out
  visit_fits out a w s = elim (Option-cases (find_key g.nodes a)) [
    | inr (n, p) ↦ left-visit g.nodes out a n p s
    | inl p ↦
        let none_to_cross : step live g h a ≡ [] =
          unfold step in (ap (step_from live g h a) (incident_unknown g a w p)) in
        omega (arith, left-visit-le g.nodes out a, ap (length {A = Str}) none_to_cross)
  ]

  drain_ends :
      (fuel : ℕ) (out queue : List Str)
      → IsWellFormed g
      → length queue + left g.nodes out ≤ fuel
      → (res : List Str) × (drain live g fuel h out queue ≡ some res)
  unfolding drain
  drain_ends zero out [] w f = (out, refl)
  drain_ends zero out (a ∷ queue) w f = absurd (omega arith)
  drain_ends (suc fuel) out [] w f = (out, refl)
  drain_ends (suc fuel) out (a ∷ queue) w f = elim (Bool-cases (has out a)) [
    | inl s ↦ rw (s, drain) (drain_ends fuel out queue w (omega arith))
    | inr s ↦
        rw (s, drain)
          (drain_ends fuel (out ++ a ∷ []) (queue ++ step live g h a) w
            (omega (arith, visit_fits out a w s, length-append queue (step live g h a))))
  ]

  -- With the answers of edgeLive given: in a well-formed graph the closure of a hop is found, and it
  -- holds each id that one or more hops over live edges lead to exactly once, and no other.
  pub hop_targets_exact :
      (from : Str)
      → IsWellFormed g
      → h.star ≡ true
      → (res : List Str) × (hop_targets live g from h ≡ some res)
        × NoRepeat res
        × ((to : Str) → (In to res → Walk live g h from to) × (Walk live g h from to → In to res))
  unfolding hop_targets
  hop_targets_exact from w s =
      let fuel = length (step live g h from) + all_steps live g h g.nodes in
      let (res, e) = drain_ends fuel [] (step live g h from) w (omega (arith, left-nil g.nodes)) in
      let (once, exact) = drain_exact live g h from fuel res e in
      (res, starred h.star _ _ s ∙ e, once, exact)
