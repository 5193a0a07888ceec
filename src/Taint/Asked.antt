-- ===== src/Taint/Asked.antt =====
-- taint.go with the answers of edgeLive as they come: `none` is a question that is not answered, or the
-- end of the fuel.
use kgraph.Base.{
  Str, ℕ, zero, suc, ◌≡◌, refl, ap, ◌∙◌, inl, inr, Bool, true, ◌&&◌, if◌then◌else◌, Option, none,
  some, List, [], ◌∷◌, ◌++◌, In, IsSorted, has, is_empty, str_eq, length, sort_strings, ◌>>=◌,
  Bool-cases, Option-cases,
}
use kgraph.Model.{Node, Edge, type_eq, requires, member_of, group, kind_eq}
use kgraph.Time.{Floats}
use kgraph.Graph.{Graph, node_at}
use kgraph.Satisfy.{Answer}
use kgraph.Satisfy.Asked.{live_to, is_live, live_to-is_live, EdgesAnswered}
use kgraph.Taint.{
  State, open_question, see, visit_all, required, member_srcs, members, rests_on, taint, taint_of,
}
use kgraph.Taint.Visit.{is_hole, Rests}
use kgraph.Taint.Exact.{taint_exact}

module _ (live : Edge → Answer) (g : Graph) where
  unfoldable pub ask_required : Str → List Edge → Option (List Str)
  ask_required id [] = some []
  ask_required id (e ∷ es) =
      let rest = ask_required id es in
      if str_eq e.src id
      then (live e >>= λ b.
          rest >>= λ ds. some (if b && type_eq e.type requires then e.dst ∷ ds else ds))
      else rest

  unfoldable pub ask_member_srcs : Str → List Edge → Option (List Str)
  ask_member_srcs id [] = some []
  ask_member_srcs id (e ∷ es) =
      let rest = ask_member_srcs id es in
      if type_eq e.type member_of && str_eq e.dst id
      then (live e >>= λ b. rest >>= λ ms. some (if b then e.src ∷ ms else ms))
      else rest

  -- membersAt, where the node is a group.
  unfoldable pub ask_members : Str → Node → Option (List Str)
  unfolding ask_member_srcs
  ask_members id n =
      if kind_eq n.kind group
      then (ask_member_srcs id (g.incident id) >>= λ ms. some (sort_strings ms))
      else some []

  unfoldable pub ask_rests_on : Str → Node → Option (List Str)
  unfolding ask_required ask_members
  ask_rests_on id n = ask_required id (g.incident id) >>= λ ds. ask_members id n >>= λ ms.
      some (ds ++ (ms ++ (if is_empty n.while_node then [] else n.while_node ∷ [])))

  unfoldable pub ask_taint : ℕ → Str → State → Option State
  unfolding open_question see visit_all ask_rests_on
  ask_taint zero id st = none
  ask_taint (suc fuel) id st = if has st.seen id then some st else elim (node_at g id) [
    | none ↦ some (see id st)
    | some n ↦
        if open_question n
        then some (record { seen = id ∷ st.seen; holes = id ∷ st.holes })
        else (ask_rests_on id n >>= λ ds. visit_all (ask_taint fuel) ds (see id st))
  ]

  -- g.Taint(id, at)
  unfoldable pub ask_taint_of : Str → Option (List Str)
  unfolding ask_taint
  ask_taint_of id = ask_taint (suc (length g.nodes)) id (record { seen = []; holes = [] }) >>= λ st.
      some (sort_strings st.holes)

bind-same {ℓ κ} :
    {A : Type ℓ} {B : Type κ} (m : Option A) (f h : A → Option B)
    → ((a : A) → f a ≡ h a)
    → (m >>= f) ≡ (m >>= h)
bind-same none f h e = refl
bind-same (some a) f h e = e a

visit_all-same :
    (v w : Str → State → Option State)
    → ((d : Str) (st : State) → v d st ≡ w d st)
    → (ds : List Str) (st : State) → visit_all v ds st ≡ visit_all w ds st
unfolding visit_all
visit_all-same v w h [] st = refl
visit_all-same v w h (d ∷ ds) st =
    ap (λ m. m >>= visit_all v ds) (h d st)
    ∙ bind-same (w d st) (visit_all v ds) (visit_all w ds) (λ t. visit_all-same v w h ds t)

module _ (fl : Floats) (g : Graph) (depth : ℕ) (at : Str) where
  abbrev asked : Edge → Answer
  asked = live_to fl g depth at

  abbrev known_live : Edge → Bool
  known_live = is_live fl g depth at

  ask_required-answered :
      (id : Str) (es : List Edge)
      → ((e : Edge) → In e es → asked e ≡ some (known_live e))
      → ask_required asked g id es ≡ some (required known_live g id es)
  unfolding ask_required required
  ask_required-answered id [] a = refl
  ask_required-answered id (e ∷ es) a =
      let rest = ask_required-answered id es (λ d i. a d (inr i)) in
      elim (Bool-cases (str_eq e.src id)) [
        | inr t ↦ rw (t, ask_required, required) rest
        | inl t ↦ rw (t, ask_required, required, a e (inl refl), rest)
      ]

  ask_member_srcs-answered :
      (id : Str) (es : List Edge)
      → ((e : Edge) → In e es → asked e ≡ some (known_live e))
      → ask_member_srcs asked g id es ≡ some (member_srcs known_live g id es)
  unfolding ask_member_srcs member_srcs
  ask_member_srcs-answered id [] a = refl
  ask_member_srcs-answered id (e ∷ es) a =
      let rest = ask_member_srcs-answered id es (λ d i. a d (inr i)) in
      elim (Bool-cases (type_eq e.type member_of)) [
        | inr t ↦ rw (t, ask_member_srcs, member_srcs) rest
        | inl t ↦ elim (Bool-cases (str_eq e.dst id)) [
          | inr u ↦ rw (t, u, ask_member_srcs, member_srcs) rest
          | inl u ↦ rw (t, u, ask_member_srcs, member_srcs, a e (inl refl), rest)
        ]
      ]

  ask_rests_on-answered :
      EdgesAnswered fl g depth at
      → (id : Str) (n : Node) → ask_rests_on asked g id n ≡ some (rests_on known_live g id n)
  unfolding ask_rests_on ask_members rests_on members
  ask_rests_on-answered q id n =
      let a = λ (e : Edge) (i : In e (g.incident id)). live_to-is_live fl g depth at e (q id e i) in
      elim (Bool-cases (kind_eq n.kind group)) [
        | inl k ↦ rw (
          ask_required-answered id (g.incident id) a,
          k,
          ask_member_srcs-answered id (g.incident id) a,
        )
        | inr k ↦ rw (ask_required-answered id (g.incident id) a, k)
      ]

  ask_taint-answered :
      EdgesAnswered fl g depth at
      → (fuel : ℕ) (id : Str) (st : State)
      → ask_taint asked g fuel id st ≡ taint known_live g fuel id st
  unfolding ask_taint taint
  ask_taint-answered q zero id st = refl
  ask_taint-answered q (suc fuel) id st = elim (Bool-cases (has st.seen id)) [
    | inl s ↦ rw (s, ask_taint, taint)
    | inr s ↦ elim (Option-cases (node_at g id)) [
      | inl p ↦ rw (s, p, ask_taint, taint)
      | inr (n, p) ↦ elim (Bool-cases (open_question n)) [
        | inl o ↦ rw (s, p, o, ask_taint, taint)
        | inr o ↦
            rw (s, p, o, ask_taint, taint, ask_rests_on-answered q id n)
              (visit_all-same (ask_taint asked g fuel) (taint known_live g fuel)
                (ask_taint-answered q fuel) (rests_on known_live g id n) (see id st))
      ]
    ]
  ]

  -- At a date and a depth at which edgeLive answers for each edge, Taint ends, and its list is sorted
  -- and holds an id exactly when that is an open question which the fact rests on through live
  -- requirements, group members and branches.
  pub ask_taint_exact :
      (id : Str)
      → EdgesAnswered fl g depth at
      → (qs : List Str) × (ask_taint_of (live_to fl g depth at) g id ≡ some qs)
        × IsSorted qs
        × ((q : Str)
            → (In q qs
                → (is_hole (is_live fl g depth at) g q ≡ true)
                  × Rests (is_live fl g depth at) g q id)
              × (is_hole (is_live fl g depth at) g q ≡ true
                  → Rests (is_live fl g depth at) g q id
                  → In q qs))
  unfolding ask_taint_of taint_of
  ask_taint_exact id q =
      let (qs, e, sorted, exact) = taint_exact known_live g id in
      (
        qs,
        ap (λ m. m >>= λ st. some (sort_strings st.holes))
              (ask_taint-answered q (suc (length g.nodes)) id (record { seen = []; holes = [] }))
            ∙ e,
        sorted,
        exact,
      )
