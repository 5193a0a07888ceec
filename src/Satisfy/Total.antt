-- ===== src/Satisfy/Total.antt =====
-- When satisfaction is decided: with no date, and where no membership depends on a branch.
use kgraph.Base.{
  Str, ℕ, zero, suc, ◌<◌, ◌≡◌, refl, ◌⊎◌, inl, inr, Bool, true, false, not, if◌then◌else◌, Option,
  none, some, List, [], ◌∷◌, arith, In, is_empty, has, ◌>>=◌, Bool-cases, Option-cases,
  sort_strings,
}
use kgraph.Model.{Node, Edge, member_of, type_eq, group, kind_eq}
use kgraph.Time.{Floats}
use kgraph.Graph.{Graph, node_at}
use kgraph.Graph.Unseen.{unseen, unseen-cons-lt}
use kgraph.Satisfy.{
  Answer, status_holds, add_member, count_members, edge_live, live_members, members_at, group_stat,
  node_satisfied, satisfied_step, satisfied,
}

-- An answer was reached.
abbrev pub Answers {ℓ} : {A : Type ℓ} → Option A → Type ℓ
Answers {A = A} m = (a : A) × (m ≡ some a)

count_members-Answers :
    (sat : Str → Answer) (ms : List Str)
    → ((m : Str) → Answers (sat m))
    → Answers (count_members sat ms)
unfolding count_members
count_members-Answers sat [] h = (_, refl)
count_members-Answers sat (m ∷ ms) h =
    let (b, p) = h m in
    let (st, q) = count_members-Answers sat ms h in (add_member m b st, rw (p, q, count_members))

pub Answers-if {ℓ} :
    {A : Type ℓ} (b : Bool) {m n : Option A} → Answers m → Answers n → Answers (if b then m else n)
Answers-if true m n = m
Answers-if false m n = n

pub Answers-bind {ℓ κ} :
    {A : Type ℓ} {B : Type κ} (m : Option A) (f : A → Option B)
    → Answers m
    → ((a : A) → Answers (f a))
    → Answers (m >>= f)
Answers-bind none f (a, p) h = cc
Answers-bind (some a) f h k = k a

module _ (fl : Floats) (g : Graph) (at : Str) where
  -- The date is not given, or no membership is scoped to a branch.
  abbrev pub Unconditional : Type 0
  Unconditional =
      (is_empty at ≡ true)
      ⊎ ((id : Str) (e : Edge)
          → In e (g.incident id)
          → type_eq e.type member_of ≡ true
          → is_empty e.while_node ≡ true)

  edge_live-Answers :
      (sat : Str → Answer) (e : Edge)
      → (is_empty at ≡ true) ⊎ (is_empty e.while_node ≡ true)
      → Answers (edge_live fl g sat at e)
  unfolding edge_live
  edge_live-Answers sat e (inl p) = (true, rw (p, edge_live))
  edge_live-Answers sat e (inr p) =
      Answers-if _ (true, refl)
        (Answers-if _ (false, refl) (Answers-if _ (false, refl) (branch (is_empty e.while_node) p)))
    where
      branch : (b : Bool) → b ≡ true → Answers (if b then some true else sat e.while_node)
      branch b q = (true, rw q)

  live_members-Answers :
      (sat : Str → Answer) (id : Str) (es : List Edge)
      → ((e : Edge) → In e es → type_eq e.type member_of ≡ true → Answers (edge_live fl g sat at e))
      → Answers (live_members fl g sat id at es)
  unfolding live_members
  live_members-Answers sat id [] h = ([], refl)
  live_members-Answers sat id (e ∷ es) h =
      let (ms, q) = live_members-Answers sat id es (λ a i. h a (inr i)) in
      elim (Bool-cases (type_eq e.type member_of)) [
        | inr n ↦ rw (n, live_members) (ms, q)
        | inl t ↦
            let (b, p) = h e (inl refl) t in
            rw (t, live_members)
              (Answers-if _
                (Answers-bind (edge_live fl g sat at e) _ (b, p)
                  (λ c. Answers-bind (live_members fl g sat id at es) _ (ms, q) (λ l. (_, refl))))
                (ms, q))
      ]

  members_at-Answers :
      (sat : Str → Answer) (id : Str) → Unconditional → Answers (members_at fl g sat id at)
  unfolding members_at
  members_at-Answers sat id h =
      let (ms, p) =
        live_members-Answers sat id (g.incident id)
          (λ e i t. edge_live-Answers sat e (free e i t h)) in
      (sort_strings ms, rw (p, members_at))
    where
      free :
          (e : Edge)
          → In e (g.incident id)
          → type_eq e.type member_of ≡ true
          → Unconditional
          → (is_empty at ≡ true) ⊎ (is_empty e.while_node ≡ true)
      free e i t (inl p) = inl p
      free e i t (inr k) = inr (k id e i t)

  group_stat-Answers :
      (fresh sat : Str → Answer) (id : Str)
      → Unconditional
      → ((m : Str) → Answers (sat m))
      → Answers (group_stat fl g fresh sat id at)
  unfolding group_stat
  group_stat-Answers fresh sat id u h = elim (Option-cases (node_at g id)) [
    | inl p ↦ rw (p, group_stat) (_, refl)
    | inr (n, p) ↦
        rw (p, group_stat)
          (Answers-bind (members_at fl g fresh id at) _ (members_at-Answers fresh id u) (λ ms.
            Answers-bind (count_members sat ms) _ (count_members-Answers sat ms h)
              (λ st. (_, refl))))
  ]

  node_satisfied-Answers :
      (fresh sat : Str → Answer) (id : Str) (n : Node)
      → Unconditional
      → ((m : Str) → Answers (sat m))
      → Answers (node_satisfied fl g fresh sat at id n)
  unfolding node_satisfied
  node_satisfied-Answers fresh sat id n u h =
      Answers-if _ (false, refl)
        (Answers-bind (if is_empty n.while_node then some true else sat n.while_node) _
          (Answers-if (is_empty n.while_node) (true, refl) (h n.while_node))
          (λ b.
            Answers-if (not b) (false, refl)
              (Answers-if (kind_eq n.kind group)
                (Answers-bind (group_stat fl g fresh sat id at) _
                  (group_stat-Answers fresh sat id u h) (λ st. (st.met, refl)))
                (status_holds n.status, refl))))

  step-Answers :
      (sat : List Str → Str → Answer) (seen : List Str) (id : Str)
      → Unconditional
      → ((n : Node)
          → node_at g id ≡ some n
          → has seen id ≡ false
          → (x : Str) → Answers (sat (id ∷ seen) x))
      → Answers (satisfied_step fl g sat at seen id)
  unfolding satisfied_step
  step-Answers sat seen id u h = elim (Option-cases (node_at g id)) [
    | inl p ↦ (false, rw (p, satisfied_step))
    | inr (n, p) ↦ elim (Bool-cases (has seen id)) [
      | inl s ↦ (false, rw (p, s, satisfied_step))
      | inr s ↦
          rw (p, s, satisfied_step)
            (node_satisfied-Answers (sat []) (sat (id ∷ seen)) id n u (h n p s))
    ]
  ]

  -- With no date, or where no membership is scoped to a branch, the question whether a node is
  -- satisfied has an answer: one level more than there are nodes is deep enough.
  pub satisfied_total :
      (fuel : ℕ) (seen : List Str) (id : Str)
      → Unconditional
      → unseen g.nodes seen < fuel
      → Answers (satisfied fl g fuel at seen id)
  unfolding satisfied node_at
  satisfied_total zero seen id u h = absurd (omega arith)
  satisfied_total (suc fuel) seen id u h =
      step-Answers (satisfied fl g fuel at) seen id u λ n p s x.
        satisfied_total fuel (id ∷ seen) x u (omega (arith, unseen-cons-lt g.nodes seen id n p s))
