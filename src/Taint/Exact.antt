-- ===== src/Taint/Exact.antt =====
-- Taint finds exactly the open questions that a fact rests on.
use kgraph.Base.{
  Str, ℕ, zero, suc, ◌<◌, ◌≡◌, refl, sym, ap, ◌∙◌, subst, inl, inr, Bool, true, false, Option, none,
  some, List, [], ◌∷◌, arith, In, has, has_iff, not_in-has, Bool-cases, Option-cases, length,
  sort_strings, in-sort_strings, IsSorted, IsSorted-sort_strings,
}
use kgraph.Model.{Node, Edge}
use kgraph.Graph.{Graph, node_at}
use kgraph.Graph.Unseen.{unseen, unseen-cons-lt, unseen_mono, unseen-le-length}
use kgraph.Taint.{State, open_question, see, visit_all, rests_on, taint, taint_of}
use kgraph.Taint.Visit.{
  deps, is_hole, Rests, self, via, Visited, Visited-nil, Visited-cons, in_or_not,
}

module _ (live : Edge → Bool) (g : Graph) where
  -- The call returns, and visits what stands in the list.
  abbrev Visits : List Str → State → Option State → Type 0
  Visits ts s m = (t : State) × (m ≡ some t) × Visited live g ts s t

  visit_all-Visits :
      (visit : Str → State → Option State) (bound : ℕ)
      → ((d : Str) (s : State) → unseen g.nodes s.seen < bound → Visits (d ∷ []) s (visit d s))
      → (ts : List Str) (s : State) → unseen g.nodes s.seen < bound
      → Visits ts s (visit_all visit ts s)
  unfolding visit_all
  visit_all-Visits visit bound h [] s f = (s, refl, Visited-nil live g s)
  visit_all-Visits visit bound h (d ∷ ts) s f =
      let (t, p, v) = h d s f in
      let fewer = unseen_mono g.nodes s.seen t.seen v.grows in
      let (u, q, w) = visit_all-Visits visit bound h ts t (omega arith) in
      (u, rw (p, visit_all) q, Visited-cons live g d ts s t u v w)

  -- The id was seen before.
  Visited-seen : (id : Str) (s : State) → In id s.seen → Visited live g (id ∷ []) s s
  Visited-seen id s i = record {
    grows = λ x j. j;
    covers = λ x j. elim j [ inl e ↦ subst (λ y. In y s.seen) (sym e) i | inr z ↦ absurd z ];
    sound = λ x j. inl j;
    closed = λ x y j n k. absurd (n j);
    holes = λ x. (inl, λ h. elim h [ inl j ↦ j | inr (j, n, _) ↦ absurd (n j) ]);
  }

  -- The id is seen for the first time, and what it leads to is visited after it.
  Visited-new :
      (id : Str) (s t : State)
      → ¬ In id s.seen
      → is_hole live g id ≡ false
      → Visited live g (deps live g id) (see id s) t
      → Visited live g (id ∷ []) s t
  unfolding see
  Visited-new id s t new plain v = record {
    grows = λ x i. v.grows x (inr i);
    covers = λ x i. elim i [ inl e ↦ v.grows x (inl e) | inr z ↦ absurd z ];
    sound = λ x i. elim (v.sound x i) [
      | inl (inl e) ↦ inr (id, inl refl, subst (λ y. Rests live g y id) (sym e) self)
      | inl (inr j) ↦ inl j
      | inr (d, j, r) ↦ inr (id, inl refl, via j r)
    ];
    closed = λ x y i n j. elim (in_or_not (id ∷ s.seen) x) [
      | inr k ↦ v.closed x y i k j
      | inl (inl e) ↦ v.covers y (subst (λ z. In y (deps live g z)) e j)
      | inl (inr k) ↦ absurd (n k)
    ];
    holes = λ x. (
      λ i. elim ((v.holes x).0 i) [ inl j ↦ inl j | inr (a, n, h) ↦ inr (a, λ k. n (inr k), h) ],
      λ i. (v.holes x).1 (elim i [
        | inl j ↦ inl j
        | inr (a, n, h) ↦
            inr (a, λ k. elim k [ inl e ↦ cc (h, plain, ap (is_hole live g) e) | inr j ↦ n j ], h)
      ]),
    );
  }

  -- The id is an open question.
  Visited-hole :
      (id : Str) (s : State)
      → ¬ In id s.seen
      → is_hole live g id ≡ true
      → deps live g id ≡ []
      → Visited live g (id ∷ []) s (record { seen = id ∷ s.seen; holes = id ∷ s.holes })
  Visited-hole id s new hole ends = record {
    grows = λ x i. inr i;
    covers = λ x i. elim i [ inl e ↦ inl e | inr z ↦ absurd z ];
    sound = λ x i. elim i [
      | inl e ↦ inr (id, inl refl, subst (λ y. Rests live g y id) (sym e) self)
      | inr j ↦ inl j
    ];
    closed = λ x y i n j. elim i [
      | inl e ↦ absurd (subst (In y) ends (subst (λ z. In y (deps live g z)) e j))
      | inr k ↦ absurd (n k)
    ];
    holes = λ x. (
      λ i. elim i [
        | inl e ↦ inr (inl e, λ k. new (subst (λ z. In z s.seen) e k), ap (is_hole live g) e ∙ hole)
        | inr j ↦ inl j
      ],
      λ h. elim h [
        | inl j ↦ inr j
        | inr (i, n, _) ↦ elim i [ inl e ↦ inl e | inr k ↦ absurd (n k) ]
      ],
    );
  }

  deps-none : (id : Str) → node_at g id ≡ none → deps live g id ≡ []
  unfolding deps
  deps-none id p = rw (p, deps)

  deps-some :
      (id : Str) (n : Node)
      → node_at g id ≡ some n
      → open_question n ≡ false
      → deps live g id ≡ rests_on live g id n
  unfolding deps
  deps-some id n p q = rw (p, q, deps)

  taint-Visits :
      (fuel : ℕ) (id : Str) (s : State)
      → unseen g.nodes s.seen < fuel
      → Visits (id ∷ []) s (taint live g fuel id s)
  unfolding taint node_at
  taint-Visits zero id s f = absurd (omega arith)
  taint-Visits (suc fuel) id s f = elim (Bool-cases (has s.seen id)) [
    | inl k ↦ (s, rw (k, taint), Visited-seen id s ((has_iff s.seen id).0 k))
    | inr k ↦
        let new = not_in-has s.seen id k in
        elim (Option-cases (node_at g id)) [
          | inl p ↦ (
            see id s,
            rw (k, p, taint),
            Visited-new id s (see id s) new (unfold is_hole in rw (p, is_hole)) (
                subst (λ ts. Visited live g ts (see id s) (see id s)) (sym (deps-none id p))
                  (Visited-nil live g (see id s))),
          )
          | inr (n, p) ↦ elim (Bool-cases (open_question n)) [
            | inl q ↦ (
              record { seen = id ∷ s.seen; holes = id ∷ s.holes },
              rw (k, p, q, taint),
              Visited-hole id s new (unfold is_hole in rw (p, q, is_hole))
                  (unfold deps in rw (p, q, deps)),
            )
            | inr q ↦
                let (t, e, v) =
                  visit_all-Visits (taint live g fuel) fuel (taint-Visits fuel)
                    (rests_on live g id n) (see id s)
                    (omega (arith, unseen-cons-lt g.nodes s.seen id n p k)) in
                (
                  t,
                  rw (k, p, q, taint) e,
                  Visited-new id s t new (unfold is_hole in rw (p, q, is_hole))
                      (subst (λ ts. Visited live g ts (see id s) t) (sym (deps-some id n p q)) v),
                )
          ]
        ]
  ]

  abbrev nothing : State
  nothing = record { seen = []; holes = [] }

  -- A set that is closed under what its members lead to holds what they rest on.
  closed_under :
      (seen : List Str) (x : Str) {id : Str}
      → ((a b : Str) → In a seen → In b (deps live g a) → In b seen)
      → In id seen
      → Rests live g x id
      → In x seen
  closed_under seen x c i self = i
  closed_under seen x c i (via j r) = closed_under seen x c (c _ _ i j) r

  -- With the answers of edgeLive given, Taint ends, and its list is sorted and holds an id exactly when that is an open question
  -- which the fact rests on.
  pub taint_exact :
      (id : Str)
      → (qs : List Str) × (taint_of live g id ≡ some qs)
        × IsSorted qs
        × ((q : Str)
            → (In q qs → (is_hole live g q ≡ true) × Rests live g q id)
              × (is_hole live g q ≡ true → Rests live g q id → In q qs))
  unfolding taint_of
  taint_exact id =
      let (t, e, v) =
        taint-Visits (suc (length g.nodes)) id nothing
          (omega (arith, unseen-le-length g.nodes [])) in
      (
        sort_strings t.holes,
        rw (e, taint_of),
        IsSorted-sort_strings t.holes,
        λ q. (
          λ i. elim ((v.holes q).0 ((in-sort_strings q t.holes).0 i)) [
            | inl z ↦ absurd z
            | inr (j, _, h) ↦ elim (v.sound q j) [
              | inl z ↦ absurd z
              | inr (d, k, r) ↦ elim k [
                | inl k' ↦ (h, subst (Rests live g q) k' r)
                | inr z ↦ absurd z
              ]
            ]
          ],
          λ h r. (in-sort_strings q t.holes).1 (
              (v.holes q).1 (
                inr (
                  closed_under t.seen q (λ a b i j. v.closed a b i (λ z. z) j)
                      (v.covers id (inl refl)) r,
                  λ z. z,
                  h,
                ))),
        ),
      )
