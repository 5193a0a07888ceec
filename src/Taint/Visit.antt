-- ===== src/Taint/Visit.antt =====
-- What one call of the recursion, or a row of calls, does to the shared maps.
use kgraph.Base.{
  Str, ◌≡◌, ◌↔◌, ◌⊎◌, inl, inr, Bool, true, false, none, some, List, [], ◌∷◌, In, has, has_iff,
  not_in-has, Bool-cases, if◌then◌else◌,
}
use kgraph.Model.{Edge}
use kgraph.Graph.{Graph, node_at}
use kgraph.Taint.{State, open_question, rests_on}

-- A membership in a list of texts is decided.
pub in_or_not : (xs : List Str) (a : Str) → In a xs ⊎ (¬ In a xs)
in_or_not xs a = elim (Bool-cases (has xs a)) [
  | inl h ↦ inl ((has_iff xs a).0 h)
  | inr h ↦ inr (not_in-has xs a h)
]

module _ (live : Edge → Bool) (g : Graph) where
  -- What the walk goes on to from an id: nothing from an unknown id or from an open question.
  unfoldable pub deps : Str → List Str
  deps id = elim (node_at g id) [
    | none ↦ []
    | some n ↦ if open_question n then [] else rests_on live g id n
  ]

  unfoldable pub is_hole : Str → Bool
  is_hole id = elim (node_at g id) [ none ↦ false | some n ↦ open_question n ]

  -- `Rests to from`: the fact `from` rests on `to`, directly or through other facts, none of which
  -- is an open question.
  pub data Rests (to : Str) : Str → Type 0 where
    self : Rests to to
    via : {from mid : Str} → In mid (deps from) → Rests to mid → Rests to from

  pub record Visited (ts : List Str) (s t : State) : Type 0 where
    pub grows : (x : Str) → In x s.seen → In x t.seen
    pub covers : (x : Str) → In x ts → In x t.seen
    pub sound : (x : Str) → In x t.seen → In x s.seen ⊎ ((d : Str) × In d ts × Rests x d)
    pub closed : (x y : Str) → In x t.seen → (¬ In x s.seen) → In y (deps x) → In y t.seen
    pub holes :
        (x : Str)
        → In x t.holes ↔ (In x s.holes ⊎ (In x t.seen × (¬ In x s.seen) × (is_hole x ≡ true)))

  pub Visited-nil : (s : State) → Visited [] s s
  Visited-nil s = record {
    grows = λ x i. i;
    covers = λ x i. absurd i;
    sound = λ x i. inl i;
    closed = λ x y i n j. absurd (n i);
    holes = λ x. (inl, λ h. elim h [ inl i ↦ i | inr (i, n, _) ↦ absurd (n i) ]);
  }

  pub Visited-cons :
      (d : Str) (ts : List Str) (s t u : State)
      → Visited (d ∷ []) s t
      → Visited ts t u
      → Visited (d ∷ ts) s u
  Visited-cons d ts s t u v w = record {
    grows = λ x i. w.grows x (v.grows x i);
    covers = λ x i. elim i [ inl e ↦ w.grows x (v.covers x (inl e)) | inr j ↦ w.covers x j ];
    sound = λ x i. elim (w.sound x i) [
      | inr (a, j, r) ↦ inr (a, inr j, r)
      | inl j ↦ elim (v.sound x j) [
        | inl k ↦ inl k
        | inr (a, k, r) ↦ inr (a, elim k [ inl e ↦ inl e | inr z ↦ absurd z ], r)
      ]
    ];
    closed = λ x y i n j. elim (in_or_not t.seen x) [
      | inl k ↦ w.grows y (v.closed x y k n j)
      | inr k ↦ w.closed x y i k j
    ];
    holes = λ x. (
      λ i. elim ((w.holes x).0 i) [
        | inr (a, n, h) ↦ inr (a, λ k. n (v.grows x k), h)
        | inl j ↦ elim ((v.holes x).0 j) [ inl k ↦ inl k | inr (a, n, h) ↦ inr (w.grows x a, n, h) ]
      ],
      λ i. (w.holes x).1 (elim i [
        | inl k ↦ inl ((v.holes x).1 (inl k))
        | inr (a, n, h) ↦ elim (in_or_not t.seen x) [
          | inl k ↦ inl ((v.holes x).1 (inr (k, n, h)))
          | inr k ↦ inr (a, k, h)
        ]
      ]),
    );
  }
