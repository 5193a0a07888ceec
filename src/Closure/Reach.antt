-- ===== src/Closure/Reach.antt =====
-- The closure of a hop holds exactly the ids that a walk of one or more hops leads to.
use kgraph.Base.{
  Str, ℕ, zero, suc, ◌≡◌, refl, sym, subst, ◌⊎◌, inl, inr, Bool, true, false, some, List, [], ◌∷◌,
  ◌++◌, In, in-append, has, has_iff, not_in-has, Bool-cases, NoRepeat,
}
use mathlib.Core.Option.{some_inj}
use kgraph.Model.{Edge}
use kgraph.Graph.{Graph}
use kgraph.Closure.{Hop, step, drain}

module _ (live : Edge → Bool) (g : Graph) (h : Hop) where
  -- A walk of one or more hops.
  pub data Walk (from : Str) : Str → Type 0 where
    one : {to : Str} → In to (step live g h from) → Walk from to
    more : {mid to : Str} → Walk from mid → In to (step live g h mid) → Walk from to

  module _ (from : Str) where
    record Inv (out queue : List Str) : Type 0 where
      sound_out : (x : Str) → In x out → Walk from x
      sound_queue : (x : Str) → In x queue → Walk from x
      started : (x : Str) → In x (step live g h from) → In x out ⊎ In x queue
      closed : (x y : Str) → In x out → In y (step live g h x) → In y out ⊎ In y queue
      distinct : NoRepeat out

    Inv-skip :
        (out queue : List Str) (id : Str) → has out id ≡ true → Inv out (id ∷ queue) → Inv out queue
    Inv-skip out queue id s v = record {
      sound_out = v.sound_out;
      sound_queue = λ x i. v.sound_queue x (inr i);
      started = λ x i. seen_before x (v.started x i);
      closed = λ x y i j. seen_before y (v.closed x y i j);
      distinct = v.distinct;
    }
      where
        seen_before : (x : Str) → In x out ⊎ In x (id ∷ queue) → In x out ⊎ In x queue
        seen_before x (inl i) = inl i
        seen_before x (inr (inl e)) = inl (subst (λ y. In y out) (sym e) ((has_iff out id).0 s))
        seen_before x (inr (inr i)) = inr i

    NoRepeat-concat : (xs : List Str) (x : Str) → NoRepeat xs → ¬ In x xs → NoRepeat (xs ++ x ∷ [])
    NoRepeat-concat [] x u n = ((λ i. i), tt)
    NoRepeat-concat (y ∷ ys) x u n = (
      λ i. elim ((in-append y ys (x ∷ [])).0 i) [
        | inl j ↦ u.0 j
        | inr j ↦ elim j [ inl e ↦ n (inl (sym e)) | inr k ↦ k ]
      ],
      NoRepeat-concat ys x u.1 (λ i. n (inr i)),
    )

    Inv-visit :
        (out queue : List Str) (id : Str)
        → has out id ≡ false
        → Inv out (id ∷ queue)
        → Inv (out ++ id ∷ []) (queue ++ step live g h id)
    Inv-visit out queue id s v = record {
      sound_out = λ x i. elim ((in-append x out (id ∷ [])).0 i) [
        | inl j ↦ v.sound_out x j
        | inr j ↦ v.sound_queue x (elim j [ inl e ↦ inl e | inr k ↦ absurd k ])
      ];
      sound_queue = λ x i. elim ((in-append x queue (step live g h id)).0 i) [
        | inl j ↦ v.sound_queue x (inr j)
        | inr j ↦ more (v.sound_queue id (inl refl)) j
      ];
      started = λ x i. moved x (v.started x i);
      closed = λ x y i j. elim ((in-append x out (id ∷ [])).0 i) [
        | inl k ↦ moved y (v.closed x y k j)
        | inr k ↦ elim k [
          | inl e ↦ inr (
              (in-append y queue (step live g h id)).1
                (inr (subst (λ z. In y (step live g h z)) e j)))
          | inr a ↦ absurd a
        ]
      ];
      distinct = NoRepeat-concat out id v.distinct (not_in-has out id s);
    }
      where
        moved :
            (x : Str)
            → In x out ⊎ In x (id ∷ queue)
            → In x (out ++ id ∷ []) ⊎ In x (queue ++ step live g h id)
        moved x (inl i) = inl ((in-append x out (id ∷ [])).1 (inl i))
        moved x (inr (inl e)) = inl ((in-append x out (id ∷ [])).1 (inr (inl e)))
        moved x (inr (inr i)) = inr ((in-append x queue (step live g h id)).1 (inl i))

    Inv-drain :
        (fuel : ℕ) (out queue res : List Str)
        → Inv out queue
        → drain live g fuel h out queue ≡ some res
        → Inv res []
    unfolding drain
    Inv-drain zero out [] res v e = subst (λ r. Inv r []) (some_inj.0 e) v
    Inv-drain zero out (id ∷ queue) res v e = cc
    Inv-drain (suc fuel) out [] res v e = subst (λ r. Inv r []) (some_inj.0 e) v
    Inv-drain (suc fuel) out (id ∷ queue) res v e = elim (Bool-cases (has out id)) [
      | inl s ↦ Inv-drain fuel out queue res (Inv-skip out queue id s v) (rw (s, drain) at e)
      | inr s ↦
          Inv-drain fuel (out ++ id ∷ []) (queue ++ step live g h id) res
            (Inv-visit out queue id s v) (rw (s, drain) at e)
    ]

    complete : (res : List Str) → Inv res [] → {to : Str} → Walk from to → In to res
    complete res v (one i) = elim (v.started _ i) [ inl j ↦ j | inr a ↦ absurd a ]
    complete res v (more w i) = elim (v.closed _ _ (complete res v w) i) [
      | inl j ↦ j
      | inr a ↦ absurd a
    ]

    Inv-start : Inv [] (step live g h from)
    Inv-start = record {
      sound_out = λ x i. absurd i;
      sound_queue = λ x i. one i;
      started = λ x i. inr i;
      closed = λ x y i j. absurd i;
      distinct = tt;
    }

    -- What a run of the loop returns is what the walks reach, each id once.
    pub drain_exact :
        (fuel : ℕ) (res : List Str)
        → drain live g fuel h [] (step live g h from) ≡ some res
        → NoRepeat res × ((to : Str) → (In to res → Walk from to) × (Walk from to → In to res))
    drain_exact fuel res e =
        let v = Inv-drain fuel [] (step live g h from) res Inv-start e in
        (v.distinct, λ to. (v.sound_out to, λ w. complete res v w))
