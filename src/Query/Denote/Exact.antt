-- ===== src/Query/Denote/Exact.antt =====
-- Eval of eval.go finds what the query denotes.
use kgraph.Base.{
  Str, ℕ, zero, suc, length, ◌≡◌, refl, sym, ap, subst, ◌∙◌, ◌↔◌, ◌⊎◌, inl, inr, Bool, true, false,
  not, ◌&&◌, if◌then◌else◌, Option, none, some, List, [], ◌∷◌, ◌++◌, In, in-append, in-keep,
  in-sort_by, in-keys_of, in-keys_of-value, has, has_iff, not_in-has, Bool-cases, Option-cases,
  find_key, keys_of, is_empty,
}
use mathlib.Core.Option.{some_inj}
use kgraph.Model.{Node}
use kgraph.Time.{Floats}
use kgraph.Graph.{Graph}
use kgraph.Values.{Numbers, Calendar}
use kgraph.Query.{
  Query, Queries, no_queries, more, union_of, inter_of, complement, named, matching, scoped,
  Temporal, SortKey, Atom, Pattern,
}
use kgraph.Query.Field.{match_atom}
use kgraph.Query.Eval.{
  Result, found, and_then, or_crash, select, Env, keys, to_set, resolve_at_for, inherited,
  window_of, meet, sort_ids, walk, in_window, resolve_atoms, binds, eval_pattern, others, eval,
  eval_union, eval_inter, follow, eval_under, eval_query,
}
use kgraph.Query.Denote.{Follows, Selects, Denotes, AllDenote, SomeDenotes, Means}
use kgraph.Query.Denote.Paths.{
  and_then-found, found_inj, or_crash-found, in-keys, in-to_set, select-exact, select-asked,
  walk-exact,
}

-- A set that a computation finds.
abbrev pub Finds : Result (List Str) → (Str → Type 0) → Type 0
Finds r P = (ids : List Str) → r ≡ found ids → (id : Str) → In id ids ↔ P id

Finds-map :
    {P Q : Str → Type 0} (r : Result (List Str)) (f : List Str → List Str)
    → Finds r P
    → ((ids : List Str) → ((id : Str) → In id ids ↔ P id) → (id : Str) → In id (f ids) ↔ Q id)
    → Finds (and_then r (λ ids. found (f ids))) Q
Finds-map {Q = Q} r f h k ids e id =
    let (xs, p, q) = and_then-found r _ ids e in
    subst (λ l. In id l ↔ Q id) (found_inj (f xs) ids q) (k xs (h xs p) id)

module _ (fl : Floats) (num : Numbers) (cal : Calendar) (lower : Str → Str) (sat : Str → Str → Bool)
    (g : Graph) where
  -- The pattern binds the node of the pair.
  abbrev pub Binds : Atom → List Atom → Pattern → Str → Str → Str → Node → Type 0
  Binds a later p at now id n =
      (match_atom fl num cal lower sat g a n at now ≡ some true)
      × (in_window fl num cal lower sat g (window_of p.at) id ≡ true)
      × Follows fl num cal lower sat g p.hops later at now id

  -- The same for the first of the atoms.
  abbrev pub BindsFirst : List Atom → Pattern → Str → Str → Str → Node → Type 0
  BindsFirst [] p at now id n = ⊥
  BindsFirst (a ∷ later) p at now id n = Binds a later p at now id n

  binds-exact :
      (a : Atom) (later : List Atom) (p : Pattern) (at now id : Str) (n : Node) (r : Bool)
      → binds fl num cal lower sat g (a ∷ later) p at now (id, n) ≡ found r
      → (r ≡ true) ↔ Binds a later p at now id n
  unfolding binds
  binds-exact a later p at now id n r e =
      let (b, m, e1) =
        and_then-found (or_crash (match_atom fl num cal lower sat g a n at now)) _ r e in
      split b (or_crash-found _ b m) e1
    where
      split :
          (b : Bool)
          → match_atom fl num cal lower sat g a n at now ≡ some b
          → (if b && in_window fl num cal lower sat g (window_of p.at) id
              then walk fl num cal lower sat g p.hops later at now (id ∷ [])
              else found false)
            ≡ found r
          → (r ≡ true) ↔ Binds a later p at now id n
      split false m q = (λ t. cc (found_inj false r q, t), λ w. cc (some_inj.0 (sym m ∙ w.0)))
      split true m q = elim (Bool-cases (in_window fl num cal lower sat g (window_of p.at) id)) [
        | inr w ↦ (λ t. cc (found_inj false r (rw w at q), t), λ v. cc (w, v.1))
        | inl w ↦
            let path =
              walk-exact fl num cal lower sat g p.hops later at now (id ∷ []) r id (inl refl)
                (rw w at q) in
            (
              λ t.
                  let (x, i, f) = path.0 t in
                  (
                    m,
                    w,
                    elim i [
                      | inl s ↦
                          subst (λ y. Follows fl num cal lower sat g p.hops later at now y) s f
                      | inr j ↦ absurd j
                    ],
                  ),
              λ v. path.1 (id, inl refl, v.2),
            )
      ]

  sort_ids-in :
      (ids : List Str) (ks : List SortKey) (at id : Str)
      → In id (sort_ids fl num cal lower sat g ids ks at) ↔ In id ids
  unfolding sort_ids
  sort_ids-in ids ks at id = in-sort_by _ id ids

  -- The pairs that the loop over the nodes collects.
  collected :
      (env : Env) (p : Pattern) (atoms : List Atom) (hits : List (Str × Node))
      → resolve_atoms fl num cal lower sat g p.atoms (resolve_at_for p.at env) ≡ found atoms
      → select (binds fl num cal lower sat g atoms p (resolve_at_for p.at env) env.now) g.nodes
        ≡ found hits
      → (id : Str) → In id (keys_of hits) ↔ Selects fl num cal lower sat g env p id
  unfolding binds
  collected env p [] hits r s id = (
    λ i.
        let (n, j) = in-keys_of-value hits id i in
        let (k, c) =
          (select-exact (binds fl num cal lower sat g [] p (resolve_at_for p.at env) env.now)
              g.nodes hits s (id, n)).0
            j in
        cc c,
    λ w. let (a, later, n, q, k, m, v, path) = w in cc (found_inj [] (a ∷ later) (sym r ∙ q)),
  )
  collected env p (a ∷ later) hits r s id = (
    λ i.
        let (n, j) = in-keys_of-value hits id i in
        let (k, c) = (select-exact _ g.nodes hits s (id, n)).0 j in
        let (m, w, f) = (binds-exact a later p _ env.now id n true c).0 refl in
        (a, later, n, r, k, m, w, f),
    λ v.
        let (b, later_, n, r_, k, m, w, path) = v in
        let (c, q) = select-asked _ g.nodes hits s (id, n) k in
        let first : Binds a later p (resolve_at_for p.at env) env.now id n =
          subst (λ l. BindsFirst l p (resolve_at_for p.at env) env.now id n)
            (found_inj (b ∷ later_) (a ∷ later) (sym r_ ∙ r)) (m, w, path) in
        let t = (binds-exact a later p _ env.now id n c q).1 first in
        in-keys_of hits id n ((select-exact _ g.nodes hits s (id, n)).1 (k, q ∙ ap found t)),
  )

  eval_pattern-exact :
      (env : Env) (p : Pattern)
      → Finds (eval_pattern fl num cal lower sat g env p) (Selects fl num cal lower sat g env p)
  unfolding eval_pattern
  eval_pattern-exact env p ids e id =
      let (atoms, r, e1) =
        and_then-found (resolve_atoms fl num cal lower sat g p.atoms (resolve_at_for p.at env)) _
          ids e in
      let (hits, s, e2) =
        and_then-found
          (select (binds fl num cal lower sat g atoms p (resolve_at_for p.at env) env.now) g.nodes)
          _ ids e1 in
      let here = collected env p atoms hits r s id in
      let sorted = sort_ids-in (keys_of hits) p.sort (resolve_at_for p.at env) id in
      subst (λ l. In id l ↔ Selects fl num cal lower sat g env p id) (found_inj _ ids e2)
        (λ i. here.0 (sorted.0 i), λ w. sorted.1 (here.1 w))

  in-others :
      (excl : List Str) (id : Str)
      → In id (others fl num cal lower sat g excl) ↔ (In id (keys_of g.nodes) × (¬ In id excl))
  unfolding others
  in-others excl id =
      let kept = in-keep (λ x. not (has excl x)) id (keys_of g.nodes) in
      (
        λ i. let (k, n) = kept.0 i in (k, not_in-has excl id (not-true n)),
        λ w. kept.1 (
          w.0,
          elim (Bool-cases (has excl id)) [
            | inl h ↦ absurd (w.1 ((has_iff excl id).0 h))
            | inr h ↦ rw h
          ],
        ),
      )
    where
      not-true : not (has excl id) ≡ true → has excl id ≡ false
      not-true n = elim (Bool-cases (has excl id)) [ inl h ↦ cc (h, n) | inr h ↦ h ]

  in-meet : (acc ids : List Str) (id : Str) → In id (meet (some acc) ids) ↔ (In id acc × In id ids)
  unfolding meet
  in-meet acc ids id =
      let kept = in-keep (λ x. has ids x) id acc in
      (
        λ i. let (k, n) = kept.0 i in (k, (has_iff ids id).0 n),
        λ w. kept.1 (w.0, (has_iff ids id).1 w.1),
      )

  in-if-sort_ids :
      (b : Bool) (ids : List Str) (ks : List SortKey) (at id : Str)
      → In id (if b then ids else sort_ids fl num cal lower sat g ids ks at) ↔ In id ids
  in-if-sort_ids true ids ks at id = (λ i. i, λ i. i)
  in-if-sort_ids false ids ks at id = sort_ids-in ids ks at id

  module _ (env : Env) (deref : Option Temporal → Str → Result (List Str))
      (Named : Option Temporal → Str → Str → Type 0)
      (named_exact : (at : Option Temporal) (name : Str)
        → Finds (deref at name) (Named at name)) where
    mutual
      unfolding eval Denotes meet and_then

      eval-exact :
          (outer : Option Temporal) (q : Query)
          → Finds
              (eval fl num cal lower sat g env deref outer q)
              (Denotes fl num cal lower sat g env Named outer q)
      eval-exact outer (scoped x at sort) =
          Finds-map (eval fl num cal lower sat g env deref (inherited at outer) x) _
            (eval-exact (inherited at outer) x)
            (λ ids h id.
              let same =
                in-if-sort_ids (is_empty sort) ids sort (resolve_at_for (inherited at outer) env)
                  id in
              (λ i. (h id).0 (same.0 i), λ w. same.1 ((h id).1 w)))
      eval-exact outer (matching p) =
          eval_pattern-exact env (record p { at = inherited p.at outer })
      eval-exact outer (named name) = named_exact outer name
      eval-exact outer (complement x) =
          Finds-map (eval fl num cal lower sat g env deref outer x) _ (eval-exact outer x)
            (λ ids h id. (
              λ i. let (k, n) = (in-others ids id).0 i in (k, λ d. n ((h id).1 d)),
              λ w. (in-others ids id).1 (w.0, λ i. w.1 ((h id).0 i)),
            ))
      eval-exact outer (inter_of no_queries) = λ ids e id.
          subst (λ l. In id l ↔ ⊥) (found_inj (keys []) ids e)
            (λ i. (in-keys id []).0 i, λ i. absurd i)
      eval-exact outer (inter_of (more q qs)) =
          Finds-map (eval_inter fl num cal lower sat g env deref outer none (more q qs)) keys
            (λ ids e id.
              let (xs, p, e1) =
                and_then-found (eval fl num cal lower sat g env deref outer q) _ ids e in
              let h = eval-exact outer q xs p id in
              let k = eval_inter-exact outer (to_set xs) qs ids e1 id in
              (
                λ i. let (j, w) = k.0 i in (h.0 ((in-to_set id xs).0 j), w),
                λ w. k.1 ((in-to_set id xs).1 (h.1 w.0), w.1),
              ))
            (λ ids h id.
              (λ i. (h id).0 ((in-keys id ids).0 i), λ w. (in-keys id ids).1 ((h id).1 w)))
      eval-exact outer (union_of qs) =
          Finds-map (eval_union fl num cal lower sat g env deref outer qs) keys
            (eval_union-exact outer qs)
            (λ ids h id.
              (λ i. (h id).0 ((in-keys id ids).0 i), λ w. (in-keys id ids).1 ((h id).1 w)))

      eval_union-exact :
          (outer : Option Temporal) (qs : Queries)
          → Finds
              (eval_union fl num cal lower sat g env deref outer qs)
              (SomeDenotes fl num cal lower sat g env Named outer qs)
      eval_union-exact outer no_queries ids e id =
          subst (λ l. In id l ↔ ⊥) (found_inj [] ids e) (λ i. i, λ i. i)
      eval_union-exact outer (more q qs) ids e id =
          let (xs, p, e1) =
            and_then-found (eval fl num cal lower sat g env deref outer q) _ ids e in
          let (ys, r, e2) =
            and_then-found (eval_union fl num cal lower sat g env deref outer qs) _ ids e1 in
          let h = eval-exact outer q xs p id in
          let k = eval_union-exact outer qs ys r id in
          subst
            (λ l. In id l ↔ (
              Denotes fl num cal lower sat g env Named outer q id
              ⊎ SomeDenotes fl num cal lower sat g env Named outer qs id))
            (found_inj (xs ++ ys) ids e2)
            (
              λ i. elim ((in-append id xs ys).0 i) [ inl j ↦ inl (h.0 j) | inr j ↦ inr (k.0 j) ],
              λ w. (in-append id xs ys).1 (elim w [ inl j ↦ inl (h.1 j) | inr j ↦ inr (k.1 j) ]),
            )

      eval_inter-exact :
          (outer : Option Temporal) (acc : List Str) (qs : Queries)
          → Finds
              (eval_inter fl num cal lower sat g env deref outer (some acc) qs)
              (λ id. In id acc × AllDenote fl num cal lower sat g env Named outer qs id)
      eval_inter-exact outer acc no_queries ids e id =
          subst (λ l. In id l ↔ (In id acc × Unit)) (found_inj acc ids e) (λ i. (i, tt), λ w. w.0)
      eval_inter-exact outer acc (more q qs) ids e id =
          let (xs, p, e1) =
            and_then-found (eval fl num cal lower sat g env deref outer q) _ ids e in
          let h = eval-exact outer q xs p id in
          let k = eval_inter-exact outer (meet (some acc) xs) qs ids e1 id in
          (
            λ i. let (j, w) = k.0 i in let (l, m) = (in-meet acc xs id).0 j in (l, (h.0 m, w)),
            λ w. let (l, rest) = w in k.1 ((in-meet acc xs id).1 (l, h.1 rest.0), rest.1),
          )

  eval_under-exact :
      (env : Env) (fuel : ℕ) (seen : List Str) (outer : Option Temporal) (q : Query)
      → Finds
          (eval_under fl num cal lower sat g env fuel seen outer q)
          (Means fl num cal lower sat g env fuel outer q)
  unfolding eval_under Means
  eval_under-exact env zero seen outer q = eval-exact env _ _ (λ at name ids e. cc e) outer q
  eval_under-exact env (suc fuel) seen outer q =
      eval-exact env _ _
        (λ at name. follow-exact at name (λ r. eval_under-exact env fuel (name ∷ seen) at r)) outer
        q
    where
      follow-exact :
          (at : Option Temporal) (name : Str)
          → ((r : Query)
              → Finds
                  (eval_under fl num cal lower sat g env fuel (name ∷ seen) at r)
                  (Means fl num cal lower sat g env fuel at r))
          → Finds
              (follow fl num cal lower sat g env
                (eval_under fl num cal lower sat g env fuel)
                seen
                at
                name)
              (λ x.
                (r : Query) × (find_key env.named name ≡ some r)
                × Means fl num cal lower sat g env fuel at r x)
      follow-exact at name rec ids e id = elim (Bool-cases (has seen name)) [
        | inl h ↦ cc (rw (h, follow) at e)
        | inr h ↦ elim (Option-cases (find_key env.named name)) [
          | inl p ↦ cc (rw (h, p, follow) at e)
          | inr (r, p) ↦
              let same = rec r ids (rw (h, p, follow) at e) id in
              (
                λ i. (r, p, same.0 i),
                λ w. same.1 (
                    subst (λ t. Means fl num cal lower sat g env fuel at t id)
                      (some_inj.0 (sym w.1 ∙ p)) w.2),
              )
        ]
      ]

  -- Where the evaluation of a query gives a result, the result holds exactly the ids of the set that
  -- the query denotes.
  pub eval_query-exact :
      (env : Env) (q : Query) (ids : List Str)
      → eval_query fl num cal lower sat g env q ≡ found ids
      → (id : Str) → In id ids ↔ Means fl num cal lower sat g env (suc (length env.named)) none q id
  unfolding eval_query
  eval_query-exact env q = eval_under-exact env (suc (length env.named)) [] none q
