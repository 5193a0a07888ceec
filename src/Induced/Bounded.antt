-- ===== src/Induced/Bounded.antt =====
-- How much Induced of conflict.go keeps.
use kgraph.Base.{
  Str, ℕ, zero, suc, ◌≤◌, ◌≡◌, refl, sym, subst, ◌⊎◌, inl, inr, true, false, not, ◌||◌, List, [],
  ◌∷◌, arith, length, has, not_in-has, str_eq, ltb, leb, In, NoRepeat, Bool-cases,
}
use kgraph.Model.{Edge}
use kgraph.Graph.{Graph, has_node}
use kgraph.Values.{Signed}
use kgraph.Induced.{
  Reached, depth_of, limit_of, add_match, start_from, add_side, add_edges, add_frontier, rounds,
  induced_ids,
}

module _ (g : Graph) where
  -- Each kept id is a node of the graph, and stands once.
  abbrev pub AreNodes : List Str → Type 0
  AreNodes kept = NoRepeat kept × ((id : Str) → In id kept → has_node g id ≡ true)

  AreNodes-more :
      (id : Str) (kept : List Str)
      → has kept id ≡ false
      → has_node g id ≡ true
      → AreNodes kept
      → AreNodes (id ∷ kept)
  AreNodes-more id kept n h (u, w) = (
    (not_in-has kept id n, u),
    λ k i. elim i [ inl e ↦ subst (λ x. has_node g x ≡ true) (sym e) h | inr j ↦ w k j ],
  )

  add_match-AreNodes :
      (id : Str) (st : Reached) → AreNodes st.kept → AreNodes (add_match g id st).kept
  unfolding add_match
  add_match-AreNodes id st h = elim (Bool-cases (has_node g id)) [
    | inr n ↦ rw (n, add_match) h
    | inl n ↦ elim (Bool-cases (has st.kept id)) [
      | inl e ↦ rw (n, e, add_match) h
      | inr e ↦ rw (n, e, add_match) (AreNodes-more id st.kept e n h)
    ]
  ]

  start_from-AreNodes :
      (ids : List Str) (st : Reached) → AreNodes st.kept → AreNodes (start_from g ids st).kept
  unfolding start_from
  start_from-AreNodes [] st h = h
  start_from-AreNodes (id ∷ ids) st h =
      start_from-AreNodes ids (add_match g id st) (add_match-AreNodes id st h)

  -- The nodes are kept, and there are no more than the limit.
  abbrev Held : ℕ → List Str → Type 0
  Held limit kept = AreNodes kept × (length kept ≤ limit)

  add_side-Held :
      (limit : ℕ) (id side : Str) (st : Reached)
      → Held limit st.kept
      → Held limit (add_side g limit id side st).kept
  unfolding add_side
  add_side-Held limit id side st h =
      elim (Bool-cases (
        str_eq side id
        || has st.kept side
        || not (has_node g side)
        || leb limit (length st.kept))) [
          | inl e ↦ rw e h
          | inr e ↦
              rw e (AreNodes-more side st.kept (ground arith) (ground arith) h.0, ground arith)
        ]

  add_edges-Held :
      (limit : ℕ) (id : Str) (es : List Edge) (st : Reached)
      → Held limit st.kept
      → Held limit (add_edges g limit id es st).kept
  unfolding add_edges
  add_edges-Held limit id [] st h = h
  add_edges-Held limit id (e ∷ es) st h =
      add_edges-Held limit id es (add_side g limit id e.dst (add_side g limit id e.src st)) (
        add_side-Held limit id e.dst (add_side g limit id e.src st)
          (add_side-Held limit id e.src st h))

  add_frontier-Held :
      (limit : ℕ) (ids : List Str) (st : Reached)
      → Held limit st.kept
      → Held limit (add_frontier g limit ids st).kept
  unfolding add_frontier
  add_frontier-Held limit [] st h = h
  add_frontier-Held limit (id ∷ ids) st h =
      add_frontier-Held limit ids (add_edges g limit id (g.incident id) st)
        (add_edges-Held limit id (g.incident id) st h)

  rounds-Held :
      (limit depth : ℕ) (st : Reached) → Held limit st.kept → Held limit (rounds g limit depth st)
  unfolding rounds
  rounds-Held limit zero st h = h
  rounds-Held limit (suc depth) st h = elim (Bool-cases (ltb (length st.kept) limit)) [
    | inr e ↦ rw e h
    | inl e ↦ rw e (
        rounds-Held limit depth
          (add_frontier g limit st.next (record { kept = st.kept; next = [] }))
          (add_frontier-Held limit st.next (record { kept = st.kept; next = [] }) h))
  ]

  -- Where there are more matches than the limit, no round is run.
  rounds_full :
      (limit depth : ℕ) (st : Reached)
      → ltb (length st.kept) limit ≡ false
      → rounds g limit depth st ≡ st.kept
  unfolding rounds
  rounds_full limit zero st e = refl
  rounds_full limit (suc depth) st e = rw e

  -- Induced shows nodes of the graph, each once, and no more of them than the limit; only where the
  -- matched nodes alone are more than that does it show more, and then it shows just these.
  pub induced_ids-AreNodes :
      (ids : List Str) (depth limit : Signed)
      → AreNodes (induced_ids g ids depth limit)
        × ((length (induced_ids g ids depth limit) ≤ limit_of limit)
            ⊎ (induced_ids g ids depth limit
                ≡ (start_from g ids (record { kept = []; next = [] })).kept))
  unfolding induced_ids
  induced_ids-AreNodes ids depth limit =
      let st = start_from g ids (record { kept = []; next = [] }) in
      let nodes =
        start_from-AreNodes ids (record { kept = []; next = [] }) (tt, λ id i. absurd i) in
      elim (Bool-cases (ltb (length st.kept) (limit_of limit))) [
        | inl e ↦
            let (a, b) = rounds-Held (limit_of limit) (depth_of depth) st (nodes, ground arith) in
            (a, inl b)
        | inr e ↦
            let full = rounds_full (limit_of limit) (depth_of depth) st e in
            (subst AreNodes (sym full) nodes, inr full)
      ]
