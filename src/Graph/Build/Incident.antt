-- ===== src/Graph/Build/Incident.antt =====
-- What g.incident holds after the loop over the edges.
use kgraph.Base.{
  Str, ◌≡◌, sym, subst, ◌↔◌, ◌⊎◌, inl, inr, Bool, true, ◌&&◌, if◌then◌else◌, List, [], ◌∷◌, In,
  in-append, str_eq, str_eq_iff, Bool-cases,
}
use kgraph.Model.{Edge}
use kgraph.Graph.{add_incident, index_edges}

in-add_incident :
    (inc : Str → List Edge) (k : Str) (e a : Edge) (id : Str)
    → In a (add_incident inc k e id) ↔ (In a (inc id) ⊎ ((a ≡ e) × (k ≡ id)))
unfolding add_incident
in-add_incident inc k e a id = elim (Bool-cases (str_eq k id)) [
  | inl p ↦
      let q = (str_eq_iff k id).0 p in
      rw (p, add_incident)
        (
          λ i. elim ((in-append a (inc id) (e ∷ [])).0 i) [
            | inl j ↦ inl j
            | inr j ↦ elim j [ inl r ↦ inr (r, q) | inr x ↦ absurd x ]
          ],
          λ h. (in-append a (inc id) (e ∷ [])).1 (elim h [ inl j ↦ inl j | inr r ↦ inr (inl r.0) ]),
        )
  | inr p ↦
      rw (p, add_incident) (inl, λ h. elim h [ inl j ↦ j | inr r ↦ cc ((str_eq_iff k id).1 r.1) ])
]

-- The edges that touch a node, among those whose ends are known.
abbrev pub Touches : (Str → Bool) → Str → Edge → Type 0
Touches known id e = (known e.src ≡ true) × (known e.dst ≡ true) × ((e.src ≡ id) ⊎ (e.dst ≡ id))

step :
    (known : Str → Bool) (inc : Str → List Edge) (e a : Edge) (id : Str)
    → In a (
        (if known e.src && known e.dst
            then add_incident (add_incident inc e.src e) e.dst e
            else inc)
          id)
      ↔ (In a (inc id) ⊎ ((a ≡ e) × Touches known id e))
step known inc e a id = elim (Bool-cases (known e.src)) [
  | inr p ↦ rw p (inl, λ h. elim h [ inl j ↦ j | inr r ↦ cc (p, r.1.0) ])
  | inl p ↦ elim (Bool-cases (known e.dst)) [
    | inr q ↦ rw (p, q) (inl, λ h. elim h [ inl j ↦ j | inr r ↦ cc (q, r.1.1) ])
    | inl q ↦
        subst
          (λ (f : Str → List Edge). In a (f id) ↔ (In a (inc id) ⊎ ((a ≡ e) × Touches known id e)))
          (sym (taken p q)) (both p q)
  ]
]
  where
    taken :
        known e.src ≡ true
        → known e.dst ≡ true
        → (if known e.src && known e.dst
            then add_incident (add_incident inc e.src e) e.dst e
            else inc)
          ≡ add_incident (add_incident inc e.src e) e.dst e
    taken p q = rw (p, q)

    both :
        known e.src ≡ true
        → known e.dst ≡ true
        → In a (add_incident (add_incident inc e.src e) e.dst e id)
          ↔ (In a (inc id) ⊎ ((a ≡ e) × Touches known id e))
    both p q =
        let one = in-add_incident inc e.src e a id in
        let two = in-add_incident (add_incident inc e.src e) e.dst e a id in
        (
          λ i. elim (two.0 i) [
            | inr r ↦ inr (r.0, (p, q, inr r.1))
            | inl j ↦ elim (one.0 j) [ inl k ↦ inl k | inr r ↦ inr (r.0, (p, q, inl r.1)) ]
          ],
          λ h. elim h [
            | inl k ↦ two.1 (inl (one.1 (inl k)))
            | inr r ↦ elim r.1.2 [
              | inl s ↦ two.1 (inl (one.1 (inr (r.0, s))))
              | inr d ↦ two.1 (inr (r.0, d))
            ]
          ],
        )

in-index_edges-from :
    (known : Str → Bool) (inc : Str → List Edge) (es : List Edge) (a : Edge) (id : Str)
    → In a (index_edges known inc es id) ↔ (In a (inc id) ⊎ (In a es × Touches known id a))
unfolding index_edges
in-index_edges-from known inc [] a id = (inl, λ h. elim h [ inl i ↦ i | inr r ↦ absurd r.0 ])
in-index_edges-from known inc (e ∷ es) a id =
    let next : Str → List Edge =
      if known e.src && known e.dst then add_incident (add_incident inc e.src e) e.dst e else inc in
    let rest = in-index_edges-from known next es a id in
    let now = step known inc e a id in
    (
      λ i. elim (rest.0 i) [
        | inr r ↦ inr (inr r.0, r.1)
        | inl j ↦ elim (now.0 j) [
          | inl k ↦ inl k
          | inr r ↦ inr (inl r.0, subst (Touches known id) (sym r.0) r.1)
        ]
      ],
      λ h. rest.1 (elim h [
        | inl k ↦ inl (now.1 (inl k))
        | inr r ↦ elim r.0 [
          | inl q ↦ inl (now.1 (inr (q, subst (Touches known id) q r.1)))
          | inr j ↦ inr (j, r.1)
        ]
      ]),
    )

-- A node's list holds exactly the edges that touch it and have both ends in the graph.
pub in-index_edges :
    (known : Str → Bool) (es : List Edge) (a : Edge) (id : Str)
    → In a (index_edges known (λ _. []) es id) ↔ (In a es × Touches known id a)
in-index_edges known es a id =
    let all = in-index_edges-from known (λ _. []) es a id in
    (λ i. elim (all.0 i) [ inl x ↦ absurd x | inr r ↦ r ], λ r. all.1 (inr r))
