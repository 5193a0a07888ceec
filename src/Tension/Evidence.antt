-- ===== src/Tension/Evidence.antt =====
-- The evidence that impeachment of conflict.go looks at: who attests a claim, and the weaker and the
-- stronger of two such sources.
use mathlib.Core.Option.{some_inj}
use kgraph.Base.{
  Str, subst, ℕ, ◌<◌, ◌≤◌, ◌≡◌, refl, sym, ap, ◌∙◌, ◌⊎◌, inl, inr, Bool, true, false, if◌then◌else◌,
  Option, none, some, List, [], ◌∷◌, arith, In, ltb, ltb→lt, is_empty, str_eq, str_eq_iff, ◌&&◌,
  Bool-cases, Option-cases,
}
use kgraph.Model.{Node, Edge, Source, type_eq, attests}
use kgraph.Time.{Floats}
use kgraph.Graph.{Graph, node_at}
use kgraph.Dialect.{legal, rank_of}
use kgraph.Tension.{beaten_by, rank_behind, weaker, vouches, ranked, with_speaker, source_at}

-- What is known of an accumulator of the claims that beat a rank: it is empty, or its class and rank
-- are such a pair, and the rank is above.
abbrev pub Beats : (Str → ℕ → Type 0) → ℕ → List Str × ℕ × Str → Type 0
Beats P best acc = ((acc.0 ≡ []) × (acc.1 ≡ best)) ⊎ (P acc.2 acc.1 × (best < acc.1))

pub beaten_by-Beats :
    (P : Str → ℕ → Type 0) (best : ℕ) (other : Str) (o : Option (ℕ × Str)) (by : List Str)
    (beat : ℕ) (class : Str)
    → ((r : ℕ) (c : Str) → o ≡ some (r, c) → P c r)
    → Beats P best (by, beat, class)
    → Beats P best (beaten_by best other o (by, beat, class))
unfolding beaten_by
beaten_by-Beats P best other none by beat class k h = h
beaten_by-Beats P best other (some (r, c)) by beat class k h =
    go (ltb best r) (ltb beat r) refl refl
  where
    go :
        (p q : Bool)
        → ltb best r ≡ p
        → ltb beat r ≡ q
        → Beats P best (
            if p
            then if q then (other ∷ by, r, c) else (other ∷ by, beat, class)
            else (by, beat, class))
    go true true p q = inr (k r c refl, ltb→lt best r p)
    go true false p q = elim h [
      | inl (e, f) ↦ cc (sym p ∙ ap (λ z. ltb z r) (sym f) ∙ q)
      | inr w ↦ inr w
    ]
    go false true p q = h
    go false false p q = h

-- The best source so far is such a source, with its rank.
abbrev pub IsSupport : (ℕ → Source → Type 0) → Option (ℕ × Source) → Type 0
IsSupport P none = Unit
IsSupport P (some (r, s)) = P r s

-- Something is held, at this rank or below it.
abbrev pub AtMost : ℕ → Option (ℕ × Source) → Type 0
AtMost k none = ⊥
AtMost k (some (r, s)) = r ≤ k

module _ (s : Source) (r : ℕ) (q : rank_of legal s.class ≡ some r) where
  weaker-first : weaker (some s) none ≡ some (r, s)
  unfolding weaker
  weaker-first = rw (q, weaker)

  weaker-next :
      (b : ℕ) (t : Source)
      → weaker (some s) (some (b, t)) ≡ (if ltb r b then some (r, s) else some (b, t))
  unfolding weaker
  weaker-next b t = rw (q, weaker)

  pub weaker-AtMost : (best : Option (ℕ × Source)) → AtMost r (weaker (some s) best)
  weaker-AtMost none = subst (AtMost r) (sym weaker-first) (omega arith)
  weaker-AtMost (some (b, t)) =
      subst (AtMost r) (sym (weaker-next b t))
        (elim (Bool-cases (ltb r b)) [ inl l ↦ rw l (omega arith) | inr l ↦ rw l (ground arith) ])

weaker-unranked :
    (s : Source) (best : Option (ℕ × Source))
    → rank_of legal s.class ≡ none
    → weaker (some s) best ≡ best
unfolding weaker
weaker-unranked s best q = rw (q, weaker)

pub weaker-IsSupport :
    (P : ℕ → Source → Type 0) (o : Option Source) (best : Option (ℕ × Source))
    → ((r : ℕ) (s : Source) → o ≡ some s → rank_of legal s.class ≡ some r → P r s)
    → IsSupport P best
    → IsSupport P (weaker o best)
unfolding weaker
weaker-IsSupport P none best k h = h
weaker-IsSupport P (some s) best k h = elim (Option-cases (rank_of legal s.class)) [
  | inl q ↦ subst (IsSupport P) (sym (weaker-unranked s best q)) h
  | inr (r, q) ↦ ranked_in r q best h
]
  where
    ranked_in :
        (r : ℕ)
        → rank_of legal s.class ≡ some r
        → (b : Option (ℕ × Source)) → IsSupport P b
        → IsSupport P (weaker (some s) b)
    ranked_in r q none j = subst (IsSupport P) (sym (weaker-first s r q)) (k r s refl q)
    ranked_in r q (some (b, t)) j =
        subst (IsSupport P) (sym (weaker-next s r q b t))
          (elim (Bool-cases (ltb r b)) [ inl l ↦ rw l (k r s refl q) | inr l ↦ rw l j ])

-- What is held stays at or below a rank.
pub weaker-stays :
    (k : ℕ) (o : Option Source) (best : Option (ℕ × Source))
    → AtMost k best
    → AtMost k (weaker o best)
unfolding weaker
weaker-stays k none best h = h
weaker-stays k (some s) none h = absurd h
weaker-stays k (some s) (some (b, t)) h = elim (Option-cases (rank_of legal s.class)) [
  | inl q ↦ subst (AtMost k) (sym (weaker-unranked s (some (b, t)) q)) h
  | inr (r, q) ↦ subst (AtMost k) (sym (weaker-next s r q b t)) (elim (Bool-cases (ltb r b)) [
    | inl l ↦ rw l (omega (arith, h, ltb→lt r b l))
    | inr l ↦ rw l h
  ])
]

module _ (fl : Floats) (live : Edge → Bool) (g : Graph) where
  -- A live edge that attests `id`, from a node whose source is `s`.
  abbrev pub Attests : Str → Edge → Source → Type 0
  Attests id e s =
      (type_eq e.type attests ≡ true)
      × (e.dst ≡ id)
      × (live e ≡ true)
      × ((n : Node) × (node_at g e.src ≡ some n) × (n.provenance ≡ some s))

  -- Such an edge among those of `id`, from a source with a speaker.
  abbrev pub SpeaksFor : Str → Edge → Source → Type 0
  SpeaksFor id e s = In e (g.incident id) × Attests id e s × (is_empty s.speaker ≡ false)

  source_at-node :
      (id : Str) (s : Source)
      → source_at fl live g id ≡ some s
      → (n : Node) × (node_at g id ≡ some n) × (n.provenance ≡ some s)
  unfolding source_at
  source_at-node id s h = elim (Option-cases (node_at g id)) [
    | inl p ↦ cc (rw (p, source_at) at h)
    | inr (n, p) ↦ (n, p, rw (p, source_at) at h)
  ]

  attested :
      (id : Str) (e : Edge) (s : Source)
      → (type_eq e.type attests && str_eq e.dst id && live e) ≡ true
      → source_at fl live g e.src ≡ some s
      → Attests id e s
  attested id e s h p =
      (ground arith, (str_eq_iff e.dst id).0 (ground arith), ground arith, source_at-node e.src s p)

  pub vouches-SpeaksFor :
      (id : Str) (e : Edge) (s : Source)
      → vouches fl live g id e ≡ some s
      → Attests id e s × (is_empty s.speaker ≡ false)
  unfolding vouches with_speaker
  vouches-SpeaksFor id e s h =
      elim (Bool-cases (type_eq e.type attests && str_eq e.dst id && live e)) [
        | inr p ↦ cc (rw (p, vouches) at h)
        | inl p ↦ elim (Option-cases (source_at fl live g e.src)) [
          | inl q ↦ cc (rw (p, q, vouches) at h)
          | inr (t, q) ↦ elim (Bool-cases (is_empty t.speaker)) [
            | inl u ↦ cc (rw (p, q, u, vouches) at h)
            | inr u ↦
                let same : t ≡ s = some_inj.0 (rw (p, q, u, vouches) at h) in
                subst (λ x. Attests id e x × (is_empty x.speaker ≡ false)) same
                  (attested id e t p q, u)
          ]
        ]
      ]

  pub SpeaksFor-vouches :
      (id : Str) (e : Edge) (s : Source)
      → Attests id e s
      → is_empty s.speaker ≡ false
      → vouches fl live g id e ≡ some s
  unfolding vouches with_speaker source_at
  SpeaksFor-vouches id e s (t, d, l, (n, p, q)) u =
      rw (t, (str_eq_iff e.dst id).1 d, l, source_at, p, q, with_speaker, u)

  pub rank_behind-Attests :
      (id : Str) (e : Edge) (r : ℕ) (c : Str)
      → rank_behind fl live g id e ≡ some (r, c)
      → (s : Source) × Attests id e s × (s.class ≡ c) × (rank_of legal s.class ≡ some r)
  unfolding rank_behind ranked
  rank_behind-Attests id e r c h =
      elim (Bool-cases (type_eq e.type attests && str_eq e.dst id && live e)) [
        | inr p ↦ cc (rw (p, rank_behind) at h)
        | inl p ↦ elim (Option-cases (source_at fl live g e.src)) [
          | inl q ↦ cc (rw (p, q, rank_behind) at h)
          | inr (t, q) ↦ elim (Option-cases (rank_of legal t.class)) [
            | inl u ↦ cc (rw (p, q, u, rank_behind, ranked) at h)
            | inr (k, u) ↦
                let same : (k, t.class) ≡ (r, c) =
                  some_inj.0 (rw (p, q, u, rank_behind, ranked) at h) in
                (
                  t,
                  attested id e t p q,
                  ap (λ (x : ℕ × Str). x.1) same,
                  u ∙ ap (λ (x : ℕ × Str). some x.0) same,
                )
          ]
        ]
      ]
