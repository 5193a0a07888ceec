-- ===== src/Tension/Disputed.antt =====
-- When the evidence for a claim points both ways.
use kgraph.Base.{
  Str, is_empty, ℕ, ◌+◌, ◌<◌, ◌≡◌, refl, sym, ap, ◌∙◌, Bool, true, false, ◌&&◌, ◌||◌, if◌then◌else◌,
  Option, none, some, List, [], ◌∷◌, arith, ltb, ltb→lt, lt→ltb, keep, length,
}
use kgraph.Model.{
  Node, Edge, EdgeType, type_eq_sound, kind_eq, source, type_eq, contradicts, attests,
}
use kgraph.Time.{Floats}
use kgraph.Graph.{Graph, node_at}
use kgraph.Dialect.{legal, rank_of}
use kgraph.Tension.{
  Side, note, no_side, one_more, other_end, conflict, both_sides, weigh, weigh_all, speaks_for,
  source_against, claim_against, class_at, note_support, supports,
}

note-count : (class : Str) (s : Side) → (note class s).count ≡ s.count
unfolding note
note-count class s = go (rank_of legal class) s.rank
  where
    last :
        (b : Bool) (r : Option ℕ) (c : Str)
        → (if b then record s { rank = r; best = c } else s).count ≡ s.count
    last true r c = refl
    last false r c = refl

    go :
        (v : Option ℕ) (o : Option ℕ)
        → (elim v as (λ x. Side) [
          | none ↦ if is_empty s.best then record s { best = class } else s
          | some v ↦ elim o [
            | none ↦ record s { rank = some v; best = class }
            | some r ↦ if ltb r v then record s { rank = some v; best = class } else s
          ]
        ]).count
          ≡ s.count
    go none o = last (is_empty s.best) s.rank class
    go (some v) none = refl
    go (some v) (some r) = last (ltb r v) (some v) class

unlike : (t : EdgeType) → type_eq t attests ≡ true → type_eq t contradicts ≡ false
unfolding type_eq
unlike t h = rw (type_eq_sound t attests h) refl

keep_one :
    (p : Edge → Bool) (x : Edge) (xs : List Edge)
    → length (keep p (x ∷ xs)) ≡ (if p x then 1 else 0) + length (keep p xs)
unfolding keep
keep_one p x xs = go (p x)
  where
    go :
        (b : Bool)
        → length (if b then x ∷ keep p xs else keep p xs)
          ≡ (if b then 1 else 0) + length (keep p xs)
    go true = omega arith
    go false = omega arith

-- The branches of the loop of conflict.
abbrev branch :
    Bool → Bool → Bool → Side × Side → Side × Side → Side × Side → Side × Side → Side × Side
branch p q r x y z w = if p then x else if q then y else if r then z else w

both_sides-some :
    (s t : Side × Side) → both_sides s ≡ some t → (t ≡ s) × (0 < s.0.count) × (0 < s.1.count)
unfolding both_sides
both_sides-some s t = go (ltb 0 s.0.count) (ltb 0 s.1.count) refl refl
  where
    go :
        (p q : Bool)
        → ltb 0 s.0.count ≡ p
        → ltb 0 s.1.count ≡ q
        → (if p && q then some s else none) ≡ some t
        → (t ≡ s) × (0 < s.0.count) × (0 < s.1.count)
    go true true p q h = (cc h, ltb→lt 0 s.0.count p, ltb→lt 0 s.1.count q)
    go true false p q h = cc h
    go false q p r h = cc h

both_sides-met : (s : Side × Side) → 0 < s.0.count → 0 < s.1.count → both_sides s ≡ some s
unfolding both_sides
both_sides-met s p q = rw (lt→ltb 0 s.0.count p, lt→ltb 0 s.1.count q) refl

module _ (fl : Floats) (live : Edge → Bool) (g : Graph) where
  note_support-count :
      (other : Str) (es : List Edge) (s : Side)
      → (note_support fl live g other es s).count ≡ s.count
  unfolding note_support
  note_support-count other [] s = refl
  note_support-count other (e ∷ es) s =
      note_support-count other es
        (if supports fl live g other e then note (class_at fl live g e.src) s else s)
      ∙ go (supports fl live g other e)
    where
      go : (b : Bool) → (if b then note (class_at fl live g e.src) s else s).count ≡ s.count
      go true = note-count (class_at fl live g e.src) s
      go false = refl

  -- The edge counts against `id`: a source contradicts it, or another claim does.
  unfoldable pub speaks_against : Str → Node → Edge → Bool
  speaks_against id n e = source_against fl live g id e || claim_against fl live g id n e

  -- An edge counts on one side at most.
  for_not_against :
      (id : Str) (n : Node) (e : Edge)
      → speaks_for fl live g id e ≡ true
      → speaks_against id n e ≡ false
  unfolding speaks_for speaks_against source_against claim_against
  for_not_against id n e h = ground (arith, unlike e.type)

  weigh-count :
      (id : Str) (n : Node) (e : Edge) (f a : Side)
      → ((weigh fl live g id n e (f, a)).0.count
          ≡ (if speaks_for fl live g id e then 1 else 0) + f.count)
        × ((weigh fl live g id n e (f, a)).1.count
            ≡ (if speaks_against id n e then 1 else 0) + a.count)
  unfolding weigh speaks_against one_more
  weigh-count id n e f a =
      go (speaks_for fl live g id e) (source_against fl live g id e)
        (claim_against fl live g id n e) (for_not_against id n e)
    where
      go :
          (p q r : Bool)
          → (p ≡ true → (q || r) ≡ false)
          → ((branch p q r
                (note (class_at fl live g e.src) (one_more f), a)
                (f, note (class_at fl live g e.src) (one_more a))
                (
                  f,
                  note_support fl live g
                      (other_end id e)
                      (g.incident (other_end id e))
                      (one_more a),
                )
                (f, a)).0.count
              ≡ (if p then 1 else 0) + f.count)
            × ((branch p q r
                  (note (class_at fl live g e.src) (one_more f), a)
                  (f, note (class_at fl live g e.src) (one_more a))
                  (
                    f,
                    note_support fl live g
                        (other_end id e)
                        (g.incident (other_end id e))
                        (one_more a),
                  )
                  (f, a)).1.count
                ≡ (if q || r then 1 else 0) + a.count)
      go true q r h = (
        omega (arith, note-count (class_at fl live g e.src) (one_more f)),
        rw (h refl) (omega arith),
      )
      go false true r h =
          (omega arith, omega (arith, note-count (class_at fl live g e.src) (one_more a)))
      go false false true h = (
        omega arith,
        omega
            (arith, note_support-count (other_end id e) (g.incident (other_end id e)) (one_more a)),
      )
      go false false false h = (omega arith, omega arith)

  weigh_all-count :
      (id : Str) (n : Node) (es : List Edge) (sides : Side × Side)
      → ((weigh_all fl live g id n es sides).0.count
          ≡ length (keep (speaks_for fl live g id) es) + sides.0.count)
        × ((weigh_all fl live g id n es sides).1.count
            ≡ length (keep (speaks_against id n) es) + sides.1.count)
  unfolding weigh_all keep
  weigh_all-count id n [] sides = (omega arith, omega arith)
  weigh_all-count id n (e ∷ es) sides =
      let (p, q) = weigh_all-count id n es (weigh fl live g id n e sides) in
      let (r, s) = weigh-count id n e sides.0 sides.1 in
      (
        omega (arith, p, r, keep_one (speaks_for fl live g id) e es),
        omega (arith, q, s, keep_one (speaks_against id n) e es),
      )

  -- A claim of the graph is in conflict exactly when live evidence counts for it and live evidence
  -- counts against it, and the tally that is reported is the number of those edges on each side.
  pub conflict_exact :
      (id : Str) (n : Node)
      → node_at g id ≡ some n
      → kind_eq n.kind source ≡ false
      → ((f a : Side)
          → conflict fl live g id ≡ some (f, a)
          → (f.count ≡ length (keep (speaks_for fl live g id) (g.incident id)))
            × (a.count ≡ length (keep (speaks_against id n) (g.incident id)))
            × (0 < f.count)
            × (0 < a.count))
        × (0 < length (keep (speaks_for fl live g id) (g.incident id))
            → 0 < length (keep (speaks_against id n) (g.incident id))
            → (sides : Side × Side) × (conflict fl live g id ≡ some sides))
  unfolding conflict no_side
  conflict_exact id n p k =
      let sides = weigh_all fl live g id n (g.incident id) (no_side, no_side) in
      let (c, d) = weigh_all-count id n (g.incident id) (no_side, no_side) in
      let found : conflict fl live g id ≡ both_sides sides = rw (p, k, conflict) refl in
      (
        λ f a h.
            let (e, u, v) = both_sides-some sides (f, a) (sym found ∙ h) in
            let e0 : f.count ≡ sides.0.count = ap (λ s. s.0.count) e in
            let e1 : a.count ≡ sides.1.count = ap (λ s. s.1.count) e in
            (
              omega (arith, e0, c),
              omega (arith, e1, d),
              omega (arith, e0, u),
              omega (arith, e1, v),
            ),
        λ u v. (sides, found ∙ both_sides-met sides (omega (arith, u, c)) (omega (arith, v, d))),
      )
