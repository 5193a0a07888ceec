-- ===== src/Query/Denote/Paths.antt =====
-- walk of eval.go finds out whether there is a path along the hops.
use kgraph.Base.{
  Str, ◌≡◌, refl, sym, ap, subst, ◌∙◌, ◌↔◌, inl, inr, Bool, true, false, not, Option, none, some,
  List, [], ◌∷◌, ◌++◌, In, has, has_iff, in-append, in-sort_strings, Bool-cases, Option-cases,
  if◌then◌else◌,
}
use mathlib.Core.Option.{some_inj}
use kgraph.Model.{Node}
use kgraph.Time.{Floats}
use kgraph.Graph.{Graph, node_at}
use kgraph.Closure.{Hop, step, hop_targets}
use kgraph.Closure.Reach.{drain_exact}
use kgraph.Values.{Numbers, Calendar}
use kgraph.Query.{Atom}
use kgraph.Query.Field.{live_at, match_atom}
use kgraph.Query.Eval.{
  Result, found, failed, crashed, unfinished, and_then, or_crash, or_unfinished, to_set, keys,
  select, suits, next_all, walk,
}
use kgraph.Query.Denote.{Reaches, Follows}

pub and_then-found :
    {A B : Type 0} (m : Result A) (f : A → Result B) (b : B)
    → and_then m f ≡ found b
    → (a : A) × (m ≡ found a) × (f a ≡ found b)
unfolding and_then
and_then-found (found a) f b h = (a, refl, h)
and_then-found failed f b h = cc h
and_then-found crashed f b h = cc h
and_then-found unfinished f b h = cc h

or_keep : {A : Type 0} → A → Result A → A
or_keep d (found a) = a
or_keep d _ = d

pub found_inj : {A : Type 0} (a b : A) → found a ≡ found b → a ≡ b
unfolding or_keep
found_inj a b p = λ i. or_keep a (p i)

pub or_crash-found : {A : Type 0} (o : Option A) (a : A) → or_crash o ≡ found a → o ≡ some a
unfolding or_crash
or_crash-found none a h = cc h
or_crash-found (some x) a h = λ i. some (found_inj x a h i)

or_unfinished-found : {A : Type 0} (o : Option A) (a : A) → or_unfinished o ≡ found a → o ≡ some a
unfolding or_unfinished
or_unfinished-found none a h = cc h
or_unfinished-found (some x) a h = λ i. some (found_inj x a h i)

pub in-to_set : (a : Str) (xs : List Str) → In a (to_set xs) ↔ In a xs
unfolding to_set
in-to_set a [] = (λ i. i, λ i. i)
in-to_set a (x ∷ xs) = elim (Bool-cases (has xs x)) [
  | inl h ↦
      rw (h, to_set)
        (
          λ i. inr ((in-to_set a xs).0 i),
          λ i. (in-to_set a xs).1 (elim i [ inl e ↦ rw e ((has_iff xs x).0 h) | inr j ↦ j ]),
        )
  | inr h ↦
      rw (h, to_set)
        (
          λ i. elim i [ inl e ↦ inl e | inr j ↦ inr ((in-to_set a xs).0 j) ],
          λ i. elim i [ inl e ↦ inl e | inr j ↦ inr ((in-to_set a xs).1 j) ],
        )
]

pub in-keys : (a : Str) (xs : List Str) → In a (keys xs) ↔ In a xs
unfolding keys
in-keys a xs = (
  λ i. (in-to_set a xs).0 ((in-sort_strings a (to_set xs)).0 i),
  λ i. (in-sort_strings a (to_set xs)).1 ((in-to_set a xs).1 i),
)

-- The loop has asked about each of the list.
pub select-asked :
    {A : Type 0} (f : A → Result Bool) (xs ys : List A)
    → select f xs ≡ found ys
    → (a : A) → In a xs
    → (b : Bool) × (f a ≡ found b)
unfolding select
select-asked f [] ys e a i = absurd i
select-asked f (x ∷ xs) ys e a i =
    let (b, p, e1) = and_then-found (f x) _ ys e in
    let (rest, r, e2) = and_then-found (select f xs) _ ys e1 in
    elim i [ inl q ↦ (b, ap f q ∙ p) | inr j ↦ select-asked f xs rest r a j ]

if_not-true : {A : Type 0} (b : Bool) (x y : A) → b ≡ true → (if not b then x else y) ≡ y
if_not-true b x y h = rw h

if_not-false : {A : Type 0} (b : Bool) (x y : A) → b ≡ false → (if not b then x else y) ≡ x
if_not-false b x y h = rw h

-- What the loop collects is what the test accepts.
pub select-exact :
    {A : Type 0} (f : A → Result Bool) (xs ys : List A)
    → select f xs ≡ found ys
    → (a : A) → In a ys ↔ (In a xs × (f a ≡ found true))
unfolding select
select-exact {A = A} f [] ys e a =
    subst (λ l. In a l ↔ (⊥ × (f a ≡ found true))) (found_inj [] ys e)
      (λ i. absurd i, λ i. absurd i.0)
select-exact {A = A} f (x ∷ xs) ys e a =
    let (b, p, e1) = and_then-found (f x) _ ys e in
    let (rest, r, e2) = and_then-found (select f xs) _ ys e1 in
    subst (λ l. In a l ↔ (In a (x ∷ xs) × (f a ≡ found true))) (found_inj _ ys e2)
      (added b p rest (select-exact f xs rest r a))
  where
    added :
        (b : Bool)
        → f x ≡ found b
        → (rest : List A) → In a rest ↔ (In a xs × (f a ≡ found true))
        → In a (if b then x ∷ rest else rest) ↔ (In a (x ∷ xs) × (f a ≡ found true))
    added true p rest h = (
      elim [ inl q ↦ (inl q, ap f q ∙ p) | inr i ↦ let (j, m) = h.0 i in (inr j, m) ],
      λ w. elim w.0 [ inl q ↦ inl q | inr j ↦ inr (h.1 (j, w.1)) ],
    )
    added false p rest h = (
      λ i. let (j, m) = h.0 i in (inr j, m),
      λ w. elim w.0 [
        | inl q ↦ cc (found_inj false true (sym p ∙ sym (ap f q) ∙ w.1))
        | inr j ↦ h.1 (j, w.1)
      ],
    )

module _ (fl : Floats) (num : Numbers) (cal : Calendar) (lower : Str → Str) (sat : Str → Str → Bool)
    (g : Graph) where
  hop_targets-Reaches :
      (h : Hop) (at from : Str) (tos : List Str)
      → hop_targets (live_at fl num cal lower sat g at) g from h ≡ some tos
      → (to : Str) → In to tos ↔ Reaches fl num cal lower sat g h at from to
  unfolding hop_targets
  hop_targets-Reaches h at from tos e to = elim (Bool-cases h.star) [
    | inl s ↦
        let (once, exact) =
          drain_exact (live_at fl num cal lower sat g at) g h from _ tos
            (sym (if_not-true h.star _ _ s) ∙ e) in
        (λ i. inl (s, (exact to).0 i), elim [ inl w ↦ (exact to).1 w.1 | inr w ↦ cc (s, w.0) ])
    | inr s ↦
        let p : step (live_at fl num cal lower sat g at) g h from ≡ tos =
          some_inj.0 (sym (if_not-false h.star _ _ s) ∙ e) in
        (
          λ i. inr (s, subst (λ l. In to l) (sym p) i),
          elim [ inl w ↦ cc (s, w.0) | inr w ↦ subst (λ l. In to l) p w.1 ],
        )
  ]

  -- The node is there, and the first of the atoms matches it.
  abbrev pub Suits : List Atom → Str → Str → Str → Type 0
  Suits [] at now x = ⊥
  Suits (a ∷ later) at now x =
      (n : Node) × (node_at g x ≡ some n)
      × (match_atom fl num cal lower sat g a n at now ≡ some true)

  suits-exact :
      (atoms : List Atom) (at now x : Str)
      → suits fl num cal lower sat g atoms at now x ≡ found true
      → Suits atoms at now x
  unfolding suits
  suits-exact atoms at now x e = elim (Option-cases (node_at g x)) [
    | inl p ↦ cc (found_inj false true (rw (p, suits) at e))
    | inr (n, p) ↦ matched atoms n p (rw (p, suits) at e)
  ]
    where
      matched :
          (as_ : List Atom) (n : Node)
          → node_at g x ≡ some n
          → elim as_ as (λ _. Result Bool) [
            | [] ↦ crashed
            | a ∷ _ ↦ or_crash (match_atom fl num cal lower sat g a n at now)
          ]
            ≡ found true
          → Suits as_ at now x
      matched [] n p q = cc q
      matched (a ∷ later) n p q = (n, p, or_crash-found _ true q)

  Suits-suits :
      (atoms : List Atom) (at now x : Str)
      → Suits atoms at now x
      → suits fl num cal lower sat g atoms at now x ≡ found true
  unfolding suits or_crash node_at
  Suits-suits [] at now x h = absurd h
  Suits-suits (a ∷ later) at now x (n, p, m) = rw (p, suits) (ap or_crash m)

  next_all-exact :
      (atoms : List Atom) (h : Hop) (at now : Str) (cur ns : List Str)
      → next_all fl num cal lower sat g atoms h at now cur ≡ found ns
      → (to : Str)
      → In to ns
        ↔ ((x : Str) × In x cur × Reaches fl num cal lower sat g h at x to × Suits atoms at now to)
  unfolding next_all
  next_all-exact atoms h at now [] ns e to =
      subst
        (λ l.
          In to l
          ↔ ((x : Str) × ⊥ × Reaches fl num cal lower sat g h at x to × Suits atoms at now to))
        (found_inj [] ns e) (λ i. absurd i, λ w. absurd w.1)
  next_all-exact atoms h at now (x ∷ xs) ns e to =
      let (tos, t, e1) = and_then-found _ _ ns e in
      let (now_, s, e2) = and_then-found _ _ ns e1 in
      let (rest, r, e3) = and_then-found _ _ ns e2 in
      let ih = next_all-exact atoms h at now xs rest r to in
      let here = hop_targets-Reaches h at x tos (or_unfinished-found _ tos t) to in
      let chosen = select-exact (suits fl num cal lower sat g atoms at now) tos now_ s to in
      subst
        (λ l. In to l ↔ (
          (y : Str) × In y (x ∷ xs)
          × Reaches fl num cal lower sat g h at y to
          × Suits atoms at now to))
        (found_inj (now_ ++ rest) ns e3)
        (
          λ i. elim ((in-append to now_ rest).0 i) [
            | inl j ↦
                let (k, m) = chosen.0 j in (x, inl refl, here.0 k, suits-exact atoms at now to m)
            | inr j ↦ let (y, k, w, m) = ih.0 j in (y, inr k, w, m)
          ],
          λ w. (in-append to now_ rest).1 (elim w.1 [
            | inl q ↦ inl (
                chosen.1 (
                  here.1 (subst (λ y. Reaches fl num cal lower sat g h at y to) q w.2),
                  Suits-suits atoms at now to w.3,
                ))
            | inr k ↦ inr (ih.1 (w.0, k, w.2, w.3))
          ]),
        )

  -- The walk answers whether one of the ids begins a path.
  pub walk-exact :
      (hs : List Hop) (atoms : List Atom) (at now : Str) (cur : List Str) (b : Bool)
      → (z : Str) → In z cur
      → walk fl num cal lower sat g hs atoms at now cur ≡ found b
      → (b ≡ true) ↔ ((x : Str) × In x cur × Follows fl num cal lower sat g hs atoms at now x)
  unfolding walk
  walk-exact [] atoms at now cur b z i e = (λ _. (z, i, tt), λ _. sym (found_inj true b e))
  walk-exact (h ∷ hs) [] at now cur b z i e =
      let (ns, n, e1) = and_then-found (next_all fl num cal lower sat g [] h at now cur) _ b e in
      nowhere ns e1 (λ to k. ((next_all-exact [] h at now cur ns n to).0 k).3)
    where
      nowhere :
          (ns : List Str)
          → elim ns as (λ _. Result Bool) [
            | [] ↦ found false
            | x ∷ xs ↦ walk fl num cal lower sat g hs [] at now (keys (x ∷ xs))
          ]
            ≡ found b
          → ((to : Str) → ¬ In to ns)
          → (b ≡ true) ↔ ((x : Str) × In x cur × ⊥)
      nowhere [] q none_ = (λ t. cc (found_inj false b q, t), λ w. absurd w.2)
      nowhere (x ∷ xs) q none_ = absurd (none_ x (inl refl))
  walk-exact (h ∷ hs) (a ∷ later) at now cur b z i e =
      let (ns, n, e1) =
        and_then-found (next_all fl num cal lower sat g (a ∷ later) h at now cur) _ b e in
      onward ns e1 (next_all-exact (a ∷ later) h at now cur ns n) (λ x xs q.
        walk-exact hs later at now (keys (x ∷ xs)) b x ((in-keys x (x ∷ xs)).1 (inl refl)) q)
    where
      onward :
          (ns : List Str)
          → elim ns as (λ _. Result Bool) [
            | [] ↦ found false
            | x ∷ xs ↦ walk fl num cal lower sat g hs later at now (keys (x ∷ xs))
          ]
            ≡ found b
          → ((to : Str)
              → In to ns ↔ (
                  (x : Str) × In x cur
                  × Reaches fl num cal lower sat g h at x to
                  × Suits (a ∷ later) at now to))
          → ((x : Str) (xs : List Str)
              → walk fl num cal lower sat g hs later at now (keys (x ∷ xs)) ≡ found b
              → (b ≡ true) ↔ (
                  (y : Str) × In y (keys (x ∷ xs))
                  × Follows fl num cal lower sat g hs later at now y))
          → (b ≡ true)
            ↔ ((x : Str) × In x cur × Follows fl num cal lower sat g (h ∷ hs) (a ∷ later) at now x)
      onward [] q char rec = (
        λ t. cc (found_inj false b q, t),
        λ w.
            let (x, k, path) = w in
            let (to, n, r, p, m, f) = path in absurd ((char to).1 (x, k, r, (n, p, m))),
      )
      onward (x ∷ xs) q char rec = (
        λ t.
            let (y, k, f) = (rec x xs q).0 t in
            let (u, c, r, suit) = (char y).0 ((in-keys y (x ∷ xs)).0 k) in
            let (n, p, m) = suit in (u, c, (y, n, r, p, m, f)),
        λ w.
            let (u, k, path) = w in
            let (to, n, r, p, m, f) = path in
            (rec x xs q).1 (to, (in-keys to (x ∷ xs)).1 ((char to).1 (u, k, r, (n, p, m))), f),
      )
