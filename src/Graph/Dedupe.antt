-- ===== src/Graph/Dedupe.antt =====
-- dedupeEdges of graph.go: one relation declared from both ends is one edge.
use kgraph.Base.{
  Str, ◌+◌, ◌≡◌, refl, sym, ap, ◌∙◌, ◌↔◌, ◌⊎◌, Bool, true, false, ◌&&◌, Option, none, some, List,
  [], ◌∷◌, arith, str_eq, str_eq_iff, In, length, Option-cases, Bool-cases, inl, inr,
}
use kgraph.Model.{Edge, EdgeType, type_eq, type_eq_sound, type_eq_refl}

-- The comparison of the two keys: ends, window, branch and type.
unfoldable pub same_key : Edge → Edge → Bool
same_key a b =
    str_eq a.src b.src
    && str_eq a.dst b.dst
    && str_eq a.valid_from b.valid_from
    && str_eq a.valid_until b.valid_until
    && str_eq a.while_node b.while_node
    && type_eq a.type b.type

-- seen[k]: the edge that holds the key, if one does.
unfoldable pub find_same : Edge → List Edge → Option Edge
find_same e [] = none
find_same e (s ∷ seen) = elim (same_key e s) [ true ↦ some s | false ↦ find_same e seen ]

-- The warning that a relation is already declared, with the edge and the first one.
pub record Redundant : Type 0 where
  pub again : Edge
  pub first : Edge

pub record Deduped : Type 0 where
  pub out : List Edge
  pub diags : List Redundant

unfoldable pub dedupe_from : List Edge → List Edge → Deduped
unfolding find_same same_key
dedupe_from seen [] = record { out = []; diags = [] }
dedupe_from seen (e ∷ es) = elim (find_same e seen) [
  | some first ↦
      let rest = dedupe_from seen es in
      record rest { diags = record { again = e; first = first } ∷ rest.diags }
  | none ↦ let rest = dedupe_from (e ∷ seen) es in record rest { out = e ∷ rest.out }
]

unfoldable pub dedupe_edges : List Edge → Deduped
unfolding dedupe_from
dedupe_edges es = dedupe_from [] es

-- No edge of the list has the key of `e`.
abbrev pub Fresh : Edge → List Edge → Type 0
Fresh e [] = Unit
Fresh e (s ∷ seen) = (same_key e s ≡ false) × Fresh e seen

-- No two edges have one key.
abbrev pub DistinctKeys : List Edge → Type 0
DistinctKeys [] = Unit
DistinctKeys (e ∷ es) = Fresh e es × DistinctKeys es

-- What the program compares of an edge.
abbrev pub Key : Type 0
Key = Str × Str × Str × Str × Str × EdgeType

abbrev pub key : Edge → Key
key e = (e.src, e.dst, e.valid_from, e.valid_until, e.while_node, e.type)

same_key_parts :
    (a b : Edge)
    → (same_key a b ≡ true) ↔ (
        (str_eq a.src b.src ≡ true)
        × (str_eq a.dst b.dst ≡ true)
        × (str_eq a.valid_from b.valid_from ≡ true)
        × (str_eq a.valid_until b.valid_until ≡ true)
        × (str_eq a.while_node b.while_node ≡ true)
        × (type_eq a.type b.type ≡ true))
unfolding same_key
same_key_parts a b = (λ h. ground arith, λ h. ground arith)

pub same_key_sound : (a b : Edge) → same_key a b ≡ true → key a ≡ key b
same_key_sound a b h =
    let (p, q, r, s, t, u) = (same_key_parts a b).0 h in
    λ i. (
      (str_eq_iff a.src b.src).0 p i,
      (str_eq_iff a.dst b.dst).0 q i,
      (str_eq_iff a.valid_from b.valid_from).0 r i,
      (str_eq_iff a.valid_until b.valid_until).0 s i,
      (str_eq_iff a.while_node b.while_node).0 t i,
      type_eq_sound a.type b.type u i,
    )

pub same_key_complete : (a b : Edge) → key a ≡ key b → same_key a b ≡ true
same_key_complete a b h = (same_key_parts a b).1 (
  (str_eq_iff a.src b.src).1 (λ i. (h i).0),
  (str_eq_iff a.dst b.dst).1 (λ i. (h i).1),
  (str_eq_iff a.valid_from b.valid_from).1 (λ i. (h i).2),
  (str_eq_iff a.valid_until b.valid_until).1 (λ i. (h i).3),
  (str_eq_iff a.while_node b.while_node).1 (λ i. (h i).4),
  rw (ap (λ (k : Key). k.5) h) (type_eq_refl b.type),
)

same_key_comm : (a b : Edge) → same_key a b ≡ true → same_key b a ≡ true
same_key_comm a b h = same_key_complete b a (sym (same_key_sound a b h))

Fresh-find_same : (e : Edge) (seen : List Edge) → find_same e seen ≡ none → Fresh e seen
unfolding find_same
Fresh-find_same e [] h = tt
Fresh-find_same e (s ∷ seen) h = ground (arith, Fresh-find_same e seen)

Fresh-in : (e s : Edge) (seen : List Edge) → Fresh e seen → In s seen → same_key e s ≡ false
Fresh-in e s [] f i = absurd i
Fresh-in e s (t ∷ seen) f (inl p) = rw p f.0
Fresh-in e s (t ∷ seen) f (inr i) = Fresh-in e s seen f.1 i

-- What is kept is fresh to every edge that was kept before it.
Fresh-dedupe_from : (s : Edge) (seen es : List Edge) → In s seen → Fresh s (dedupe_from seen es).out
unfolding dedupe_from
Fresh-dedupe_from s seen [] i = tt
Fresh-dedupe_from s seen (e ∷ es) i = elim (Option-cases (find_same e seen)) [
  | inr (first, p) ↦ rw (p, dedupe_from) (Fresh-dedupe_from s seen es i)
  | inl p ↦
      rw (p, dedupe_from)
        (
          fresh (Bool-cases (same_key s e)) (Fresh-in e s seen (Fresh-find_same e seen p) i),
          Fresh-dedupe_from s (e ∷ seen) es (inr i),
        )
]
  where
    fresh :
        (same_key s e ≡ true) ⊎ (same_key s e ≡ false) → same_key e s ≡ false → same_key s e ≡ false
    fresh (inl t) f = cc (same_key_comm s e t)
    fresh (inr n) f = n

DistinctKeys-dedupe_from : (seen es : List Edge) → DistinctKeys (dedupe_from seen es).out
unfolding dedupe_from
DistinctKeys-dedupe_from seen [] = tt
DistinctKeys-dedupe_from seen (e ∷ es) = elim (Option-cases (find_same e seen)) [
  | inr (first, p) ↦ rw (p, dedupe_from) (DistinctKeys-dedupe_from seen es)
  | inl p ↦
      rw (p, dedupe_from)
        (Fresh-dedupe_from e (e ∷ seen) es (inl refl), DistinctKeys-dedupe_from (e ∷ seen) es)
]

-- The kept edges have pairwise different keys.
pub dedupe_edges-DistinctKeys : (es : List Edge) → DistinctKeys (dedupe_edges es).out
unfolding dedupe_edges
dedupe_edges-DistinctKeys es = DistinctKeys-dedupe_from [] es

find_same_sound :
    (e s : Edge) (seen : List Edge) → find_same e seen ≡ some s → In s seen × (key e ≡ key s)
unfolding find_same
find_same_sound e s [] h = cc
find_same_sound e s (t ∷ seen) h = elim (Bool-cases (same_key e t)) [
  | inl p ↦ let q : t ≡ s = ground arith in (inl (sym q), rw (← q) (same_key_sound e t p))
  | inr p ↦ let r = find_same_sound e s seen (rw (p, find_same) at h) in (inr r.0, r.1)
]

-- The key of each edge is kept, by an edge that was kept before or by one that is kept now.
key-dedupe_from :
    (a : Edge) (seen es : List Edge)
    → In a es
    → (s : Edge) × (In s seen ⊎ In s (dedupe_from seen es).out) × (key a ≡ key s)
unfolding dedupe_from
key-dedupe_from a seen [] i = absurd i
key-dedupe_from a seen (e ∷ es) (inl q) = elim (Option-cases (find_same e seen)) [
  | inr (first, p) ↦ let (m, k) = find_same_sound e first seen p in (first, inl m, ap key q ∙ k)
  | inl p ↦ rw (p, dedupe_from) (e, inr (inl refl), ap key q)
]
key-dedupe_from a seen (e ∷ es) (inr i) = elim (Option-cases (find_same e seen)) [
  | inr (first, p) ↦ rw (p, dedupe_from) (key-dedupe_from a seen es i)
  | inl p ↦ rw (p, dedupe_from) (moved (key-dedupe_from a (e ∷ seen) es i))
]
  where
    moved :
        ((s : Edge) × (In s (e ∷ seen) ⊎ In s (dedupe_from (e ∷ seen) es).out) × (key a ≡ key s))
        → (s : Edge) × (In s seen ⊎ In s (e ∷ (dedupe_from (e ∷ seen) es).out)) × (key a ≡ key s)
    moved (s, inl (inl r), k) = (s, inr (inl r), k)
    moved (s, inl (inr m), k) = (s, inl m, k)
    moved (s, inr m, k) = (s, inr (inr m), k)

in-dedupe_from : (a : Edge) (seen es : List Edge) → In a (dedupe_from seen es).out → In a es
unfolding dedupe_from
in-dedupe_from a seen [] i = absurd i
in-dedupe_from a seen (e ∷ es) i = elim (Option-cases (find_same e seen)) [
  | inr (first, p) ↦ inr (in-dedupe_from a seen es (rw (p, dedupe_from) at i))
  | inl p ↦ kept (in-dedupe_from a (e ∷ seen) es) (rw (p, dedupe_from) at i)
]
  where
    kept :
        (In a (dedupe_from (e ∷ seen) es).out → In a es)
        → In a (e ∷ (dedupe_from (e ∷ seen) es).out)
        → In a (e ∷ es)
    kept ih (inl q) = inl q
    kept ih (inr m) = inr (ih m)

-- Each edge that is kept was declared, and each declared relation is kept by an edge of its key.
pub dedupe_edges_lem :
    (es : List Edge) (a : Edge)
    → (In a (dedupe_edges es).out → In a es)
      × (In a es → (s : Edge) × In s (dedupe_edges es).out × (key a ≡ key s))
unfolding dedupe_edges
dedupe_edges_lem es a = (in-dedupe_from a [] es, λ i. from_out (key-dedupe_from a [] es i))
  where
    from_out :
        ((s : Edge) × (In s [] ⊎ In s (dedupe_from [] es).out) × (key a ≡ key s))
        → (s : Edge) × In s (dedupe_from [] es).out × (key a ≡ key s)
    from_out (s, inl m, k) = absurd m
    from_out (s, inr m, k) = (s, m, k)

length-dedupe_from :
    (seen es : List Edge)
    → length (dedupe_from seen es).out + length (dedupe_from seen es).diags ≡ length es
unfolding dedupe_from
length-dedupe_from seen [] = omega arith
length-dedupe_from seen (e ∷ es) =
    ground (arith, length-dedupe_from seen es, length-dedupe_from (e ∷ seen) es)

-- One warning is given for each edge that is left out.
pub length-dedupe_edges :
    (es : List Edge) → length (dedupe_edges es).out + length (dedupe_edges es).diags ≡ length es
unfolding dedupe_edges
length-dedupe_edges es = length-dedupe_from [] es
