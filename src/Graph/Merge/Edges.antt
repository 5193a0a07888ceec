-- ===== src/Graph/Merge/Edges.antt =====
-- The edges that merge leaves: none at an id that was folded, none that a merge made a loop.
use kgraph.Base.{
  Str, ◌≡◌, refl, sym, subst, false, List, [], ◌∷◌, Bool-cases, Option-cases, inl, inr, str_eq, In,
  map, keys_of, IsMap,
}
use kgraph.Model.{Edge}
use kgraph.Graph.{Nodes}
use kgraph.Graph.Dedupe.{find_same}
use kgraph.Graph.Merge.{final_of, resolve, rewrite_edge, clean_edges, merge_by, merge}
use kgraph.Graph.Merge.Fold.{resolve-ne-folded}

in-clean_edges :
    (seen es : List Edge) (e : Edge)
    → In e (clean_edges seen es)
    → In e es × (str_eq e.src e.dst ≡ false)
unfolding clean_edges
in-clean_edges seen [] e i = absurd i
in-clean_edges seen (a ∷ es) e i = elim (Bool-cases (str_eq a.src a.dst)) [
  | inl p ↦ later (in-clean_edges seen es e (rw (p, clean_edges) at i))
  | inr p ↦ elim (Option-cases (find_same a seen)) [
    | inr (s, q) ↦ later (in-clean_edges seen es e (rw (p, q, clean_edges) at i))
    | inl q ↦ now p (in-clean_edges (a ∷ seen) es e) (rw (p, q, clean_edges) at i)
  ]
]
  where
    later : In e es × (str_eq e.src e.dst ≡ false) → In e (a ∷ es) × (str_eq e.src e.dst ≡ false)
    later (i, p) = (inr i, p)

    now :
        str_eq a.src a.dst ≡ false
        → (In e (clean_edges (a ∷ seen) es) → In e es × (str_eq e.src e.dst ≡ false))
        → In e (a ∷ clean_edges (a ∷ seen) es)
        → In e (a ∷ es) × (str_eq e.src e.dst ≡ false)
    now p ih (inl q) = (inl q, subst (λ x. str_eq x.src x.dst ≡ false) (sym q) p)
    now p ih (inr m) = later (ih m)

in-map :
    (f : Edge → Edge) (e : Edge) (es : List Edge)
    → In e (map f es)
    → (a : Edge) × In a es × (e ≡ f a)
in-map f e [] i = absurd i
in-map f e (a ∷ es) (inl q) = (a, inl refl, q)
in-map f e (a ∷ es) (inr i) = let (b, j, q) = in-map f e es i in (b, inr j, q)

-- Where no id stands twice among the nodes, no end of a merged edge is an id that was folded away.
pub edges-merge-live :
    (ns : Nodes) (es : List Edge) (e : Edge)
    → IsMap ns
    → In e (merge ns es).edges
    → (¬ In e.src (keys_of (merge ns es).retired)) × (¬ In e.dst (keys_of (merge ns es).retired))
unfolding merge
edges-merge-live ns es e u = by_final (final_of ns ns) (λ x. resolve-ne-folded ns x u)
  where
    by_final :
        (final : List (Str × Str))
        → ((x : Str) → ¬ In (resolve final x) (keys_of final))
        → In e (merge_by final ns es).edges
        → (¬ In e.src (keys_of (merge_by final ns es).retired))
          × (¬ In e.dst (keys_of (merge_by final ns es).retired))
    by_final [] live i = (λ k. k, λ k. k)
    by_final (f ∷ fs) live i =
        let (c, p) = in-clean_edges [] (map (rewrite_edge (f ∷ fs)) es) e i in
        let (a, j, q) = in-map (rewrite_edge (f ∷ fs)) e es c in
        (
          subst (λ (x : Edge). ¬ In x.src (keys_of (f ∷ fs))) (sym q) (live a.src),
          subst (λ (x : Edge). ¬ In x.dst (keys_of (f ∷ fs))) (sym q) (live a.dst),
        )
