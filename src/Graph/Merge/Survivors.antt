-- ===== src/Graph/Merge/Survivors.antt =====
-- The nodes that merge leaves, and the ids that Lookup still finds.
use kgraph.Base.{
  Str, ◌≡◌, ◌≢◌, refl, ap, sym, subst, ◌↔◌, true, some, List, [], ◌∷◌, arith, is_empty, Bool-cases,
  inl, inr, str_eq, str_eq_iff, In, NoRepeat, find_key, keys_of, IsMap, find_key-in, in-keys_of,
}
use kgraph.Model.{Alias, Node, Edge}
use kgraph.Graph.{Nodes}
use kgraph.Graph.Merge.{
  final_of, rewrite_node, absorb, aliases_of, without, give_aliases, map_nodes, merge_by, merge,
}
use kgraph.Graph.Merge.Fold.{final_of_sound, survivor-ne-folded}

keys_of-give_aliases :
    (to : Str) (extra : List Alias) (ns : Nodes) → keys_of (give_aliases to extra ns) ≡ keys_of ns
unfolding give_aliases
keys_of-give_aliases to extra [] = refl
keys_of-give_aliases to extra ((id, n) ∷ rest) =
    ap (λ l. id ∷ l) (keys_of-give_aliases to extra rest)

pub in-keys_of-without :
    (id k : Str) (ns : Nodes) → In k (keys_of (without id ns)) ↔ (In k (keys_of ns) × (k ≢ id))
unfolding without
in-keys_of-without id k [] = (absurd, λ h. h.0)
in-keys_of-without id k ((j, n) ∷ rest) =
    ground (arith, in-keys_of-without id k rest, str_eq_iff j id)

in-keys_of-absorb :
    (final : List (Str × Str)) (k : Str) (ns : Nodes)
    → In k (keys_of (absorb final ns)) ↔ (In k (keys_of ns) × (¬ In k (keys_of final)))
unfolding absorb
in-keys_of-absorb [] k ns = (λ i. (i, λ e. e), λ h. h.0)
in-keys_of-absorb ((id, to) ∷ final) k ns =
    let given = give_aliases to (aliases_of ns id) ns in
    let same = keys_of-give_aliases to (aliases_of ns id) ns in
    let left = in-keys_of-without id k given in
    let rest = in-keys_of-absorb final k (without id given) in
    (
      λ i.
          let (w, nf) = rest.0 i in
          let (g, ne) = left.0 w in
          (subst (In k) same g, λ e. elim e [ inl q ↦ ne q | inr q ↦ nf q ]),
      λ h. rest.1 (left.1 (subst (In k) (sym same) h.0, λ q. h.1 (inl q)), λ q. h.1 (inr q)),
    )

IsMap-without : (id : Str) (ns : Nodes) → IsMap ns → IsMap (without id ns)
unfolding without
IsMap-without id [] u = tt
IsMap-without id ((j, n) ∷ rest) u = elim (Bool-cases (str_eq j id)) [
  | inl e ↦ rw (e, without) (IsMap-without id rest u.1)
  | inr e ↦
      rw (e, without) ((λ i. u.0 ((in-keys_of-without id j rest).0 i).0), IsMap-without id rest u.1)
]

IsMap-absorb : (final : List (Str × Str)) (ns : Nodes) → IsMap ns → IsMap (absorb final ns)
unfolding absorb
IsMap-absorb [] ns u = u
IsMap-absorb ((id, to) ∷ final) ns u =
    let given = give_aliases to (aliases_of ns id) ns in
    IsMap-absorb final (without id given) (
      IsMap-without id given
        (subst NoRepeat (sym (keys_of-give_aliases to (aliases_of ns id) ns)) u))

keys_of-map_nodes : (f : Node → Node) (ns : Nodes) → keys_of (map_nodes f ns) ≡ keys_of ns
unfolding map_nodes
keys_of-map_nodes f [] = refl
keys_of-map_nodes f ((id, n) ∷ rest) = ap (λ l. id ∷ l) (keys_of-map_nodes f rest)

-- A merge keeps each id at most once.
pub IsMap-merge : (ns : Nodes) (es : List Edge) → IsMap ns → IsMap (merge ns es).nodes
unfolding merge
IsMap-merge ns es u = by_final (final_of ns ns)
  where
    by_final : (final : List (Str × Str)) → IsMap (merge_by final ns es).nodes
    by_final [] = u
    by_final (f ∷ fs) =
        IsMap-absorb (f ∷ fs) (map_nodes (rewrite_node (f ∷ fs)) ns)
          (subst NoRepeat (sym (keys_of-map_nodes (rewrite_node (f ∷ fs)) ns)) u)

-- The nodes after a merge are those before it, less the folded ids.
pub in-nodes-merge :
    (ns : Nodes) (es : List Edge) (k : Str)
    → In k (keys_of (merge ns es).nodes)
      ↔ (In k (keys_of ns) × (¬ In k (keys_of (merge ns es).retired)))
unfolding merge
in-nodes-merge ns es k = by_final (final_of ns ns)
  where
    by_final :
        (final : List (Str × Str))
        → In k (keys_of (merge_by final ns es).nodes)
          ↔ (In k (keys_of ns) × (¬ In k (keys_of (merge_by final ns es).retired)))
    by_final [] = (λ i. (i, λ e. e), λ h. h.0)
    by_final (f ∷ fs) =
        subst
          (λ ks.
            In k (keys_of (absorb (f ∷ fs) (map_nodes (rewrite_node (f ∷ fs)) ns)))
            ↔ (In k ks × (¬ In k (keys_of (f ∷ fs)))))
          (keys_of-map_nodes (rewrite_node (f ∷ fs)) ns)
          (in-keys_of-absorb (f ∷ fs) k (map_nodes (rewrite_node (f ∷ fs)) ns))

pub retired-merge : (ns : Nodes) (es : List Edge) → (merge ns es).retired ≡ final_of ns ns
unfolding merge
retired-merge ns es = by_final (final_of ns ns)
  where
    by_final : (final : List (Str × Str)) → (merge_by final ns es).retired ≡ final
    by_final [] = refl
    by_final (f ∷ fs) = refl

-- Where no id stands twice among the nodes, every id that a merge folds away leads to a node that is
-- still there.
pub retired-in-nodes :
    (ns : Nodes) (es : List Edge) (id to : Str)
    → IsMap ns
    → In (id, to) (merge ns es).retired
    → In to (keys_of (merge ns es).nodes)
unfolding merge
retired-in-nodes ns es id to u i = (in-nodes-merge ns es to).1 (
  survivor_in (final_of_sound ns ns id to in_final).1,
  λ k. survivor-ne-folded ns id to u in_final (retired_final k),
)
  where
    in_final : In (id, to) (final_of ns ns)
    in_final = subst (In (id, to)) (retired-merge ns es) i

    retired_final : In to (keys_of (merge ns es).retired) → In to (keys_of (final_of ns ns))
    retired_final k = subst (λ m. In to (keys_of m)) (retired-merge ns es) k

    survivor_in :
        ((s : Node) × (find_key ns to ≡ some s) × (is_empty s.same_as ≡ true)) → In to (keys_of ns)
    survivor_in (s, p, q) = in-keys_of ns to s (find_key-in ns to s p)
