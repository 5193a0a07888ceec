-- ===== src/Graph/Merge/Fold.antt =====
-- The map `final` of merge: which ids are folded, and into what.
use kgraph.Base.{
  Str, suc, ◌≡◌, ap, sym, ◌∙◌, Bool, true, false, Option, none, some, [], ◌∷◌, is_empty, length,
  Bool-cases, inl, inr, In, in-append, find_key, keys_of, IsMap, in-keys_of-value, find_key-cases,
  in-find_key,
}
use kgraph.Model.{Node, kind_eq}
use kgraph.Graph.{Nodes}
use kgraph.Graph.Merge.{
  End, survivor, cycle, out_of_fuel, unknown, chase, judge_end, judge, folded, final_of, resolve,
}
use kgraph.Graph.Merge.Chase.{IsEnd, chase-IsEnd}

judge_end-folds :
    (ns : Nodes) (j id to : Str) (n : Node) (r : End)
    → IsEnd ns r
    → In (id, to) (folded j (judge_end n r))
    → (id ≡ j) × ((s : Node) × (find_key ns to ≡ some s) × (is_empty s.same_as ≡ true))
unfolding folded judge_end
judge_end-folds ns j id to n (survivor cur m) e i = elim (Bool-cases (kind_eq m.kind n.kind)) [
  | inl k ↦ one (rw (k, judge_end) at i)
  | inr k ↦ absurd (rw (k, judge_end) at i)
]
  where
    one :
        In {A = Str × Str} (id, to) ((j, cur) ∷ [])
        → (id ≡ j) × ((s : Node) × (find_key ns to ≡ some s) × (is_empty s.same_as ≡ true))
    one (inl q) = (ap (λ (x : Str × Str). x.0) q, (m, rw (ap (λ (x : Str × Str). x.1) q) e.0, e.1))
    one (inr q) = absurd q
judge_end-folds ns j id to n cycle e i = absurd i
judge_end-folds ns j id to n out_of_fuel e i = absurd i
judge_end-folds ns j id to n (unknown cur) e i = absurd i

judge-folds :
    (ns : Nodes) (j id to : Str) (n : Node)
    → In (id, to) (folded j (judge ns j n))
    → (id ≡ j)
      × (is_empty n.same_as ≡ false)
      × ((s : Node) × (find_key ns to ≡ some s) × (is_empty s.same_as ≡ true))
unfolding judge
judge-folds ns j id to n i = elim (Bool-cases (is_empty n.same_as)) [
  | inl e ↦ absurd (unfold folded in (rw (e, judge) at i))
  | inr e ↦
      let chain = chase (suc (length ns)) ns (j ∷ []) n.same_as in
      let (p, s) =
        judge_end-folds ns j id to n chain (chase-IsEnd (suc (length ns)) ns (j ∷ []) n.same_as)
          (rw (e, judge) at i) in
      (p, e, s)
]

-- A folded id is a node that names another, and it is folded into a node that names none.
pub final_of_sound :
    (ns rest : Nodes) (id to : Str)
    → In (id, to) (final_of ns rest)
    → ((n : Node) × In (id, n) rest × (is_empty n.same_as ≡ false))
      × ((s : Node) × (find_key ns to ≡ some s) × (is_empty s.same_as ≡ true))
unfolding final_of
final_of_sound ns [] id to i = absurd i
final_of_sound ns ((j, n) ∷ rest) id to i =
    elim ((in-append (id, to) (folded j (judge ns j n)) (final_of ns rest)).0 i) [
      | inr k ↦ let (a, s) = final_of_sound ns rest id to k in ((a.0, inr a.1, a.2), s)
      | inl k ↦ let (p, e, s) = judge-folds ns j id to n k in ((n, inl (λ t. (p t, n)), e), s)
    ]

-- The survivor of a fold is not folded itself.
pub survivor-ne-folded :
    (ns : Nodes) (id to : Str)
    → IsMap ns
    → In (id, to) (final_of ns ns)
    → ¬ In to (keys_of (final_of ns ns))
survivor-ne-folded ns id to u i k =
    let (to', m) = in-keys_of-value (final_of ns ns) to k in
    let (s, p, q) = (final_of_sound ns ns id to i).1 in
    let (n, j, r) = (final_of_sound ns ns to to' m).0 in
    let same : some s ≡ some n = sym p ∙ in-find_key ns to n u j in
    cc (
      ap {B = Bool} (λ (o : Option Node). elim o [ some x ↦ is_empty x.same_as | none ↦ true ])
          same,
      q,
      r,
    )

-- After the rewriting no end of an edge is a folded id.
pub resolve-ne-folded :
    (ns : Nodes) (x : Str) → IsMap ns → ¬ In (resolve (final_of ns ns) x) (keys_of (final_of ns ns))
unfolding resolve
resolve-ne-folded ns x u = elim (find_key-cases (final_of ns ns) x) [
  | inl (p, n) ↦ rw (p, resolve) n
  | inr (to, p, i) ↦ rw (p, resolve) (survivor-ne-folded ns x to u i)
]
