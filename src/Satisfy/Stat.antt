-- ===== src/Satisfy/Stat.antt =====
-- What groupStat reports: the counts, what blocks, and how a verdict follows from them.
use kgraph.Base.{
  Str, ◌+◌, ◌<◌, ◌≡◌, refl, sym, ap, ◌∙◌, subst, ◌↔◌, ◌⊎◌, inl, inr, Bool, true, false, Option,
  some, List, [], ◌∷◌, arith, In, length, ◌>>=◌, >>=-eq-some, sort_strings, in-sort_strings,
  length-sort_strings, IsSorted, IsSorted-sort_strings,
}
use mathlib.Core.Option.{some_inj}
use kgraph.Model.{Node}
use kgraph.Time.{Floats}
use kgraph.Graph.{Graph, node_at}
use kgraph.Satisfy.Expr.{every, meets, meets_lem, rule_of, rule_met}
use kgraph.Satisfy.{Answer, GroupStat, add_member, count_members, members_at, group_stat}

-- The counts agree with the answers that the members got.
pub record Counts (sat : Str → Answer) (ms : List Str) (st : GroupStat) : Type 0 where
  pub total : st.total ≡ length ms
  pub parts : st.satisfied + length st.blocking ≡ length ms
  pub answered : (m : Str) → In m ms → (sat m ≡ some true) ⊎ (sat m ≡ some false)
  pub blocked : (m : Str) → In m st.blocking ↔ (In m ms × (sat m ≡ some false))

no_member : (l : List Str) (m : Str) → length l ≡ 0 → ¬ In m l
no_member [] m e i = i
no_member (x ∷ l) m e i = absurd (omega arith)

no_members : (l : List Str) → ((m : Str) → ¬ In m l) → length l ≡ 0
no_members [] h = refl
no_members (x ∷ l) h = absurd (h x (inl refl))

Counts-add :
    (sat : Str → Answer) (m : Str) (b : Bool) (ms : List Str) (st : GroupStat)
    → sat m ≡ some b
    → Counts sat ms st
    → Counts sat (m ∷ ms) (add_member m b st)
unfolding add_member
Counts-add sat m true ms st p c = record {
  total = omega (arith, c.total);
  parts = omega (arith, c.parts);
  answered = λ x i. elim i [ inl q ↦ inl (ap sat q ∙ p) | inr j ↦ c.answered x j ];
  blocked = λ x. (
    λ i. let (j, q) = (c.blocked x).0 i in (inr j, q),
    λ h. elim h.0 [ inl q ↦ cc (p, ap sat q, h.1) | inr j ↦ (c.blocked x).1 (j, h.1) ],
  );
}
Counts-add sat m false ms st p c = record {
  total = omega (arith, c.total);
  parts = omega (arith, c.parts);
  answered = λ x i. elim i [ inl q ↦ inr (ap sat q ∙ p) | inr j ↦ c.answered x j ];
  blocked = λ x. (
    λ i. elim i [
      | inl q ↦ (inl q, ap sat q ∙ p)
      | inr j ↦ let (k, q) = (c.blocked x).0 j in (inr k, q)
    ],
    λ h. elim h.0 [ inl q ↦ inl q | inr j ↦ inr ((c.blocked x).1 (j, h.1)) ],
  );
}

-- Every member is counted once, and the blocking ones are those that got the answer no.
count_members-Counts :
    (sat : Str → Answer) (ms : List Str) (st : GroupStat)
    → count_members sat ms ≡ some st
    → Counts sat ms st
unfolding count_members
count_members-Counts sat [] st h = subst (Counts sat []) (some_inj.0 h) (record {
  total = refl;
  parts = omega arith;
  answered = λ m i. absurd i;
  blocked = λ m. (λ i. absurd i, λ i. absurd i.0);
})
count_members-Counts sat (m ∷ ms) st h =
    let (b, p, k) =
      >>=-eq-some (sat m) (λ c. count_members sat ms >>= λ r. some (add_member m c r)) h in
    let (r, q, e) = >>=-eq-some (count_members sat ms) (λ r. some (add_member m b r)) k in
    subst (Counts sat (m ∷ ms)) (some_inj.0 e)
      (Counts-add sat m b ms r p (count_members-Counts sat ms r q))

-- Sorting what blocks and adding the verdict leaves the counts.
Counts-finish :
    (sat : Str → Answer) (ms : List Str) (st : GroupStat) (met : Bool)
    → Counts sat ms st
    → Counts sat ms (record st { blocking = sort_strings st.blocking; met = met })
Counts-finish sat ms st met c = record {
  total = c.total;
  parts = omega (arith, c.parts, length-sort_strings st.blocking);
  answered = c.answered;
  blocked = λ m. (
    λ i. (c.blocked m).0 ((in-sort_strings m st.blocking).0 i),
    λ h. (in-sort_strings m st.blocking).1 ((c.blocked m).1 h),
  );
}

-- The group has members, and each of them is satisfied.
abbrev pub AllHold : (Str → Answer) → List Str → Type 0
AllHold sat ms = (0 < length ms) × ((m : Str) → In m ms → sat m ≡ some true)

-- A count of all members is a count of those that answered yes.
Counts-all :
    (sat : Str → Answer) (ms : List Str) (st : GroupStat)
    → Counts sat ms st
    → (rule_met every st.total st.satisfied ≡ true) ↔ AllHold sat ms
unfolding rule_met
Counts-all sat ms st c = (
  λ h. (
    ground (arith, c.total),
    λ m i. elim (c.answered m i) [
      | inl t ↦ t
      | inr f ↦
          absurd
            (no_member st.blocking m (ground (arith, c.total, c.parts)) ((c.blocked m).1 (i, f)))
    ],
  ),
  λ h.
      let none_left : length st.blocking ≡ 0 = no_members st.blocking (blocked_none h.1) in
      ground (arith, c.total, c.parts, none_left, h.0),
)
  where
    blocked_none : ((m : Str) → In m ms → sat m ≡ some true) → (m : Str) → ¬ In m st.blocking
    blocked_none h m i = let (j, f) = (c.blocked m).0 i in cc (h m j, f)

module _ (fl : Floats) (g : Graph) where
  -- Where it answers, GroupStat of a node of the graph counts the members that are live at the date, and its verdict is the rule
  -- of the node's expression at these counts.
  pub group_stat-Counts :
      (fresh sat : Str → Answer) (id at : Str) (n : Node) (st : GroupStat)
      → node_at g id ≡ some n
      → group_stat fl g fresh sat id at ≡ some st
      → (ms : List Str) × (members_at fl g fresh id at ≡ some ms)
        × Counts sat ms st
        × IsSorted st.blocking
        × (st.met ≡ meets n.group_expr st.total st.satisfied)
  unfolding group_stat
  group_stat-Counts fresh sat id at n st p h =
      let (ms, q, k) =
        >>=-eq-some (members_at fl g fresh id at) (finish) (rw (p, group_stat) at h) in
      let (r, c, e) = >>=-eq-some (count_members sat ms) verdict k in
      let counted = count_members-Counts sat ms r c in
      (
        ms,
        q,
        subst (Counts sat ms) (some_inj.0 e)
            (Counts-finish sat ms r (meets n.group_expr r.total r.satisfied) counted),
        subst (λ (s : GroupStat). IsSorted s.blocking) (some_inj.0 e)
            (IsSorted-sort_strings r.blocking),
        subst (λ (s : GroupStat). s.met ≡ meets n.group_expr s.total s.satisfied) (some_inj.0 e)
            refl,
      )
    where
      verdict : GroupStat → Option GroupStat
      verdict st' = some (record st' {
        blocking = sort_strings st'.blocking;
        met = meets n.group_expr st'.total st'.satisfied;
      })

      finish : List Str → Option GroupStat
      finish ms = count_members sat ms >>= verdict

  -- Where GroupStat answers, a group whose expression is `all` is met exactly when it has members and each is satisfied.
  pub group_stat-every :
      (fresh sat : Str → Answer) (id at : Str) (n : Node) (st : GroupStat)
      → node_at g id ≡ some n
      → rule_of n.group_expr ≡ every
      → group_stat fl g fresh sat id at ≡ some st
      → (ms : List Str) × (members_at fl g fresh id at ≡ some ms)
        × ((st.met ≡ true) ↔ AllHold sat ms)
  group_stat-every fresh sat id at n st p r h =
      let (ms, q, c, o, e) = group_stat-Counts fresh sat id at n st p h in
      let rule : st.met ≡ rule_met every st.total st.satisfied =
        e
        ∙ (meets_lem n.group_expr st.total st.satisfied
            ∙ ap (λ x. rule_met x st.total st.satisfied) r) in
      (ms, q, subst (λ b. (b ≡ true) ↔ AllHold sat ms) (sym rule) (Counts-all sat ms st c))
