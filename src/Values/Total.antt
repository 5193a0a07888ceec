-- ===== src/Values/Total.antt =====
-- The depth at which resolveValue and resolveAt of eval.go are answered.
use kgraph.Base.{
  Str, lit, ℕ, zero, suc, ◌<◌, ◌≢◌, refl, inl, inr, Bool, true, false, not, ◌&&◌, if◌then◌else◌,
  Option, none, some, List, [], ◌∷◌, arith, is_empty, has, Bool-cases, Option-cases, has_prefix,
  trim_space,
}
use kgraph.Model.{Node, group, kind_eq}
use kgraph.Time.{Floats}
use kgraph.Graph.{Graph, node_at}
use kgraph.Graph.Unseen.{unseen, unseen-cons-lt}
use kgraph.Values.{
  Numbers, Calendar, ExprTerm, Answer, present, absent, unfinished, after, split_expr, ref_term,
  shift_days, term_value, add_terms, add_members, node_value, resolve_value, derived_at, node_date,
  resolve_at,
}

abbrev Settled : {A : Type 0} → Answer A → Type 0
Settled a = a ≢ unfinished

Settled-after :
    {A B : Type 0} (a : Answer A) (f : A → Answer B)
    → Settled a
    → ((x : A) → Settled (f x))
    → Settled (after a f)
unfolding after
Settled-after (present a) f h k p = k a p
Settled-after absent f h k p = cc p
Settled-after unfinished f h k p = h refl

Settled-if :
    {A : Type 0} (b : Bool) (x y : Answer A) → Settled x → Settled y → Settled (if b then x else y)
Settled-if true x y h k = h
Settled-if false x y h k = k

abbrev no_answer : {A : Type 0} → Answer A
no_answer = absent

Settled-absent : {A : Type 0} → Settled (no_answer {A = A})
Settled-absent p = cc p

Settled-present : {A : Type 0} (a : A) → Settled (present a)
Settled-present a p = cc p

-- An option that decides whether the computation goes on.
Settled-elim :
    {A B : Type 0} (o : Option A) (f : A → Answer B)
    → ((a : A) → Settled (f a))
    → Settled (elim o as (λ _. Answer B) [ none ↦ absent | some a ↦ f a ])
Settled-elim none f h = Settled-absent
Settled-elim (some a) f h = h a

module _ (fl : Floats) (num : Numbers) (cal : Calendar) (g : Graph) where
  Settled-add_terms :
      (value_of : Str → Answer ℕ) (ts : List ExprTerm) (acc : ℕ)
      → ((s : Str) → Settled (value_of s))
      → Settled (add_terms fl num cal g value_of ts acc)
  unfolding add_terms term_value
  Settled-add_terms value_of [] acc h = Settled-present acc
  Settled-add_terms value_of (t ∷ ts) acc h =
      Settled-after (term_value fl num cal g value_of t.operand) _
        (term (ref_term (lit "value") t.operand)) (λ v. Settled-add_terms value_of ts _ h)
    where
      term :
          (r : Option Str)
          → Settled (elim r as (λ _. Answer ℕ) [
            | some id ↦ value_of id
            | none ↦ elim (fl.parse_float t.operand) as (λ _. Answer ℕ) [
              | none ↦ absent
              | some f ↦ present f
            ]
          ])
      term (some id) = h id
      term none = Settled-elim (fl.parse_float t.operand) present Settled-present

  Settled-add_members :
      (value_of : Str → Answer ℕ) (ms : List Str) (sum : ℕ) (found : Bool)
      → ((s : Str) → Settled (value_of s))
      → Settled (add_members fl num cal g value_of ms sum found)
  unfolding add_members
  Settled-add_members value_of [] sum found h =
      Settled-if found _ _ (Settled-present sum) Settled-absent
  Settled-add_members value_of (m ∷ ms) sum found h =
      each (value_of m) (λ s b. Settled-add_members value_of ms s b h) (h m)
    where
      each :
          (a : Answer ℕ)
          → ((s : ℕ) (b : Bool) → Settled (add_members fl num cal g value_of ms s b))
          → Settled a
          → Settled (elim a as (λ _. Answer ℕ) [
            | present v ↦ add_members fl num cal g value_of ms (num.plus sum v) true
            | absent ↦ add_members fl num cal g value_of ms sum found
            | unfinished ↦ unfinished
          ])
      each (present v) rest k = rest (num.plus sum v) true
      each absent rest k = rest sum found
      each unfinished rest k = k

  Settled-node_value :
      (value_of : Str → Answer ℕ) (id : Str) (n : Node)
      → ((s : Str) → Settled (value_of s))
      → Settled (node_value fl num cal g value_of id n)
  unfolding node_value
  Settled-node_value value_of id n h = Settled-if n.has_value _ _ (Settled-present n.value) (
      Settled-if (kind_eq n.kind group && has_prefix (trim_space n.group_expr) (lit "sum(")) _ _
        (Settled-add_members value_of _ _ _ h)
        (Settled-if (is_empty n.value_expr) _ _ Settled-absent
          (Settled-elim (split_expr n.value_expr) _ (λ ts. Settled-add_terms value_of ts _ h))))

  -- The value of a node is settled, to a number or to none: one level more than there are nodes not
  -- yet seen is deep enough, also where expressions and group sums refer to one another in a ring.
  pub resolve_value-ends :
      (fuel : ℕ) (seen : List Str) (id : Str)
      → unseen g.nodes seen < fuel
      → resolve_value fl num cal g fuel seen id ≢ unfinished
  unfolding resolve_value node_at
  resolve_value-ends zero seen id u p = absurd (omega arith)
  resolve_value-ends (suc fuel) seen id u p = elim (Option-cases (node_at g id)) [
    | inl q ↦ cc (rw (q, resolve_value) at p)
    | inr (n, q) ↦ elim (Bool-cases (has seen id)) [
      | inl s ↦ cc (rw (q, s, resolve_value) at p)
      | inr s ↦
          Settled-node_value (resolve_value fl num cal g fuel (id ∷ seen)) id n
            (λ x.
              resolve_value-ends fuel (id ∷ seen) x
                (omega (arith, unseen-cons-lt g.nodes seen id n q s)))
            (rw (q, s, resolve_value) at p)
    ]
  ]

  Settled-node_date :
      (at_of : Str → Answer Str) (n : Node)
      → ((s : Str) → Settled (at_of s))
      → Settled (node_date fl num cal g at_of n)
  unfolding node_date derived_at
  Settled-node_date at_of n h = Settled-if (not (is_empty n.at)) _ _ (Settled-present n.at) (
      Settled-if (is_empty n.at_expr) _ _ Settled-absent
        (Settled-elim (split_expr n.at_expr) _ derived))
    where
      derived : (ts : List ExprTerm) → Settled (derived_at fl num cal g at_of ts)
      derived [] = Settled-absent
      derived (t ∷ ts) = Settled-elim (ref_term (lit "at") t.operand) _ (λ id.
          Settled-after (at_of id) _ (h id) (λ base.
            Settled-elim (cal.parse_day base) _
              (λ day. Settled-elim (shift_days cal ts day) _ (λ d. Settled-present _))))

  -- The date of a node is settled, to a date or to none: one level more than there are nodes not yet
  -- seen is deep enough.
  pub resolve_at-ends :
      (fuel : ℕ) (seen : List Str) (id : Str)
      → unseen g.nodes seen < fuel
      → resolve_at fl num cal g fuel seen id ≢ unfinished
  unfolding resolve_at node_at
  resolve_at-ends zero seen id u p = absurd (omega arith)
  resolve_at-ends (suc fuel) seen id u p = elim (Option-cases (node_at g id)) [
    | inl q ↦ cc (rw (q, resolve_at) at p)
    | inr (n, q) ↦ elim (Bool-cases (has seen id)) [
      | inl s ↦ cc (rw (q, s, resolve_at) at p)
      | inr s ↦
          Settled-node_date (resolve_at fl num cal g fuel (id ∷ seen)) n
            (λ x.
              resolve_at-ends fuel (id ∷ seen) x
                (omega (arith, unseen-cons-lt g.nodes seen id n q s)))
            (rw (q, s, resolve_at) at p)
    ]
  ]
