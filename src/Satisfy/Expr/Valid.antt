-- ===== src/Satisfy/Expr/Valid.antt =====
-- The two readers of a group expression compared.
use kgraph.Base.{
  Str, lit, ℕ, ap, ◌∙◌, ◌⊎◌, lt→ltb, [], ◌∷◌, ◌<◌, str_eq_iff, ◌≡◌, ◌≢◌, ◌↔◌, refl, Bool, true,
  false, not, ◌&&◌, ◌||◌, if◌then◌else◌, Option, none, arith, str_eq, has_prefix, has_suffix,
  trim_space, Bool-cases, inl, inr,
}
use kgraph.Satisfy.Expr.{
  Comparison, Rule, every, some_one, no_one, sum, unrecognised, group_cmp, compared_rule, rule_of,
  valid_group_expr, open_sum, rule_met, meets, meets_lem, is_some,
}

-- The comparison of two switches over the same tests.
module _ (a b c s t : Bool) (cmp : Option (Comparison × ℕ)) where
  abbrev switch_rule : Rule
  switch_rule =
      if a
      then every
      else if b
      then some_one
      else if c
      then no_one
      else if s
      then sum
      else compared_rule cmp

  switches_agree :
      (a ≡ true → s ≡ false)
      → (b ≡ true → s ≡ false)
      → (c ≡ true → s ≡ false)
      → (s ≡ true → cmp ≡ none)
      → ((if a || (b || c) then true else if s && t then true else is_some cmp) ≡ true)
        ↔ ((switch_rule ≢ unrecognised) × ((s && not t) ≡ false))
  unfolding compared_rule
  switches_agree ha hb hc hs = (
    λ h. (λ (e : switch_rule ≡ unrecognised). ground arith, ground arith),
    λ (n, o). ground arith,
  )

  switch_sum :
      (a ≡ true → s ≡ false)
      → (b ≡ true → s ≡ false)
      → (c ≡ true → s ≡ false)
      → s ≡ true
      → switch_rule ≡ sum
  switch_sum ha hb hc h = ground arith

prefix_not_sum :
    (e : Str) (w : Str)
    → has_prefix w (lit "sum(") ≡ false
    → str_eq e w ≡ true
    → has_prefix e (lit "sum(") ≡ false
prefix_not_sum e w h q = rw ((str_eq_iff e w).0 q) h

-- No text that begins a sum begins a comparison.
sum-group_cmp : (e : Str) → has_prefix e (lit "sum(") ≡ true → group_cmp e ≡ none
unfolding has_prefix group_cmp
sum-group_cmp [] h = cc
sum-group_cmp (x ∷ e) h = let p : x ≡ 115 = ground arith in rw p

-- A group expression is valid exactly when groupStat has a branch for it and it is no sum that
-- lacks its closing parenthesis.
pub valid_group_expr_exact :
    (expr : Str)
    → (valid_group_expr expr ≡ true) ↔ ((rule_of expr ≢ unrecognised) × (open_sum expr ≡ false))
unfolding valid_group_expr rule_of
valid_group_expr_exact expr =
    let e = trim_space expr in
    switches_agree (str_eq e (lit "all")) (str_eq e (lit "any")) (str_eq e (lit "none"))
      (has_prefix e (lit "sum(")) (has_suffix e (lit ")")) (group_cmp e)
      (prefix_not_sum e (lit "all") refl) (prefix_not_sum e (lit "any") refl)
      (prefix_not_sum e (lit "none") refl) (sum-group_cmp e)

rule_of-sum : (expr : Str) → has_prefix (trim_space expr) (lit "sum(") ≡ true → rule_of expr ≡ sum
unfolding rule_of
rule_of-sum expr =
    let e = trim_space expr in
    switch_sum (str_eq e (lit "all")) (str_eq e (lit "any")) (str_eq e (lit "none"))
      (has_prefix e (lit "sum(")) true (group_cmp e) (prefix_not_sum e (lit "all") refl)
      (prefix_not_sum e (lit "any") refl) (prefix_not_sum e (lit "none") refl)

-- A sum without its closing parenthesis is refused as invalid, and yet a group with a member and
-- that expression is met.
pub open_sum_met :
    (expr : Str) (total satisfied : ℕ)
    → open_sum expr ≡ true
    → 0 < total
    → (valid_group_expr expr ≡ false) × (meets expr total satisfied ≡ true)
open_sum_met expr total satisfied h pos = (
  refused (Bool-cases (valid_group_expr expr)),
  meets_lem expr total satisfied
      ∙ (ap (λ r. rule_met r total satisfied) (rule_of-sum expr (and_left _ _ h))
          ∙ unfold rule_met in lt→ltb 0 total pos),
)
  where
    and_left : (a b : Bool) → (a && b) ≡ true → a ≡ true
    and_left a b e = ground arith

    refused :
        (valid_group_expr expr ≡ true) ⊎ (valid_group_expr expr ≡ false)
        → valid_group_expr expr ≡ false
    refused (inl v) = cc (h, ((valid_group_expr_exact expr).0 v).1)
    refused (inr n) = n
