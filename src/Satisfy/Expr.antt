-- ===== src/Satisfy/Expr.antt =====
-- Group expressions, eval.go: what `groupStat` branches on, and `ValidGroupExpr`.
pub mod Valid
use Prim.Native.Nat.{min}
use kgraph.Base.{
  Str, lit, ℕ, zero, suc, ◌+◌, ◌-◌, ◌*◌, ◌^◌, ◌≡◌, ◌≢◌, ◌↔◌, refl, Bool, true, false, not, ◌&&◌,
  ◌||◌, if◌then◌else◌, Option, none, some, List, [], ◌∷◌, is_empty, str_eq, has_prefix, has_suffix,
  trim_space, leb, ltb, ◌==◌, drop, all, arith,
}

pub data Comparison : Type 0 where
  at_least at_most equal more less : Comparison

-- The branches of the switch in groupStat.
pub data Rule : Type 0 where
  every some_one no_one sum unrecognised : Rule
  compared : Comparison → ℕ → Rule

is_digit : ℕ → Bool
is_digit c = leb 48 c && leb c 57

digits_value : ℕ → Str → ℕ
digits_value acc [] = acc
digits_value acc (c ∷ s) = digits_value (acc * 10 + (c - 48)) s

-- strconv.Atoi of digits, whose error is dropped: out of range it returns the largest int.
atoi : Str → ℕ
unfolding digits_value
atoi s = min (digits_value 0 s) (2 ^ 63 - 1)

-- \s in a regular expression: tab, newline, form feed, carriage return and space.
is_regex_space : ℕ → Bool
is_regex_space c = (c == 32) || (c == 9) || (c == 10) || (c == 12) || (c == 13)

skip_space : Str → Str
skip_space [] = []
skip_space (c ∷ s) = let rest = skip_space s in if is_regex_space c then rest else c ∷ s

number_after : Comparison → Str → Option (Comparison × ℕ)
unfolding skip_space is_regex_space atoi is_digit all
number_after op rest =
    let ds = skip_space rest in
    if not (is_empty ds) && all is_digit ds then some (op, atoi ds) else none

-- groupCmp.FindStringSubmatch, for ^(>=|<=|==|>|<)\s*(\d+)$
unfoldable pub group_cmp : Str → Option (Comparison × ℕ)
unfolding number_after has_prefix
group_cmp e =
    if has_prefix e (lit ">=")
    then number_after at_least (drop 2 e)
    else if has_prefix e (lit "<=")
    then number_after at_most (drop 2 e)
    else if has_prefix e (lit "==")
    then number_after equal (drop 2 e)
    else if has_prefix e (lit ">")
    then number_after more (drop 1 e)
    else if has_prefix e (lit "<")
    then number_after less (drop 1 e)
    else none

unfoldable pub compared_rule : Option (Comparison × ℕ) → Rule
compared_rule (some (op, k)) = compared op k
compared_rule none = unrecognised

unfoldable pub rule_of : Str → Rule
unfolding compared_rule group_cmp trim_space str_eq has_prefix
rule_of expr =
    let e = trim_space expr in
    if str_eq e (lit "all")
    then every
    else if str_eq e (lit "any")
    then some_one
    else if str_eq e (lit "none")
    then no_one
    else if has_prefix e (lit "sum(")
    then sum
    else compared_rule (group_cmp e)

unfoldable pub compare_count : Comparison → ℕ → ℕ → Bool
compare_count at_least satisfied k = leb k satisfied
compare_count more satisfied k = ltb k satisfied
compare_count at_most satisfied k = leb satisfied k
compare_count less satisfied k = ltb satisfied k
compare_count equal satisfied k = satisfied == k

unfoldable pub rule_met : Rule → ℕ → ℕ → Bool
unfolding compare_count
rule_met every total satisfied = ltb 0 total && (satisfied == total)
rule_met some_one total satisfied = leb 1 satisfied
rule_met no_one total satisfied = satisfied == 0
rule_met sum total satisfied = ltb 0 total
rule_met (compared op k) total satisfied = compare_count op satisfied k
rule_met unrecognised total satisfied = false

-- The switch of groupStat.
unfoldable pub meets : Str → ℕ → ℕ → Bool
unfolding rule_of rule_met
meets expr total satisfied = rule_met (rule_of expr) total satisfied

pub meets_lem :
    (expr : Str) (total satisfied : ℕ)
    → meets expr total satisfied ≡ rule_met (rule_of expr) total satisfied
unfolding meets
meets_lem expr total satisfied = refl

abbrev pub is_some {ℓ} : {A : Type ℓ} → Option A → Bool
is_some (some _) = true
is_some none = false

unfoldable pub valid_group_expr : Str → Bool
unfolding group_cmp trim_space str_eq has_prefix has_suffix
valid_group_expr expr =
    let e = trim_space expr in
    if str_eq e (lit "all") || (str_eq e (lit "any") || str_eq e (lit "none"))
    then true
    else if has_prefix e (lit "sum(") && has_suffix e (lit ")")
    then true
    else is_some (group_cmp e)

-- A sum that is not closed.
abbrev pub open_sum : Str → Bool
open_sum expr =
    has_prefix (trim_space expr) (lit "sum(") && not (has_suffix (trim_space expr) (lit ")"))
