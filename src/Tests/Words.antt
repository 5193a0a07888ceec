-- ===== src/Tests/Words.antt =====
-- Dates, names, expressions and dialects at concrete values.
use kgraph.Base.{
  Str, lit, ℕ, ◌≤◌, ◌≡◌, ◌≢◌, refl, true, false, List, [], ◌∷◌, ◌↔◌, IsMap, has, not_in-has, str_eq,
}
use kgraph.Satisfy.Expr.{valid_group_expr, rule_of, unrecognised, open_sum}
use kgraph.Satisfy.Expr.Valid.{valid_group_expr_exact}
use kgraph.Dialect.{RuleLevel, error, off}
use kgraph.Phonetic.{edit_distance}
use kgraph.Phonetic.Least.{Script, edit_distance-least}

valid_group_expr_exact_example :
    (valid_group_expr (lit ">= 2") ≡ true)
    ↔ ((rule_of (lit ">= 2") ≢ unrecognised) × (open_sum (lit ">= 2") ≡ false))
valid_group_expr_exact_example = valid_group_expr_exact (lit ">= 2")

abbrev tuned : List (Str × RuleLevel)
tuned = (lit "near-duplicate", off) ∷ (lit "attestation", error) ∷ []

tuned-IsMap : IsMap tuned
unfolding has str_eq
tuned-IsMap = (
  not_in-has (lit "attestation" ∷ []) (lit "near-duplicate") refl,
  (not_in-has [] (lit "attestation") refl, tt),
)

edit_distance-least_example :
    Script (edit_distance (lit "barlow") (lit "borley")) (lit "barlow") (lit "borley")
    × ((n : ℕ)
        → Script n (lit "barlow") (lit "borley")
        → edit_distance (lit "barlow") (lit "borley") ≤ n)
edit_distance-least_example = edit_distance-least (lit "barlow") (lit "borley")

-- The two surnames that a consonant key confuses are three edits apart.
barlow_borley : edit_distance (lit "barlow") (lit "borley") ≡ 3
unfolding edit_distance str_eq
barlow_borley = refl
