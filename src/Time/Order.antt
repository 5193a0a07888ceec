-- ===== src/Time/Order.antt =====
-- The order that `compare` of eval.go gives.
use kgraph.Base.{Str, ◌≡◌, arith, none, Option-cases, inl, inr, str_lt, str_lt_asymm}
use kgraph.Time.{Floats, Cmp, before, same, after, is_before, is_after, str_compare, compare}

abbrev pub flip : Cmp → Cmp
flip before = after
flip same = same
flip after = before

module _ (fl : Floats) where
  open fl use {parse_float, less, less_asymm, less_trans}

  -- Exchanging the two texts exchanges before and after, for numerals and for text.
  pub compare-flip : (a b : Str) → compare fl b a ≡ flip (compare fl a b)
  unfolding compare
  compare-flip a b = elim (Option-cases (parse_float a)) [
    | inl p ↦ elim (Option-cases (parse_float b)) [
      | inl q ↦ rw (p, q, compare) (ground (arith, str_lt_asymm a b))
      | inr (y, q) ↦ rw (p, q, compare) (ground (arith, str_lt_asymm a b))
    ]
    | inr (x, p) ↦ elim (Option-cases (parse_float b)) [
      | inl q ↦ rw (p, q, compare) (ground (arith, str_lt_asymm a b))
      | inr (y, q) ↦ rw (p, q, compare) (ground (arith, less_asymm x y))
    ]
  ]

  -- A text that ParseFloat refuses, such as a day 2026-07-01.
  abbrev pub IsText : Str → Type 0
  IsText s = parse_float s ≡ none

  pub compare_text : (a b : Str) → IsText a → compare fl a b ≡ str_compare a b
  unfolding compare
  compare_text a b h = rw (h, compare)

  -- On texts `before` is bytewise order.
  pub before_iff : (a b : Str) → IsText a → is_before (compare fl a b) ≡ str_lt a b
  unfolding is_before str_compare
  before_iff a b h = rw (compare_text a b h) (ground arith)

  pub after_iff : (a b : Str) → IsText a → is_after (compare fl a b) ≡ str_lt b a
  unfolding is_after str_compare
  after_iff a b h = rw (compare_text a b h) (ground (arith, str_lt_asymm a b))
