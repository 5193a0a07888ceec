-- ===== src/Time.antt =====
-- Dates and windows: `compare`, `validAt` and the date intervals of eval.go, `Alias.Holds` of
-- node.go, `overlaps` of graph.go and `windowsOverlap` of conflict.go.
-- strconv.ParseFloat and the order of float64 are the parameter `Floats`; a float64 is its bits.
pub mod Order
pub mod Windows
use kgraph.Base.{
  Str, lit, ℕ, ◌≡◌, Bool, true, false, not, ◌&&◌, ◌||◌, if◌then◌else◌, Option, none, some, List, [],
  ◌∷◌, ◌++◌, length, ◌==◌, is_empty, str_lt,
}
use kgraph.Model.{Alias, Node}

-- strconv.ParseFloat(s, 64), with `none` for an error, and `<` on float64, which IEEE 754 makes
-- irreflexive, asymmetric and transitive, NaN included.
pub record Floats : Type 0 where
  pub parse_float : Str → Option ℕ
  pub less : ℕ → ℕ → Bool
  pub less_asymm : (x y : ℕ) → less x y ≡ true → less y x ≡ false
  pub less_trans : (x y z : ℕ) → less x y ≡ true → less y z ≡ true → less x z ≡ true

-- The results -1, 0 and 1 of a Go comparison.
pub data Cmp : Type 0 where
  before same after : Cmp

unfoldable pub is_before : Cmp → Bool
is_before before = true
is_before _ = false

unfoldable pub is_after : Cmp → Bool
is_after after = true
is_after _ = false

unfoldable pub is_same : Cmp → Bool
is_same same = true
is_same _ = false

-- strings.Compare
unfoldable pub str_compare : Str → Str → Cmp
str_compare a b = if str_lt a b then before else if str_lt b a then after else same

module _ (fl : Floats) where
  open fl use {parse_float, less}

  -- Two numerals compare as numbers, and all else as text.
  unfoldable pub compare : Str → Str → Cmp
  unfolding str_compare
  compare a b = elim (parse_float a) [
    | none ↦ str_compare a b
    | some fa ↦ elim (parse_float b) [
      | none ↦ str_compare a b
      | some fb ↦ if less fa fb then before else if less fb fa then after else same
    ]
  ]

  unfoldable pub valid_at : Node → Str → Bool
  unfolding is_before is_after
  valid_at n at =
      if not (is_empty n.valid_from) && is_before (compare at n.valid_from)
      then false
      else if not (is_empty n.valid_until) && is_after (compare at n.valid_until)
      then false
      else true

  unfoldable pub holds : Alias → Str → Bool
  unfolding is_before
  holds a at =
      if is_empty at
      then true
      else if not (is_empty a.starts) && is_before (compare at a.starts)
      then false
      else if not (is_empty a.until) && not (is_before (compare at a.until))
      then false
      else true

  unfoldable pub overlaps : Alias → Alias → Bool
  unfolding is_after
  overlaps a b =
      if not (is_empty a.until)
        && not (is_empty b.starts)
        && not (is_after (compare a.until b.starts))
      then false
      else if not (is_empty b.until)
          && not (is_empty a.starts)
          && not (is_after (compare b.until a.starts))
      then false
      else true

  unfoldable pub windows_overlap : Node → Node → Bool
  unfolding is_after
  windows_overlap a b =
      if not (is_empty a.valid_until)
        && not (is_empty b.valid_from)
        && not (is_after (compare a.valid_until b.valid_from))
      then false
      else if not (is_empty b.valid_until)
          && not (is_empty a.valid_from)
          && not (is_after (compare b.valid_until a.valid_from))
      then false
      else true

unfoldable pub date_floor : Str → Str
date_floor d =
    if length d == 4 then d ++ lit "-01-01" else if length d == 7 then d ++ lit "-01" else d

unfoldable pub date_ceil : Str → Str
date_ceil d =
    if length d == 4 then d ++ lit "-12-31" else if length d == 7 then d ++ lit "-31" else d

-- The Go operators >= and <= on strings are negated `<`.
unfoldable pub date_overlaps_window : Str → Str → Str → Bool
unfolding date_floor date_ceil
date_overlaps_window d from to =
    not (str_lt (date_ceil d) (date_floor from)) && not (str_lt (date_ceil to) (date_floor d))
