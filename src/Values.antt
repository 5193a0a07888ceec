-- ===== src/Values.antt =====
-- eval.go: computed values and dates, `= a.value - b.value` and `= a.at + 3y`. The recursion takes fuel,
-- and `unfinished` is its end. A float64 is its bits; its sums are the parameter `Numbers`, and
-- time.Parse, AddDate and Format on days are the parameter `Calendar`.
pub mod Total
use kgraph.Base.{
  Str, lit, ℕ, zero, suc, ◌+◌, ◌-◌, ◌*◌, Bool, true, false, not, ◌&&◌, ◌||◌, if◌then◌else◌, Option,
  none, some, List, [], ◌∷◌, ◌++◌, is_empty, has, str_eq, has_prefix, has_suffix, take, length,
  trim_space, is_space, leb, all, ◌==◌, sort_strings, keep, map,
}
use kgraph.Model.{Node, Edge, group, kind_eq, member_of, type_eq}
use kgraph.Time.{Floats}
use kgraph.Graph.{Graph, node_at}

pub record Numbers : Type 0 where
  pub nought : ℕ
  pub plus : ℕ → ℕ → ℕ
  pub minus : ℕ → ℕ → ℕ
  pub format : ℕ → Str

-- An int, with its sign.
pub data Signed : Type 0 where
  up down : ℕ → Signed

pub record Offset : Type 0 where
  pub years : Signed
  pub months : Signed
  pub days : Signed

pub record Calendar : Type 0 where
  pub parse_day : Str → Option ℕ
  pub add_date : ℕ → Offset → ℕ
  pub format_day : ℕ → Str

-- An answer that may be missing (`absent`) or not be reached.
pub data Answer {ℓ} (A : Type ℓ) : Type ℓ where
  present : A → Answer A
  absent unfinished : Answer A

unfoldable pub after : {A B : Type 0} → Answer A → (A → Answer B) → Answer B
after (present a) f = f a
after absent f = absent
after unfinished f = unfinished

-- strings.Fields on a text without Unicode white space outside ASCII, such as U+00A0, with the field
-- that was begun.
unfoldable pub split_fields : Str → Str → List Str
unfolding is_space
split_fields begun [] = if is_empty begun then [] else begun ∷ []
split_fields begun (c ∷ s) = elim (is_space c) [
  | false ↦ split_fields (begun ++ c ∷ []) s
  | true ↦ if is_empty begun then split_fields [] s else begun ∷ split_fields [] s
]

unfoldable pub trim_prefix : Str → Str → Str
trim_prefix s [] = s
trim_prefix [] (b ∷ p) = []
trim_prefix (a ∷ s) (b ∷ p) = if has_prefix (a ∷ s) (b ∷ p) then trim_prefix s p else a ∷ s

pub record ExprTerm : Type 0 where
  pub operand : Str
  pub negative : Bool

unfoldable pub split_terms : List Str → Option (List ExprTerm)
split_terms [] = some []
split_terms (op ∷ []) = none
split_terms (op ∷ f ∷ fs) =
    let rest = split_terms fs in
    if str_eq op (lit "+")
    then elim rest [ none ↦ none | some ts ↦ some (record { operand = f; negative = false } ∷ ts) ]
    else if str_eq op (lit "-")
    then elim rest [ none ↦ none | some ts ↦ some (record { operand = f; negative = true } ∷ ts) ]
    else none

unfoldable pub split_expr : Str → Option (List ExprTerm)
unfolding split_fields trim_prefix split_terms trim_space
split_expr s = elim (split_fields [] (trim_space (trim_prefix (trim_space s) (lit "=")))) [
  | [] ↦ none
  | f ∷ fs ↦ elim (split_terms fs) [
    | none ↦ none
    | some ts ↦ some (record { operand = f; negative = false } ∷ ts)
  ]
]

unfoldable pub cut_suffix : Str → Str → Option Str
unfolding has_suffix
cut_suffix s suffix = if has_suffix s suffix then some (take (length s - length suffix) s) else none

unfoldable pub is_letter : ℕ → Bool
is_letter c = (leb 65 c && leb c 90) || (leb 97 c && leb c 122)

unfoldable pub is_digit : ℕ → Bool
is_digit c = leb 48 c && leb c 57

unfoldable pub is_name : Str → Bool
unfolding is_letter is_digit
is_name [] = false
is_name (c ∷ s) =
    (is_letter c || (c == 95)) && all (λ d. is_letter d || is_digit d || (d == 95) || (d == 45)) s

-- refTerm with its second group fixed to `part`.
unfoldable pub ref_term : Str → Str → Option Str
unfolding cut_suffix is_name
ref_term part s = elim (cut_suffix s (lit "." ++ part)) [
  | none ↦ none
  | some id ↦ if is_name id then some id else none
]

unfoldable pub decimal : ℕ → Str → Option ℕ
unfolding is_digit
decimal acc [] = some acc
decimal acc (c ∷ s) =
    let rest = decimal (acc * 10 + (c - 48)) s in if is_digit c then rest else none

-- strconv.Atoi, on 64 bits.
unfoldable pub in_range : ℕ → Option ℕ → Option ℕ
in_range top none = none
in_range top (some v) = if leb v top then some v else none

unfoldable pub digits : ℕ → Str → Option ℕ
unfolding decimal in_range
digits top [] = none
digits top (c ∷ s) = in_range top (decimal 0 (c ∷ s))

unfoldable pub atoi : Str → Option Signed
unfolding digits
atoi [] = none
atoi (c ∷ s) =
    if c == 45
    then elim (digits 9223372036854775808 s) [ none ↦ none | some v ↦ some (down v) ]
    else elim (digits 9223372036854775807 (if c == 43 then s else c ∷ s)) [
      | none ↦ none
      | some v ↦ some (up v)
    ]

unfoldable pub no_offset : Offset
no_offset = record { years = up 0; months = up 0; days = up 0 }

-- The units mo, y and d, in this order; the first suffix that fits decides.
unfoldable pub parse_offset : Str → Option Offset
unfolding cut_suffix atoi no_offset
parse_offset s = elim (cut_suffix s (lit "mo")) [
  | some num ↦ elim (atoi num) [ none ↦ none | some v ↦ some (record no_offset { months = v }) ]
  | none ↦ elim (cut_suffix s (lit "y")) [
    | some num ↦ elim (atoi num) [ none ↦ none | some v ↦ some (record no_offset { years = v }) ]
    | none ↦ elim (cut_suffix s (lit "d")) [
      | some num ↦ elim (atoi num) [ none ↦ none | some v ↦ some (record no_offset { days = v }) ]
      | none ↦ none
    ]
  ]
]

-- -v, where the least int is its own negative.
unfoldable pub negate : Signed → Signed
negate (up v) = down v
negate (down v) = if v == 9223372036854775808 then down v else up v

unfoldable pub turn : Bool → Offset → Offset
unfolding negate
turn false o = o
turn true o = record { years = negate o.years; months = negate o.months; days = negate o.days }

-- The loop over the terms after the first.
unfoldable pub shift_days : Calendar → List ExprTerm → ℕ → Option ℕ
unfolding parse_offset turn
shift_days cal [] day = some day
shift_days cal (t ∷ ts) day = elim (parse_offset t.operand) [
  | none ↦ none
  | some o ↦ shift_days cal ts (cal.add_date day (turn t.negative o))
]

module _ (fl : Floats) (num : Numbers) (cal : Calendar) (g : Graph) where
  -- The first term is taken as it is and the others are added or subtracted.
  unfoldable pub combine : Bool → ℕ → ℕ → ℕ
  combine true acc v = num.minus acc v
  combine false acc v = num.plus acc v

  -- `value_of` answers for a node, one level down.
  unfoldable pub term_value : (Str → Answer ℕ) → Str → Answer ℕ
  unfolding ref_term
  term_value value_of s = elim (ref_term (lit "value") s) [
    | some id ↦ value_of id
    | none ↦ elim (fl.parse_float s) [ none ↦ absent | some f ↦ present f ]
  ]

  unfoldable pub add_terms : (Str → Answer ℕ) → List ExprTerm → ℕ → Answer ℕ
  unfolding term_value combine after
  add_terms value_of [] acc = present acc
  add_terms value_of (t ∷ ts) acc =
      after (term_value value_of t.operand) (λ v. add_terms value_of ts (combine t.negative acc v))

  -- The sum over the members of a group that have a value; without one there is none.
  unfoldable pub add_members : (Str → Answer ℕ) → List Str → ℕ → Bool → Answer ℕ
  add_members value_of [] sum found = if found then present sum else absent
  add_members value_of (m ∷ ms) sum found = elim (value_of m) [
    | present v ↦ add_members value_of ms (num.plus sum v) true
    | absent ↦ add_members value_of ms sum found
    | unfinished ↦ unfinished
  ]

  -- g.members(id): with no date every edge is live.
  unfoldable pub members : Str → List Str
  members id = sort_strings (
      map (λ (e : Edge). e.src)
        (keep (λ e. type_eq e.type member_of && str_eq e.dst id) (g.incident id)))

  unfoldable pub node_value : (Str → Answer ℕ) → Str → Node → Answer ℕ
  unfolding members add_members split_expr add_terms trim_space has_prefix
  node_value value_of id n =
      if n.has_value
      then present n.value
      else if kind_eq n.kind group && has_prefix (trim_space n.group_expr) (lit "sum(")
      then add_members value_of (members id) num.nought false
      else if is_empty n.value_expr
      then absent
      else elim (split_expr n.value_expr) [
        | none ↦ absent
        | some ts ↦ add_terms value_of ts num.nought
      ]

  unfoldable pub resolve_value : ℕ → List Str → Str → Answer ℕ
  unfolding node_value
  resolve_value zero seen id = unfinished
  resolve_value (suc fuel) seen id = elim (node_at g id) [
    | none ↦ absent
    | some n ↦ if has seen id then absent else node_value (resolve_value fuel (id ∷ seen)) id n
  ]

  unfoldable pub derived_at : (Str → Answer Str) → List ExprTerm → Answer Str
  unfolding ref_term shift_days after
  derived_at at_of [] = absent
  derived_at at_of (t ∷ ts) = elim (ref_term (lit "at") t.operand) [
    | none ↦ absent
    | some id ↦ after (at_of id) (λ base. elim (cal.parse_day base) [
      | none ↦ absent
      | some day ↦ elim (shift_days cal ts day) [
        | none ↦ absent
        | some d ↦ present (cal.format_day d)
      ]
    ])
  ]

  unfoldable pub node_date : (Str → Answer Str) → Node → Answer Str
  unfolding split_expr derived_at
  node_date at_of n =
      if not (is_empty n.at)
      then present n.at
      else if is_empty n.at_expr
      then absent
      else elim (split_expr n.at_expr) [ none ↦ absent | some ts ↦ derived_at at_of ts ]

  unfoldable pub resolve_at : ℕ → List Str → Str → Answer Str
  unfolding node_date
  resolve_at zero seen id = unfinished
  resolve_at (suc fuel) seen id = elim (node_at g id) [
    | none ↦ absent
    | some n ↦ if has seen id then absent else node_date (resolve_at fuel (id ∷ seen)) n
  ]
