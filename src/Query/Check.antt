-- ===== src/Query/Check.antt =====
-- ValidateQueryIn of eval.go: a query against the fields, the tables of values and the ladder of a
-- dialect. An error is a value, without the text of its message.
pub mod Typed
pub mod Fields
use kgraph.Base.{
  Str, lit, ℕ, Bool, true, false, not, ◌&&◌, ◌||◌, if◌then◌else◌, Option, none, some, List, [], ◌∷◌,
  ◌++◌, has, str_eq, ◌==◌, leb,
}
use kgraph.Time.{Floats}
use kgraph.Dialect.{Dialect, valid_class}
use kgraph.Query.{
  SortKey, Pred, Atom, Query, Queries, union_of, inter_of, complement, named, matching, scoped,
  no_queries, more,
}
use kgraph.Query.Parse.{is_kind}
use kgraph.Query.Field.{bool_fields}

pub data QueryError : Type 0 where
  unknown_sort unknown_kind unknown_field unknown_status unknown_needs unknown_class not_date
        not_compared not_flag not_number :
      Str → QueryError

unfoldable pub query_fields : List Str
query_fields =
    lit "id"
    ∷ lit "kind"
    ∷ lit "body"
    ∷ lit "status"
    ∷ lit "owner"
    ∷ lit "while"
    ∷ lit "unit"
    ∷ lit "precision"
    ∷ lit "valid_from"
    ∷ lit "valid_until"
    ∷ lit "from"
    ∷ lit "to"
    ∷ lit "computed"
    ∷ lit "class"
    ∷ lit "at"
    ∷ lit "value"
    ∷ lit "speaker"
    ∷ lit "medium"
    ∷ lit "needs"
    ∷ lit "disputed"
    ∷ lit "underdetermined"
    ∷ lit "impeached"
    ∷ []

unfoldable pub date_fields : List Str
date_fields = lit "at" ∷ lit "valid_from" ∷ lit "valid_until" ∷ lit "from" ∷ lit "to" ∷ []

unfoldable pub valid_status : List Str
valid_status =
    lit "asserted"
    ∷ lit "proposed"
    ∷ lit "open"
    ∷ lit "resolved"
    ∷ lit "done"
    ∷ lit "withdrawn"
    ∷ lit "false"
    ∷ []

unfoldable pub valid_needs : List Str
valid_needs = lit "evidence" ∷ lit "decision" ∷ lit "reply" ∷ lit "analysis" ∷ []

unfoldable pub digit : ℕ → Bool
digit c = leb 48 c && leb c 57

-- Two digits behind a dash, and what follows them.
unfoldable pub date_part : Str → Option Str
unfolding digit
date_part (d ∷ a ∷ b ∷ s) = if (d == 45) && digit a && digit b then some s else none
date_part _ = none

unfoldable pub month_and_day : Str → Bool
unfolding date_part
month_and_day [] = true
month_and_day (c ∷ s) = elim (date_part (c ∷ s)) [
  | none ↦ false
  | some [] ↦ true
  | some (d ∷ t) ↦ elim (date_part (d ∷ t)) [ some [] ↦ true | _ ↦ false ]
]

-- isDateLiteral: the word now, or what the expression dateLiteral matches.
unfoldable pub is_date_literal : Str → Bool
unfolding digit month_and_day
is_date_literal (a ∷ b ∷ c ∷ d ∷ s) =
    str_eq (a ∷ b ∷ c ∷ d ∷ s) (lit "now")
    || (digit a && digit b && digit c && digit d && month_and_day s)
is_date_literal s = str_eq s (lit "now")

unfoldable pub is_flag : Str → Bool
is_flag v = str_eq v (lit "true") || str_eq v (lit "false")

unfoldable pub is_number : Floats → Str → Bool
is_number fl v = elim (fl.parse_float v) [ none ↦ false | some _ ↦ true ]

-- An error for each value that does not pass.
unfoldable pub report : (Str → Bool) → (Str → QueryError) → List Str → List QueryError
report ok err [] = []
report ok err (v ∷ vs) = let rest = report ok err vs in if ok v then rest else err v ∷ rest

unfoldable pub compared_alike : Str → Bool
compared_alike op = str_eq op (lit "=") || str_eq op (lit "!=")

-- A flag is compared by = or != with true or false.
unfoldable pub check_flag : Pred → List QueryError
unfolding report compared_alike is_flag
check_flag p =
    if has bool_fields p.key && not (str_eq p.op (lit "has"))
    then (if compared_alike p.op then [] else not_compared p.key ∷ [])
      ++ report is_flag not_flag p.vals
    else []

module _ (fl : Floats) (dl : Dialect) where
  -- The checks of the values of a known field.
  unfoldable pub check_values : Pred → List QueryError
  unfolding report valid_status valid_needs date_fields is_date_literal is_number check_flag
  check_values p =
      (if str_eq p.key (lit "status") then report (has valid_status) unknown_status p.vals else [])
      ++ ((if str_eq p.key (lit "needs") then report (has valid_needs) unknown_needs p.vals else [])
          ++ ((if str_eq p.key (lit "class")
                then report (valid_class dl) unknown_class p.vals
                else [])
              ++ ((if has date_fields p.key then report is_date_literal not_date p.vals else [])
                  ++ (check_flag p
                      ++ (if str_eq p.key (lit "value") && not (str_eq p.op (lit "has"))
                          then report (is_number fl) not_number p.vals
                          else [])))))

  unfoldable pub check_pred : Pred → List QueryError
  unfolding query_fields check_values
  check_pred p = if has query_fields p.key then check_values p else unknown_field p.key ∷ []

  unfoldable pub check_preds : List Pred → List QueryError
  unfolding check_pred
  check_preds [] = []
  check_preds (p ∷ ps) = check_pred p ++ check_preds ps

  unfoldable pub check_atoms : List Atom → List QueryError
  unfolding report check_preds is_kind
  check_atoms [] = []
  check_atoms (a ∷ rest) =
      report is_kind unknown_kind a.kinds ++ (check_preds a.preds ++ check_atoms rest)

  unfoldable pub check_sort : List SortKey → List QueryError
  unfolding query_fields
  check_sort [] = []
  check_sort (k ∷ ks) =
      let rest = check_sort ks in if has query_fields k.key then rest else unknown_sort k.key ∷ rest

  -- ValidateQueryIn: the closure `walk`.
  unfoldable mutual
    pub validate_query : Query → List QueryError
    validate_query (union_of qs) = validate_all qs
    validate_query (inter_of qs) = validate_all qs
    validate_query (complement q) = validate_query q
    validate_query (named name) = []
    validate_query (matching p) = check_atoms p.atoms ++ check_sort p.sort
    validate_query (scoped q at sort) = validate_query q ++ check_sort sort

    pub validate_all : Queries → List QueryError
    validate_all no_queries = []
    validate_all (more q qs) = validate_query q ++ validate_all qs
