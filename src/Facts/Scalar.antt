-- ===== src/Facts/Scalar.antt =====
-- assignScalar of kfacts.go: the fields of a node that hold one value. `none` in place of a complaint
-- is a value that was accepted.
use kgraph.Base.{
  Str, lit, ◌==◌, Bool, true, false, if◌then◌else◌, Option, none, some, List, [], ◌∷◌, has,
  has_prefix, str_eq, length, find_key, join,
}
use kgraph.Model.{
  Node, Source, Status, asserted, proposed, still_open, resolved, done, withdrawn, tested_false,
  Needs, evidence, decision, reply, analysis, Precision, day, month, year, approx,
}
use kgraph.Time.{Floats}
use kgraph.Values.{split_fields}
use kgraph.Dialect.{Dialect, valid_class}
use kgraph.Facts.{
  Yaml, text_at, id_list, parse_aliases, Complaint, bad_status, bad_precision, bad_value, bad_needs,
  bad_class, says_nothing, self_same_as,
}

unfoldable pub status_table : List (Str × Status)
status_table =
    (lit "asserted", asserted)
    ∷ (lit "proposed", proposed)
    ∷ (lit "open", still_open)
    ∷ (lit "resolved", resolved)
    ∷ (lit "done", done)
    ∷ (lit "withdrawn", withdrawn)
    ∷ (lit "false", tested_false)
    ∷ []

unfoldable pub needs_table : List (Str × Needs)
needs_table =
    (lit "evidence", evidence)
    ∷ (lit "decision", decision)
    ∷ (lit "reply", reply)
    ∷ (lit "analysis", analysis)
    ∷ []

unfoldable pub precision_table : List (Str × Precision)
precision_table =
    (lit "day", day) ∷ (lit "month", month) ∷ (lit "year", year) ∷ (lit "approx", approx) ∷ []

-- inferPrecision, and the precision that stays where it infers none.
unfoldable pub infer_precision : Str → Precision → Precision
infer_precision s p = if length s == 4 then year else if length s == 7 then month else p

-- &Source{}
unfoldable pub empty_source : Source
empty_source = record {
  form = [];
  class = [];
  speaker = [];
  medium = [];
  recorded = false;
  doc_path = [];
  doc_hash = [];
  anchor = [];
  premises = [];
}

-- n.Source, made where it is nil.
unfoldable pub source_or_new : Node → Source
unfolding empty_source
source_or_new n = elim n.provenance [ none ↦ empty_source | some s ↦ s ]

unfoldable pub source_fields : List Str
source_fields =
    lit "by"
    ∷ lit "medium"
    ∷ lit "recorded"
    ∷ lit "doc"
    ∷ lit "anchor"
    ∷ lit "class"
    ∷ lit "derived_from"
    ∷ []

unfoldable pub is_true : Str → Bool
is_true s = str_eq s (lit "true")

module _ (fl : Floats) (dl : Dialect) where
  -- The source that the inner switch leaves.
  unfoldable pub assign_source : Source → Str → Yaml → Source × Option Complaint
  unfolding text_at is_true id_list
  assign_source s key v =
      if str_eq key (lit "by")
      then (record s { speaker = text_at v }, none)
      else if str_eq key (lit "medium")
      then (record s { medium = text_at v }, none)
      else if str_eq key (lit "recorded")
      then (record s { recorded = is_true (text_at v) }, none)
      else if str_eq key (lit "class")
      then (if valid_class dl (text_at v)
          then (record s { class = text_at v }, none)
          else (s, some (bad_class (text_at v))))
      else if str_eq key (lit "derived_from")
      then (record s { premises = id_list v }, none)
      else if str_eq key (lit "doc")
      then (record s { doc_path = text_at v }, none)
      else if str_eq key (lit "anchor")
      then (record s { anchor = text_at v }, none)
      else (s, none)

  unfoldable pub assign_at : Node → Str → Node
  unfolding infer_precision
  assign_at n s =
      if has_prefix s (lit "=")
      then record n { at_expr = s }
      else record n { at = s; precision = infer_precision s n.precision }

  unfoldable pub assign_value : Node → Str → Node × Option Complaint
  assign_value n s =
      if has_prefix s (lit "=")
      then (record n { value_expr = s }, none)
      else elim (fl.parse_float s) [
        | none ↦ (n, some (bad_value s))
        | some f ↦ (record n { value = f; has_value = true }, none)
      ]

  -- The keys whose value is taken as it is written.
  unfoldable pub assign_text : Node → Str → Yaml → Option Node
  unfolding text_at is_true parse_aliases assign_at
  assign_text n key v =
      let s = text_at v in
      if str_eq key (lit "id")
      then some (record n { id = s })
      else if str_eq key (lit "owner")
      then some (record n { owner = s })
      else if str_eq key (lit "reason")
      then some (record n { reason = s })
      else if str_eq key (lit "title")
      then some (record n { title = s })
      else if str_eq key (lit "supersedes_reason")
      then some (record n { supersedes_reason = s })
      else if str_eq key (lit "while")
      then some (record n { while_node = s })
      else if str_eq key (lit "at")
      then some (assign_at n s)
      else if str_eq key (lit "from")
      then some (record n { occ_from = s })
      else if str_eq key (lit "to")
      then some (record n { occ_to = s })
      else if str_eq key (lit "valid_from")
      then some (record n { valid_from = s })
      else if str_eq key (lit "valid_until")
      then some (record n { valid_until = s })
      else if str_eq key (lit "unit")
      then some (record n { unit = s })
      else if str_eq key (lit "ordered")
      then some (record n { ordered = is_true s })
      else if str_eq key (lit "exhaustive")
      then some (record n { exhaustive = is_true s })
      else if str_eq key (lit "aliases")
      then some (record n { aliases = parse_aliases v })
      else none

  -- The keys whose value is checked.
  unfoldable pub assign_checked : Node → Str → Yaml → Node × Option Complaint
  unfolding text_at status_table needs_table precision_table assign_value assign_source
      source_fields source_or_new
  assign_checked n key v =
      let s = text_at v in
      if str_eq key (lit "status")
      then elim (find_key status_table s) [
        | some st ↦ (record n { status = st }, none)
        | none ↦ (n, some (bad_status s))
      ]
      else if str_eq key (lit "precision")
      then elim (find_key precision_table s) [
        | some p ↦ (record n { precision = p }, none)
        | none ↦ (n, some (bad_precision s))
      ]
      else if str_eq key (lit "value")
      then assign_value n s
      else if str_eq key (lit "underdetermined")
      then (if has (lit "true" ∷ lit "false" ∷ lit "yes" ∷ lit "no" ∷ []) s
          then (n, some (says_nothing s))
          else (record n { underdetermined = join (32 ∷ []) (split_fields [] s) }, none))
      else if str_eq key (lit "same_as")
      then (if str_eq s n.id then (n, some self_same_as) else (record n { same_as = s }, none))
      else if str_eq key (lit "needs")
      then elim (find_key needs_table s) [
        | some w ↦ (record n { needs = w }, none)
        | none ↦ (n, some (bad_needs s))
      ]
      else if has source_fields key
      then (let r = assign_source (source_or_new n) key v in
          (record n { provenance = some r.0 }, r.1))
      else (n, none)

  -- assignScalar
  unfoldable pub assign_scalar : Node → Str → Yaml → Node × Option Complaint
  unfolding assign_text assign_checked
  assign_scalar n key v = elim (assign_text n key v) [
    | some m ↦ (m, none)
    | none ↦ assign_checked n key v
  ]
