-- ===== src/Query/Check/Fields.antt =====
-- The fields that ValidateQueryIn of eval.go knows, and those that g.field answers.
use kgraph.Base.{
  Str, lit, ◌≡◌, refl, Bool, false, none, In, has, has_iff, str_eq, str_eq_iff, inl, inr,
  Bool-cases,
}
use kgraph.Model.{Node}
use kgraph.Time.{Floats}
use kgraph.Graph.{Graph}
use kgraph.Values.{Numbers, Calendar}
use kgraph.Query.Field.{field}
use kgraph.Query.Check.{query_fields}

-- The key is none of the fields.
other : (key name : Str) → ¬ In key query_fields → In name query_fields → str_eq key name ≡ false
other key name h i = elim (Bool-cases (str_eq key name)) [
  | inl e ↦ absurd (h (rw ((str_eq_iff key name).0 e) i))
  | inr e ↦ e
]

-- A field that the check of queries does not know has no value at any node and any date.
pub field-unknown :
    (fl : Floats) (num : Numbers) (cal : Calendar) (lower : Str → Str) (sat : Str → Str → Bool)
    (g : Graph) (n : Node) (key at : Str)
    → ¬ In key query_fields
    → field fl num cal lower sat g n key at ≡ none
unfolding field query_fields has str_eq
field-unknown fl num cal lower sat g n key at h = rw (
  other key (lit "id") h ((has_iff query_fields (lit "id")).0 refl),
  other key (lit "kind") h ((has_iff query_fields (lit "kind")).0 refl),
  other key (lit "body") h ((has_iff query_fields (lit "body")).0 refl),
  other key (lit "status") h ((has_iff query_fields (lit "status")).0 refl),
  other key (lit "owner") h ((has_iff query_fields (lit "owner")).0 refl),
  other key (lit "while") h ((has_iff query_fields (lit "while")).0 refl),
  other key (lit "unit") h ((has_iff query_fields (lit "unit")).0 refl),
  other key (lit "precision") h ((has_iff query_fields (lit "precision")).0 refl),
  other key (lit "valid_from") h ((has_iff query_fields (lit "valid_from")).0 refl),
  other key (lit "valid_until") h ((has_iff query_fields (lit "valid_until")).0 refl),
  other key (lit "from") h ((has_iff query_fields (lit "from")).0 refl),
  other key (lit "to") h ((has_iff query_fields (lit "to")).0 refl),
  other key (lit "computed") h ((has_iff query_fields (lit "computed")).0 refl),
  other key (lit "underdetermined") h ((has_iff query_fields (lit "underdetermined")).0 refl),
  other key (lit "disputed") h ((has_iff query_fields (lit "disputed")).0 refl),
  other key (lit "impeached") h ((has_iff query_fields (lit "impeached")).0 refl),
  other key (lit "class") h ((has_iff query_fields (lit "class")).0 refl),
  other key (lit "needs") h ((has_iff query_fields (lit "needs")).0 refl),
  other key (lit "speaker") h ((has_iff query_fields (lit "speaker")).0 refl),
  other key (lit "medium") h ((has_iff query_fields (lit "medium")).0 refl),
  other key (lit "at") h ((has_iff query_fields (lit "at")).0 refl),
  other key (lit "value") h ((has_iff query_fields (lit "value")).0 refl),
  field,
)
