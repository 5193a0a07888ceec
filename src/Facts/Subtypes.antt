-- ===== src/Facts/Subtypes.antt =====
-- parseIs, governs and claimants of kfacts.go: the subtypes of a dialect that a node carries, each
-- under the prefix that its keys have.
use kgraph.Base.{
  Str, lit, ℕ, Bool, false, not, if◌then◌else◌, Option, none, some, List, [], ◌∷◌, ◌++◌, map, keep,
  is_empty, find_key, put_key, sort_strings,
}
use kgraph.Model.{Kind, kind_eq}
use kgraph.Dialect.{Dialect, Subtype, subtype_of, subtype_governs}
use kgraph.Sources.{cut_at}
use kgraph.Facts.{
  Yaml, id_list, Complaint, unknown_subtype, wrong_kind, shared_prefix, Remark, fault,
}

-- nodeSubtypes
pub record NodeSubtypes : Type 0 where
  pub by_prefix : List (Str × Subtype)
  pub names : List Str

unfoldable pub no_subtypes : NodeSubtypes
no_subtypes = record { by_prefix = []; names = [] }

-- What stands before the first colon, and what behind it; all is behind where there is none.
unfoldable pub cut_prefix : Str → Str × Str
unfolding cut_at
cut_prefix s = elim (cut_at 58 s) [ none ↦ ([], s) | some p ↦ p ]

-- One turn of the loop of parseIs.
unfoldable pub carry : Dialect → Kind → Str → NodeSubtypes → NodeSubtypes × Option Complaint
unfolding cut_prefix subtype_of
carry dl kind raw subs =
    let (prefix, name) = cut_prefix raw in
    elim (subtype_of dl name) [
      | none ↦ (subs, some (unknown_subtype name))
      | some st ↦
          if not (kind_eq st.kind kind)
          then (subs, some (wrong_kind name))
          else elim (find_key subs.by_prefix prefix) [
            | some _ ↦ (subs, some (shared_prefix prefix))
            | none ↦ (
              record {
                by_prefix = put_key prefix st subs.by_prefix;
                names = subs.names ++ (raw ∷ []);
              },
              none,
            )
          ]
    ]

unfoldable pub complain : ℕ → Option Complaint → List Remark
unfolding fault
complain line none = []
complain line (some c) = fault line c ∷ []

unfoldable pub carry_all : Dialect → Kind → ℕ → List Str → NodeSubtypes → NodeSubtypes × List Remark
unfolding carry complain
carry_all dl kind line [] subs = (subs, [])
carry_all dl kind line (raw ∷ raws) subs =
    let (here, c) = carry dl kind raw subs in
    let (last, rest) = carry_all dl kind line raws here in (last, complain line c ++ rest)

-- parseIs
unfoldable pub parse_is : Dialect → Yaml → Kind → ℕ → NodeSubtypes × List Remark
unfolding carry_all id_list no_subtypes
parse_is dl v kind line = carry_all dl kind line (id_list v) no_subtypes

-- governs
unfoldable pub governs_key : NodeSubtypes → Str → Bool
unfolding cut_prefix subtype_governs
governs_key subs key =
    let (prefix, k) = cut_prefix key in
    elim (find_key subs.by_prefix prefix) [ none ↦ false | some st ↦ subtype_governs st k ]

-- claimants
unfoldable pub claimants : NodeSubtypes → Str → List Str
unfolding subtype_governs
claimants subs key = sort_strings (
    map (λ (p : Str × Subtype). if is_empty p.0 then lit "(unprefixed)" else p.0)
      (keep (λ (p : Str × Subtype). subtype_governs p.1 key) subs.by_prefix))
