-- ===== src/Dialect.antt =====
-- dialect.go: the vocabulary that an index binds to, with the two built-in ones. Relations, subtypes
-- and rules are maps; a set of keys is a list.
pub mod Ladder
pub mod Rules
use kgraph.Base.{
  Str, lit, ℕ, Bool, true, false, ◌||◌, if◌then◌else◌, Option, none, some, List, [], ◌∷◌, map, has,
  str_eq, is_empty, find_key, keys_of, sort_by, sort_strings, ltb,
}
use kgraph.Model.{Kind, claim, question, group, event, EdgeType, dialect_edge}

pub data RuleLevel : Type 0 where
  error warn off : RuleLevel

-- A node type that a dialect adds: the kind it must be, and the keys it governs.
pub record Subtype : Type 0 where
  pub kind : Kind
  pub keys : List Str

pub record Dialect : Type 0 where
  pub name : Str
  pub rank : List (Str × ℕ)
  pub governs : Str
  pub speaker : List Str
  pub rules : List (Str × RuleLevel)
  pub invalidated : Str
  pub edges : List (Str × Str)
  pub hash : Str
  pub subtypes : List (Str × Subtype)

-- Subtype.Governs
unfoldable pub subtype_governs : Subtype → Str → Bool
subtype_governs s key = has s.keys key

-- Subtype.Keys
unfoldable pub subtype_keys : Subtype → List Str
subtype_keys s = sort_strings s.keys

-- Dialect.Subtype
unfoldable pub subtype_of : Dialect → Str → Option Subtype
subtype_of d name = find_key d.subtypes name

unfoldable pub subtype_names : Dialect → List Str
subtype_names d = sort_strings (keys_of d.subtypes)

-- Dialect.Rank
unfoldable pub rank_of : Dialect → Str → Option ℕ
rank_of d class = find_key d.rank class

weight : Option ℕ → ℕ
weight (some r) = r
weight none = 0

-- Dialect.Ladder: the ranked classes, strongest first.
unfoldable pub ladder : Dialect → List Str
unfolding rank_of weight
ladder d = sort_by (λ a b. ltb (weight (rank_of d b)) (weight (rank_of d a))) (keys_of d.rank)

-- Dialect.Valid
unfoldable pub valid_class : Dialect → Str → Bool
unfolding rank_of
valid_class d class =
    if str_eq class d.governs then true else elim (rank_of d class) [ some _ ↦ true | none ↦ false ]

-- Dialect.SpeakerRequired
unfoldable pub speaker_required : Dialect → Str → Bool
speaker_required d class = has d.speaker class

-- Dialect.Edge
unfoldable pub edge_of : Dialect → Str → Option EdgeType
edge_of d key = elim (find_key d.edges key) [ some _ ↦ some (dialect_edge key) | none ↦ none ]

unfoldable pub edge_keys : Dialect → List Str
edge_keys d = sort_strings (keys_of d.edges)

-- The node types of the legal dialect.
unfoldable pub legal_subtypes : List (Str × Subtype)
legal_subtypes =
    (lit "element", record { kind = claim; keys = [] })
    ∷ (
      lit "acquisition",
      record {
        kind = question;
        keys =
            lit "where"
            ∷ lit "who"
            ∷ lit "cost"
            ∷ lit "state"
            ∷ lit "state_because"
            ∷ lit "arrived"
            ∷ lit "raised_file"
            ∷ lit "raised_sentence"
            ∷ [];
      },
    )
    ∷ (
      lit "outcome",
      record { kind = group; keys = lit "party" ∷ lit "deadline" ∷ lit "deadline_why" ∷ [] },
    )
    ∷ (lit "theory", record { kind = claim; keys = lit "party" ∷ [] })
    ∷ (
      lit "production",
      record {
        kind = event;
        keys =
            lit "party"
            ∷ lit "volume"
            ∷ lit "bates"
            ∷ lit "privilege"
            ∷ lit "confidentiality"
            ∷ lit "clawed_back"
            ∷ [];
      },
    )
    ∷ (lit "negative", record { kind = claim; keys = [] })
    ∷ (
      lit "attempt",
      record {
        kind = event;
        keys = lit "actor" ∷ lit "how" ∷ lit "found" ∷ lit "note" ∷ lit "expected" ∷ [];
      },
    )
    ∷ []

unfoldable pub legal : Dialect
unfolding legal_subtypes
legal = record {
  name = lit "legal";
  rank =
      (lit "record", 6)
      ∷ (lit "admission", 5)
      ∷ (lit "document", 4)
      ∷ (lit "observation", 3)
      ∷ (lit "statement", 2)
      ∷ (lit "interested", 1)
      ∷ (lit "inference", 0)
      ∷ [];
  governs = lit "authority";
  speaker = lit "admission" ∷ lit "interested" ∷ [];
  rules = [];
  invalidated = lit "impeached";
  edges =
      (lit "serves", lit "served by")
      ∷ (lit "targets", lit "targeted by")
      ∷ (lit "counters", lit "countered by")
      ∷ (lit "pursues", lit "pursued by")
      ∷ (lit "produced", lit "produced in")
      ∷ (lit "pleaded_as", lit "pleaded by")
      ∷ [];
  hash = [];
  subtypes = legal_subtypes;
}

unfoldable pub engineering : Dialect
engineering = record {
  name = lit "engineering";
  rank =
      (lit "measured", 5)
      ∷ (lit "observed", 4)
      ∷ (lit "signed-off", 3)
      ∷ (lit "accepted", 2)
      ∷ (lit "reported", 1)
      ∷ (lit "inference", 0)
      ∷ [];
  governs = lit "decided";
  speaker = lit "reported" ∷ lit "accepted" ∷ lit "signed-off" ∷ [];
  rules = [];
  invalidated = lit "stale";
  edges = [];
  hash = [];
  subtypes = (lit "measurement", record { kind = claim; keys = lit "how" ∷ lit "when" ∷ [] }) ∷ [];
}

-- DialectFor
unfoldable pub dialect_for : Str → Option Dialect
unfolding legal engineering
dialect_for name =
    if is_empty name
    then some legal
    else if str_eq name (lit "legal")
    then some legal
    else if str_eq name (lit "engineering")
    then some engineering
    else none
