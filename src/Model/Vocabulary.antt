-- ===== src/Model/Vocabulary.antt =====
-- The closed vocabularies of node.go. A Go string type whose values the parser checks is a data
-- type here; the empty string of a status or of a need is `unset`.
use kgraph.Base.{Str, ℕ, ◌==◌, ◌≡◌, ◌↔◌, refl, Bool, true, arith, str_eq, str_eq_iff}

pub data Kind : Type 0 where
  claim question group entity event action source : Kind

-- `still_open` is the status "open" and `tested_false` is "false".
pub data Status : Type 0 where
  unset asserted proposed still_open resolved done withdrawn tested_false : Status

pub data Needs : Type 0 where
  unset evidence decision reply analysis : Needs

pub data Precision : Type 0 where
  unset day month year approx : Precision

-- `dialect_edge` is a relation key that a dialect adds to the twelve.
pub data EdgeType : Type 0 where
  causes implies requires prohibits supports contradicts answers supersedes : EdgeType
  member_of about attests derived_from : EdgeType
  dialect_edge : Str → EdgeType

abbrev kind_index : Kind → ℕ
kind_index claim = 0
kind_index question = 1
kind_index group = 2
kind_index entity = 3
kind_index event = 4
kind_index action = 5
kind_index source = 6

-- The Go comparison of two kinds.
unfoldable pub kind_eq : Kind → Kind → Bool
kind_eq a b = kind_index a == kind_index b

pub kind_eq_iff : (a b : Kind) → (kind_eq a b ≡ true) ↔ (a ≡ b)
unfolding kind_eq
kind_eq_iff a b = ground arith

abbrev status_index : Status → ℕ
status_index Status.unset = 0
status_index asserted = 1
status_index proposed = 2
status_index still_open = 3
status_index resolved = 4
status_index done = 5
status_index withdrawn = 6
status_index tested_false = 7

unfoldable pub status_eq : Status → Status → Bool
status_eq a b = status_index a == status_index b

abbrev edge_index : EdgeType → ℕ
edge_index causes = 0
edge_index implies = 1
edge_index requires = 2
edge_index prohibits = 3
edge_index supports = 4
edge_index contradicts = 5
edge_index answers = 6
edge_index supersedes = 7
edge_index member_of = 8
edge_index about = 9
edge_index attests = 10
edge_index derived_from = 11
edge_index (dialect_edge _) = 12

-- The Go comparison of two edge types.
unfoldable pub type_eq : EdgeType → EdgeType → Bool
type_eq (dialect_edge s) (dialect_edge t) = str_eq s t
type_eq a b = edge_index a == edge_index b

pub type_eq_sound : (a b : EdgeType) → type_eq a b ≡ true → a ≡ b
unfolding type_eq
type_eq_sound (dialect_edge s) (dialect_edge t) h = ap_dialect ((str_eq_iff s t).0 h)
  where
    ap_dialect : s ≡ t → dialect_edge s ≡ dialect_edge t
    ap_dialect e = λ i. dialect_edge (e i)
type_eq_sound a b h = ground arith

pub type_eq_refl : (a : EdgeType) → type_eq a a ≡ true
unfolding type_eq
type_eq_refl (dialect_edge s) = (str_eq_iff s s).1 refl
type_eq_refl causes = refl
type_eq_refl _ = refl
