-- ===== src/Query/Field.antt =====
-- eval.go: the fields of a node that a query can name, its predicates and the atoms. `sat` is the
-- answer of g.Satisfied for a node and a date, and `lower` is strings.ToLower.
use kgraph.Base.{
  Str, lit, suc, Bool, true, false, not, ◌&&◌, ◌||◌, if◌then◌else◌, Option, none, some, List, [],
  ◌∷◌, any, is_empty, has, str_eq, contains, length,
}
use kgraph.Model.{Node, Edge, Source, kind_name, status_name, needs_name, precision_name}
use kgraph.Time.{Floats, Cmp, compare, valid_at, is_before, is_after}
use kgraph.Graph.{Graph}
use kgraph.Satisfy.{edge_live}
use kgraph.Tension.{Tension, impeached, disputed, tension}
use kgraph.Values.{Numbers, Calendar, present, absent, unfinished, resolve_value, resolve_at}
use kgraph.Query.{Pred, Atom}

-- A text that is a field where it is not empty.
unfoldable pub filled : Str → Option Str
filled s = if is_empty s then none else some s

-- The value of a flag is the word `true`.
unfoldable pub flag : Bool → Option Str
flag true = some (lit "true")
flag false = none

unfoldable pub is_disputed : Tension → Bool
is_disputed (disputed f a) = true
is_disputed _ = false

unfoldable pub is_impeached : Tension → Bool
is_impeached (impeached i) = true
is_impeached _ = false

unfoldable pub of_source : Option Source → (Source → Str) → Option Str
unfolding filled
of_source none f = none
of_source (some s) f = filled (f s)

unfoldable pub bool_fields : List Str
bool_fields = lit "computed" ∷ lit "disputed" ∷ lit "impeached" ∷ []

unfoldable pub is_some : Option Str → Bool
is_some none = false
is_some (some _) = true

-- A predicate on a flag. `none` is the panic of p.Vals[0] where there is none.
unfoldable pub match_flag : Str → List Str → Bool → Option Bool
match_flag op vs held =
    if str_eq op (lit "has")
    then some held
    else if str_eq op (lit "=")
    then elim vs [ [] ↦ none | v ∷ _ ↦ some (if str_eq v (lit "true") then held else not held) ]
    else if str_eq op (lit "!=")
    then elim vs [ [] ↦ none | v ∷ _ ↦ some (if str_eq v (lit "true") then not held else held) ]
    else some false

unfoldable pub ordered : Str → Cmp → Bool
unfolding is_before is_after
ordered op c =
    if str_eq op (lit "<")
    then is_before c
    else if str_eq op (lit "<=")
    then not (is_after c)
    else if str_eq op (lit ">")
    then is_after c
    else if str_eq op (lit ">=")
    then not (is_before c)
    else false

-- The closure `val`: the word `now` is the clock.
unfoldable pub clocked : Str → Str → Str
clocked now v = if str_eq v (lit "now") then now else v

module _ (fl : Floats) (num : Numbers) (cal : Calendar) (lower : Str → Str) (sat : Str → Str → Bool)
    (g : Graph) where
  -- edgeLive.
  unfoldable pub live_at : Str → Edge → Bool
  unfolding edge_live
  live_at at e = elim (edge_live fl g (λ w. some (sat w at)) at e) [ some b ↦ b | none ↦ false ]

  -- ResolveAt and ResolveValue, at a depth that is enough.
  unfoldable pub date_of : Str → Option Str
  unfolding resolve_at
  date_of id = elim (resolve_at fl num cal g (suc (length g.nodes)) [] id) [
    | present d ↦ some d
    | absent ↦ none
    | unfinished ↦ none
  ]

  unfoldable pub value_of : Str → Option Str
  unfolding resolve_value
  value_of id = elim (resolve_value fl num cal g (suc (length g.nodes)) [] id) [
    | present v ↦ some (num.format v)
    | absent ↦ none
    | unfinished ↦ none
  ]

  -- g.field: `none` where the field is not there. The text that the source gives beside a false is
  -- then the same for every node.
  unfoldable pub field : Node → Str → Str → Option Str
  unfolding filled flag of_source is_disputed is_impeached date_of value_of tension
  field n key at =
      if str_eq key (lit "id")
      then some n.id
      else if str_eq key (lit "kind")
      then some (kind_name n.kind)
      else if str_eq key (lit "body")
      then filled n.body
      else if str_eq key (lit "status")
      then filled (status_name n.status)
      else if str_eq key (lit "owner")
      then filled n.owner
      else if str_eq key (lit "while")
      then filled n.while_node
      else if str_eq key (lit "unit")
      then filled n.unit
      else if str_eq key (lit "precision")
      then some (precision_name n.precision)
      else if str_eq key (lit "valid_from")
      then filled n.valid_from
      else if str_eq key (lit "valid_until")
      then filled n.valid_until
      else if str_eq key (lit "from")
      then filled n.occ_from
      else if str_eq key (lit "to")
      then filled n.occ_to
      else if str_eq key (lit "computed")
      then flag (not (is_empty n.at_expr) || not (is_empty n.value_expr))
      else if str_eq key (lit "underdetermined")
      then filled n.underdetermined
      else if str_eq key (lit "disputed")
      then flag (is_disputed (tension fl (live_at at) g n.id))
      else if str_eq key (lit "impeached")
      then flag (is_impeached (tension fl (live_at at) g n.id))
      else if str_eq key (lit "class")
      then of_source n.provenance (λ s. s.class)
      else if str_eq key (lit "needs")
      then filled (needs_name n.needs)
      else if str_eq key (lit "speaker")
      then of_source n.provenance (λ s. s.speaker)
      else if str_eq key (lit "medium")
      then of_source n.provenance (λ s. s.medium)
      else if str_eq key (lit "at")
      then date_of n.id
      else if str_eq key (lit "value")
      then value_of n.id
      else none

  -- The value of a field against those of the predicate.
  unfoldable pub match_value : Str → List Str → Str → Str → Option Bool
  unfolding clocked ordered
  match_value op vs now got =
      if str_eq op (lit "in") then some (any (λ v. str_eq got (clocked now v)) vs) else elim vs [
        | [] ↦ none
        | v ∷ _ ↦
            if str_eq op (lit "=")
            then some (str_eq got (clocked now v))
            else if str_eq op (lit "!=")
            then some (not (str_eq got (clocked now v)))
            else some (ordered op (compare fl got (clocked now v)))
      ]

  unfoldable pub match_pred : Pred → Node → Str → Str → Option Bool
  unfolding field match_flag is_some match_value bool_fields
  match_pred p n at now =
      if has bool_fields p.key
      then match_flag p.op p.vals (is_some (field n p.key at))
      else if str_eq p.op (lit "has")
      then some (is_some (field n p.key at))
      else elim (field n p.key at) [
        | none ↦ some false
        | some got ↦ match_value p.op p.vals now got
      ]

  unfoldable pub match_preds : List Pred → Node → Str → Str → Option Bool
  unfolding match_pred
  match_preds [] n at now = some true
  match_preds (p ∷ ps) n at now =
      let rest = match_preds ps n at now in
      elim (match_pred p n at now) [ none ↦ none | some false ↦ some false | some true ↦ rest ]

  -- The id, the kinds and the text of an atom.
  unfoldable pub match_head : Atom → Node → Bool
  match_head a n =
      (is_empty a.id || str_eq n.id a.id)
      && (is_empty a.kinds || has a.kinds (kind_name n.kind))
      && (is_empty a.text || contains (lower n.body) (lower a.text))

  -- The window of the node, and its branch.
  unfoldable pub match_date : Node → Str → Bool
  unfolding valid_at
  match_date n at =
      is_empty at || (valid_at fl n at && (is_empty n.while_node || sat n.while_node at))

  unfoldable pub match_atom : Atom → Node → Str → Str → Option Bool
  unfolding match_head match_preds match_date
  match_atom a n at now =
      if match_head a n
      then elim (match_preds a.preds n at now) [
        | none ↦ none
        | some false ↦ some false
        | some true ↦ some (match_date n at)
      ]
      else some false
