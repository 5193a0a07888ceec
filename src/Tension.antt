-- ===== src/Tension.antt =====
-- conflict.go: how a fact reads, with evidence that points both ways. Which edges are live at the
-- date is the argument `live`, the answers of edgeLive. A class beside its rank is an option where
-- the source starts at rank -1.
pub mod Evidence
pub mod Impeached
pub mod Disputed
use kgraph.Base.{
  Str, lit, ℕ, ◌+◌, Bool, true, false, not, ◌&&◌, ◌||◌, if◌then◌else◌, Option, none, some, List, [],
  ◌∷◌, ◌++◌, any, str_eq, is_empty, sort_strings, ltb,
}
use kgraph.Model.{
  Node, Edge, Source, asserted, proposed, withdrawn, tested_false, status_eq, source, kind_eq,
  attests, contradicts, type_eq,
}
use kgraph.Time.{Floats, windows_overlap}
use kgraph.Graph.{Graph, node_at}
use kgraph.Dialect.{legal, rank_of}

-- One side of a tally: how many, and the best class with its rank.
pub record Side : Type 0 where
  pub count : ℕ
  pub rank : Option ℕ
  pub best : Str

pub record Impeachment : Type 0 where
  pub speaker : Str
  pub by : List Str
  pub class : Str
  pub beat : Str

pub data Tension : Type 0 where
  settled : Tension
  underdetermined : Str → Tension
  impeached : Impeachment → Tension
  disputed : Side → Side → Tension

-- The closure `note` of conflict.
unfoldable pub note : Str → Side → Side
note class s = elim (rank_of legal class) [
  | none ↦ if is_empty s.best then record s { best = class } else s
  | some v ↦ elim s.rank [
    | none ↦ record s { rank = some v; best = class }
    | some r ↦ if ltb r v then record s { rank = some v; best = class } else s
  ]
]

unfoldable pub no_side : Side
no_side = record { count = 0; rank = none; best = [] }

unfoldable pub one_more : Side → Side
one_more s = record s { count = s.count + 1 }

-- The sorted copy without neighbours that are equal.
unfoldable pub dedupe : List Str → List Str
dedupe [] = []
dedupe (x ∷ []) = x ∷ []
dedupe (x ∷ y ∷ ys) = let rest = dedupe (y ∷ ys) in if str_eq x y then rest else x ∷ rest

-- other := e.Src; if other == id { other = e.Dst }
unfoldable pub other_end : Str → Edge → Str
other_end id e = if str_eq e.src id then e.dst else e.src

unfoldable pub both_sides : Side × Side → Option (Side × Side)
both_sides (f, a) = if ltb 0 f.count && ltb 0 a.count then some (f, a) else none

-- The weaker of two ranked sources, with its rank.
unfoldable pub weaker : Option Source → Option (ℕ × Source) → Option (ℕ × Source)
weaker none best = best
weaker (some s) best = elim (rank_of legal s.class) [
  | none ↦ best
  | some r ↦ elim best [
    | none ↦ some (r, s)
    | some (b, t) ↦ if ltb r b then some (r, s) else some (b, t)
  ]
]

-- The claims that beat the rank `best`, with the strongest rank so far and its class.
unfoldable pub beaten_by : ℕ → Str → Option (ℕ × Str) → List Str × ℕ × Str → List Str × ℕ × Str
beaten_by best other none acc = acc
beaten_by best other (some (r, c)) (by, beat, class) =
    if ltb best r
    then if ltb beat r then (other ∷ by, r, c) else (other ∷ by, beat, class)
    else (by, beat, class)

unfoldable pub verdict : Source → List Str × ℕ × Str → Option Impeachment
unfolding dedupe
verdict s ([], beat, class) = none
verdict s (o ∷ os, beat, class) = some (record {
  speaker = s.speaker;
  by = dedupe (sort_strings (o ∷ os));
  class = s.class;
  beat = class;
})

-- A source of a ranked class, with the rank and the class.
unfoldable pub ranked : Option Source → Option (ℕ × Str)
ranked none = none
ranked (some s) = elim (rank_of legal s.class) [ none ↦ none | some r ↦ some (r, s.class) ]

-- A source that has a speaker.
unfoldable pub with_speaker : Option Source → Option Source
with_speaker none = none
with_speaker (some s) = if is_empty s.speaker then none else some s

module _ (fl : Floats) (live : Edge → Bool) (g : Graph) where
  unfoldable pub is_source : Str → Bool
  is_source id = elim (node_at g id) [ none ↦ false | some n ↦ kind_eq n.kind source ]

  -- g.Nodes[id].Source, where there is one.
  unfoldable pub source_at : Str → Option Source
  source_at id = elim (node_at g id) [ none ↦ none | some n ↦ n.provenance ]

  unfoldable pub class_at : Str → Str
  unfolding source_at
  class_at id = elim (source_at id) [ none ↦ [] | some s ↦ s.class ]

  -- The edge attests `id` from a source, and is live.
  unfoldable pub supports : Str → Edge → Bool
  unfolding is_source
  supports id e = type_eq e.type attests && str_eq e.dst id && is_source e.src && live e

  unfoldable pub supported_claim : Str → Bool
  unfolding supports
  supported_claim id = elim (node_at g id) [
    | none ↦ false
    | some n ↦
        not (kind_eq n.kind source)
        && (status_eq n.status asserted || status_eq n.status proposed)
        && any (supports id) (g.incident id)
  ]

  unfoldable pub contests : Node → Str → Bool
  unfolding supported_claim
  contests n other = elim (node_at g other) [
    | none ↦ false
    | some o ↦ supported_claim other && windows_overlap fl n o
  ]

  -- The classes of the other claim's own support, noted against.
  unfoldable pub note_support : Str → List Edge → Side → Side
  unfolding supports note class_at
  note_support other [] s = s
  note_support other (e ∷ es) s =
      note_support other es (if supports other e then note (class_at e.src) s else s)

  -- The edge counts for `id`.
  unfoldable pub speaks_for : Str → Edge → Bool
  unfolding is_source
  speaks_for id e = live e && type_eq e.type attests && str_eq e.dst id && is_source e.src

  -- A source contradicts `id`.
  unfoldable pub source_against : Str → Edge → Bool
  unfolding is_source
  source_against id e = live e && type_eq e.type contradicts && str_eq e.dst id && is_source e.src

  -- Another claim contradicts `n`, and is not one that `n` undercuts.
  unfoldable pub claim_against : Str → Node → Edge → Bool
  unfolding other_end contests
  claim_against id n e =
      live e
      && type_eq e.type contradicts
      && not (e.one_way && str_eq e.src id)
      && not (str_eq (other_end id e) id)
      && contests n (other_end id e)

  -- One pass of the loop of conflict over the side for and the side against.
  unfoldable pub weigh : Str → Node → Edge → Side × Side → Side × Side
  unfolding speaks_for source_against claim_against note one_more class_at note_support
  weigh id n e (f, a) =
      if speaks_for id e
      then (note (class_at e.src) (one_more f), a)
      else if source_against id e
      then (f, note (class_at e.src) (one_more a))
      else if claim_against id n e
      then (f, note_support (other_end id e) (g.incident (other_end id e)) (one_more a))
      else (f, a)

  unfoldable pub weigh_all : Str → Node → List Edge → Side × Side → Side × Side
  unfolding weigh
  weigh_all id n [] sides = sides
  weigh_all id n (e ∷ es) sides = weigh_all id n es (weigh id n e sides)

  unfoldable pub conflict : Str → Option (Side × Side)
  unfolding weigh_all both_sides no_side
  conflict id = elim (node_at g id) [
    | none ↦ none
    | some n ↦
        if kind_eq n.kind source
        then none
        else both_sides (weigh_all id n (g.incident id) (no_side, no_side))
  ]

  -- A live attestation from a source that has a speaker, with that source.
  unfoldable pub vouches : Str → Edge → Option Source
  unfolding source_at with_speaker
  vouches id e =
      if type_eq e.type attests && str_eq e.dst id && live e
      then with_speaker (source_at e.src)
      else none

  unfoldable pub weakest : Str → List Edge → Option (ℕ × Source) → Option (ℕ × Source)
  unfolding vouches weaker
  weakest id [] best = best
  weakest id (e ∷ es) best = weakest id es (weaker (vouches id e) best)

  -- The rank and the class of a live attestation of `other` from a node with a source.
  unfoldable pub rank_behind : Str → Edge → Option (ℕ × Str)
  unfolding source_at ranked
  rank_behind other e =
      if type_eq e.type attests && str_eq e.dst other && live e
      then ranked (source_at e.src)
      else none

  unfoldable pub beat_edges : ℕ → Str → List Edge → List Str × ℕ × Str → List Str × ℕ × Str
  unfolding rank_behind beaten_by
  beat_edges best other [] acc = acc
  beat_edges best other (e ∷ es) acc =
      beat_edges best other es (beaten_by best other (rank_behind other e) acc)

  -- A live contradiction that `id` is not the undercutting end of, with another claim that contests.
  unfoldable pub challenges : Str → Node → Edge → Bool
  unfolding other_end contests
  challenges id n e =
      type_eq e.type contradicts
      && live e
      && not (e.one_way && str_eq e.src id)
      && not (str_eq (other_end id e) id)
      && contests n (other_end id e)

  unfoldable pub beat_all : ℕ → Str → Node → List Edge → List Str × ℕ × Str → List Str × ℕ × Str
  unfolding challenges beat_edges
  beat_all best id n [] acc = acc
  beat_all best id n (e ∷ es) acc = beat_all best id n es (
      if challenges id n e
      then beat_edges best (other_end id e) (g.incident (other_end id e)) acc
      else acc)

  -- The claims against `n`, held against its weakest source.
  unfoldable pub impeach : Str → Node → Option (ℕ × Source) → Option Impeachment
  unfolding beat_all verdict
  impeach id n none = none
  impeach id n (some (best, s)) = verdict s (beat_all best id n (g.incident id) ([], best, []))

  unfoldable pub impeachment : Str → Option Impeachment
  unfolding weakest impeach
  impeachment id = elim (node_at g id) [
    | none ↦ none
    | some n ↦
        if kind_eq n.kind source then none else impeach id n (weakest id (g.incident id) none)
  ]

  unfoldable pub contested : Str → Tension
  unfolding conflict impeachment
  contested id = elim (conflict id) [
    | none ↦ settled
    | some (f, a) ↦ elim (impeachment id) [ some i ↦ impeached i | none ↦ disputed f a ]
  ]

  unfoldable pub tension : Str → Tension
  unfolding contested
  tension id = elim (node_at g id) [
    | none ↦ settled
    | some n ↦
        if kind_eq n.kind source
        then settled
        else if status_eq n.status withdrawn || status_eq n.status tested_false
        then settled
        else if not (is_empty n.underdetermined)
        then underdetermined n.underdetermined
        else contested id
  ]
