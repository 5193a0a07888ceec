-- ===== src/Standing.antt =====
-- standing.go and citedSources of conflict.go: a standing query, the answer that is pinned for it, and
-- the cache of rows. `hash` is hashString, `sem` the map SemHash of the graph, `dialect_hash` the hash of
-- its dialect, and `drifted` the ids in SourceDrift.
pub mod Acknowledged
pub mod Cached
use kgraph.Base.{
  Str, lit, ℕ, ◌==◌, Bool, true, false, not, ◌&&◌, ◌||◌, if◌then◌else◌, Option, none, some, List,
  [], ◌∷◌, ◌++◌, map, keep, any, is_empty, str_eq, has, sort_strings, find_key, join, length,
}
use kgraph.Model.{Node, Edge, source, kind_eq, attests, contradicts, type_eq}
use kgraph.Time.{Floats}
use kgraph.Graph.{Graph, node_at, has_node}
use kgraph.Taint.{tainted_set}
use kgraph.Values.{Numbers, Calendar, split_fields, trim_prefix}
use kgraph.Query.{
  Query, Queries, union_of, inter_of, complement, named, matching, scoped, SortKey, Pattern,
}
use kgraph.Query.Parse.{Out, ok, refused, panic, out_of_fuel}
use kgraph.Query.Descent.{parse_query}
use kgraph.Query.Field.{live_at}
use kgraph.Query.Eval.{
  Result, found, failed, crashed, unfinished, and_then, or_unfinished, Env, eval_query, to_set,
}
use kgraph.Pins.{Pin, SetDelta, diff_pins}

pub record Standing : Type 0 where
  pub name : Str
  pub group : Str
  pub purpose : Str
  pub query : Str
  pub query_hash : Str
  pub pin : Option Pin
  pub dialect_hash : Str
  pub at : Str
  pub by : Str

pub data Drift : Type 0 where
  never_asked query_changed results_changed dialect_changed source_changed : Drift

pub record Answer : Type 0 where
  pub name : Str
  pub query : Str
  pub rows : List Str
  pub pin : Pin
  pub drift : List Drift
  pub dialect_hash : Str
  pub delta : Option SetDelta

-- g.results.rows
abbrev pub Cache : Type 0
Cache = List (Str × List Str)

-- The text with its white space made single, which QueryHashOf hashes.
unfoldable pub normal : Str → Str
unfolding join
normal text = join (32 ∷ []) (split_fields [] text)

unfoldable pub query_hash_of : (Str → Str) → Str → Str
unfolding normal
query_hash_of hash text = hash (normal text)

-- What is in front of the last "@".
unfoldable pub before_last : Str → Option Str
before_last [] = none
before_last (c ∷ s) = elim (before_last s) [
  | some p ↦ some (c ∷ p)
  | none ↦ if c == 64 then some [] else none
]

unfoldable pub id_of_pinned : Str → Str
unfolding before_last
id_of_pinned s = elim (before_last s) [ none ↦ s | some p ↦ if is_empty p then s else p ]

-- The query of ParseQuery, or its error.
unfoldable pub parsed : Out Query → Result Query
parsed (ok q rest) = found q
parsed refused = failed
parsed panic = crashed
parsed out_of_fuel = unfinished

unfoldable pub keys_sorted : List SortKey → List Str
keys_sorted [] = []
keys_sorted (k ∷ ks) = k.key ∷ keys_sorted ks

-- The sort that a pin records, which is `id` by default.
unfoldable pub sort_of : Query → List Str
unfolding keys_sorted
sort_of (matching p) = if is_empty p.sort then lit "id" ∷ [] else keys_sorted p.sort
sort_of _ = lit "id" ∷ []

-- "id@hash", without the prefix of the hash.
unfoldable pub pinned : (Str → Str) → Str → Str
unfolding trim_prefix
pinned sem id = id ++ (64 ∷ trim_prefix (sem id) (lit "sha256:"))

module _ (g : Graph) where
  unfoldable pub is_source_node : Str → Bool
  is_source_node id = elim (node_at g id) [ none ↦ false | some n ↦ kind_eq n.kind source ]

  -- The sources at one row: the row itself, and what attests or contradicts it.
  unfoldable pub cited_by : Str → List Str
  unfolding is_source_node
  cited_by id = keep is_source_node (
      id
      ∷ map (λ (e : Edge). e.src)
          (keep (λ e. str_eq e.dst id && (type_eq e.type attests || type_eq e.type contradicts))
            (g.incident id)))

  unfoldable pub cited_all : List Str → List Str
  unfolding cited_by
  cited_all [] = []
  cited_all (id ∷ ids) = cited_by id ++ cited_all ids

  -- citedSources
  unfoldable pub cited_sources : (Str → Str) → List Str → List Str
  unfolding cited_all pinned to_set
  cited_sources sem ids = sort_strings (map (pinned sem) (to_set (cited_all ids)))

module _ (fl : Floats) (num : Numbers) (cal : Calendar) (lower : Str → Str) (sat : Str → Str → Bool)
    (g : Graph) (hash : Str → Str) (sem : Str → Str) (dialect_hash : Str) (drifted : List Str) where
  unfoldable pub pin_with : Query → List Str → List Str → Pin
  unfolding pinned cited_sources sort_of join
  pin_with q ids open_questions =
      let nodes = map (pinned sem) ids in
      let cites = cited_sources g sem ids in
      record {
        set_hash = hash (join (10 ∷ []) (nodes ++ (open_questions ++ cites)));
        count = length ids;
        sort = sort_of q;
        nodes = nodes;
        unresolved = open_questions;
        cites = cites;
      }

  unfoldable pub pin_of : Env → Query → List Str → Result Pin
  unfolding pin_with
  pin_of env q ids =
      and_then (or_unfinished (tainted_set (live_at fl num cal lower sat g env.now) g ids))
        (λ qs. found (pin_with q ids qs))

  unfoldable pub cache_key : Env → Str → Str
  unfolding query_hash_of
  cache_key env text = query_hash_of hash text ++ (64 ∷ env.now)

  -- evalCached, with the cache that it leaves.
  unfoldable pub eval_cached : Env → Str → Query → Cache → Result (List Str × Cache)
  unfolding cache_key
  eval_cached env text q cache = elim (find_key cache (cache_key env text)) [
    | some rows ↦ found (rows, cache)
    | none ↦
        and_then (eval_query fl num cal lower sat g env q)
          (λ rows. found (rows, (cache_key env text, rows) ∷ cache))
  ]

  unfoldable pub source_drift : Pin → List Drift
  unfolding id_of_pinned
  source_drift pin =
      if any (λ c. has drifted (id_of_pinned c)) pin.cites then source_changed ∷ [] else []

  -- The drift of an answer from the pin on record, and their difference.
  unfoldable pub drift_from : Standing → Pin → Pin → List Drift
  unfolding query_hash_of source_drift
  drift_from st before after =
      (if not (is_empty st.query_hash) && not (str_eq st.query_hash (query_hash_of hash st.query))
        then query_changed ∷ []
        else [])
      ++ ((if str_eq before.set_hash after.set_hash then [] else results_changed ∷ [])
          ++ ((if str_eq st.dialect_hash dialect_hash then [] else dialect_changed ∷ [])
              ++ source_drift after))

  unfoldable pub answer : Standing → List Str → Pin → Answer
  unfolding drift_from
  answer st ids pin = elim st.pin [
    | none ↦ record {
      name = st.name;
      query = st.query;
      rows = ids;
      pin = pin;
      drift = never_asked ∷ [];
      dialect_hash = dialect_hash;
      delta = none;
    }
    | some before ↦ record {
      name = st.name;
      query = st.query;
      rows = ids;
      pin = pin;
      drift = drift_from st before pin;
      dialect_hash = dialect_hash;
      delta = some (diff_pins st.name before pin);
    }
  ]

  -- Ask
  unfoldable pub ask : Env → Standing → Cache → Result (Answer × Cache)
  unfolding parsed eval_cached pin_of answer and_then
  ask env st cache = and_then (parsed (parse_query st.query)) (λ q.
      and_then (eval_cached env st.query q cache)
        (λ r. and_then (pin_of env q r.0) (λ pin. found (answer st r.0 pin, r.1))))

  -- Acknowledge
  unfoldable pub acknowledge : Standing → Answer → Str → Str → Standing
  unfolding query_hash_of
  acknowledge st a at by = record st {
    pin = some a.pin;
    query_hash = query_hash_of hash st.query;
    dialect_hash = a.dialect_hash;
    at = at;
    by = by;
  }

-- Invalidate: an unknown id empties the cache, and a known one drops the rows that name it.
unfoldable pub invalidate : Graph → List Str → Cache → Cache
invalidate g changed cache =
    if any (λ id. not (has_node g id)) changed
    then []
    else keep (λ entry. not (any (λ r. has changed r) entry.1)) cache
