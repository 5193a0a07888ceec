-- ===== src/Tests/Records.antt =====
-- A standing query that is asked, acknowledged and asked again, and a lock file that is written and read.
use kgraph.Base.{
  Str, lit, sort_strings, any, ◌≡◌, refl, ◌↔◌, inl, inr, true, false, none, some, List, [], ◌∷◌, In,
  SameMembers, NoRepeat, find_key, arith, ◌++◌, has, str_eq, contains, sort_by, insert, keep,
  is_space, str_eq_iff,
}
use kgraph.Graph.{has_node}
use kgraph.Graph.Build.{build}
use kgraph.Model.{Doc, claim, asserted, kind_name, type_eq}
use kgraph.Model.{kind_eq, status_name, status_eq}
use kgraph.Query.{Query, matching}
use kgraph.Query.Descent.{parse_query}
use kgraph.Taint.{tainted_set}
use kgraph.Graph.{node_at}
use kgraph.Query.Eval.{found, eval_query, and_then, eval_pattern, inherited, window_of}
use kgraph.Pins.{Pin, split_pin, order_of, diff_pins, is_empty_delta}
use kgraph.Pins.Exact.{diff_pins-empty_exact}
use kgraph.Standing.{
  Standing, Answer, never_asked, Cache, ask, acknowledge, source_drift, eval_cached, normal,
  invalidate,
}
use kgraph.Standing.Acknowledged.{ask-acknowledge, Unchanged}
use kgraph.Standing.Cached.{eval_cached-normal, invalidate_exact}
use kgraph.Values.{up, split_fields}
use kgraph.Sources.{LockEntry, Entries, read_lock, write_lock, read_line, entry_line, needs_quotes}
use kgraph.Sources.RoundTrip.{AllRecordable, read_lock-write_lock, read_line-hash_path}
use kgraph.Tests.Samples.{no_floats, documents, matter, node_of}
use kgraph.Tests.Queries.{plain, no_days, same_text, never, no_names, asked}

abbrev pin_before : Pin
pin_before = record {
  set_hash = lit "h";
  count = 2;
  sort = lit "id" ∷ [];
  nodes = lit "c1@aa" ∷ lit "c2@bb" ∷ [];
  unresolved = lit "q" ∷ [];
  cites = [];
}

two_hashes_apart : str_eq (lit "c1") (lit "c2") ≡ false
unfolding str_eq
two_hashes_apart = refl

recorded_once : NoRepeat (order_of (split_pin pin_before.nodes))
unfolding order_of split_pin
recorded_once = (
  λ i. elim i [
    | inl e ↦ ground (arith, two_hashes_apart, (str_eq_iff (lit "c1") (lit "c2")).1 e)
    | inr j ↦ absurd j
  ],
  (λ i. i, tt),
)

diff_pins-empty_exact_example :
    (is_empty_delta (diff_pins (lit "claims") pin_before pin_before) ≡ true) ↔ (
      (2 ≡ pin_before.count)
      × (split_pin pin_before.nodes ≡ split_pin pin_before.nodes)
      × SameMembers pin_before.unresolved pin_before.unresolved)
diff_pins-empty_exact_example =
    diff_pins-empty_exact (lit "claims") pin_before pin_before recorded_once

-- A hash that is the text itself.
abbrev open_work : Standing
open_work = record {
  name = lit "open-work";
  group = lit "desk";
  purpose = [];
  query = asked;
  query_hash = [];
  pin = none;
  dialect_hash = [];
  at = [];
  by = [];
}

-- The pin hashes of the nodes, all alike.
abbrev semantic : Str → Str
semantic id = lit "sha256:00"

abbrev first_answer : Answer
first_answer = record {
  name = lit "open-work";
  query = asked;
  rows = lit "q" ∷ [];
  pin = record {
    set_hash = lit "q@00" ++ (10 ∷ lit "q");
    count = 1;
    sort = lit "id" ∷ [];
    nodes = lit "q@00" ∷ [];
    unresolved = lit "q" ∷ [];
    cites = [];
  };
  drift = never_asked ∷ [];
  dialect_hash = lit "d";
  delta = none;
}

abbrev first_cache : Cache
first_cache = (lit "question[status=open]@2026-01-01", lit "q" ∷ []) ∷ []

first_ask :
    ask no_floats plain no_days same_text never
      (build documents)
      same_text
      semantic
      (lit "d")
      []
      no_names
      open_work
      []
    ≡ found (first_answer, first_cache)
unfolding ask parse_query has str_eq any find_key eval_query eval_pattern build kind_eq kind_name
    status_name inherited window_of tainted_set sort_by insert node_at status_eq sort_strings keep
    type_eq
first_ask = refl

ask-acknowledge_example :
    (b : Answer) × (ask no_floats plain no_days same_text never
        (build documents)
        same_text
        semantic
        (lit "d")
        []
        no_names
        (acknowledge no_floats plain no_days same_text never
          (build documents)
          same_text
          semantic
          (lit "d")
          []
          open_work
          first_answer
          (lit "2026-01-01")
          (lit "ann"))
        first_cache
      ≡ found (b, first_cache))
    × (b.rows ≡ first_answer.rows)
    × (b.pin ≡ first_answer.pin)
    × (b.drift
        ≡ source_drift no_floats plain no_days same_text never
            (build documents)
            same_text
            semantic
            (lit "d")
            []
            first_answer.pin)
    × Unchanged b.delta
ask-acknowledge_example =
    ask-acknowledge no_floats plain no_days same_text never (build documents) same_text semantic
      (lit "d") [] no_names open_work [] first_answer first_cache (lit "2026-01-01") (lit "ann")
      first_ask

-- A claim about "a b", and two queries that search for it with one and with two spaces.
abbrev notes : List Doc
notes =
    record {
      path = lit "n.kfacts.md";
      nodes = record (node_of (lit "n") claim asserted none) { body = lit "a b" } ∷ [];
      edges = [];
    }
    ∷ []

abbrev searching : Str → Query
searching s = matching (record {
  atoms = record { kinds = lit "claim" ∷ []; id = []; preds = []; text = s } ∷ [];
  hops = [];
  at = none;
  sort = [];
})

abbrev search_text : Str → Str
search_text s = lit "claim ~ " ++ (34 ∷ (s ++ (34 ∷ [])))

abbrev searched_cache : Cache
searched_cache = (search_text (lit "a b") ++ lit "@2026-01-01", []) ∷ []

wide_search :
    eval_cached no_floats plain no_days same_text never
      (build notes)
      same_text
      semantic
      (lit "d")
      []
      no_names
      (search_text (lit "a  b"))
      (searching (lit "a  b"))
      []
    ≡ found ([], searched_cache)
unfolding eval_cached find_key and_then eval_query eval_pattern build has str_eq kind_name contains
    sort_by
wide_search = refl

narrow_search :
    eval_query no_floats plain no_days same_text never
      (build notes)
      no_names
      (searching (lit "a b"))
    ≡ found (lit "n" ∷ [])
unfolding eval_query eval_pattern build find_key has str_eq kind_name contains inherited window_of
    sort_by insert
narrow_search = refl

eval_cached-normal_example :
    eval_cached no_floats plain no_days same_text never
      (build notes)
      same_text
      semantic
      (lit "d")
      []
      no_names
      (search_text (lit "a b"))
      (searching (lit "a b"))
      searched_cache
    ≡ found ([], searched_cache)
unfolding normal split_fields
eval_cached-normal_example =
    eval_cached-normal no_floats plain no_days same_text never (build notes) same_text semantic
      (lit "d") [] no_names (search_text (lit "a  b")) (search_text (lit "a b"))
      (searching (lit "a  b")) (searching (lit "a b")) [] [] searched_cache refl wide_search

invalidate_exact_example :
    In {A = Str × List Str}
      (lit "k", lit "c1" ∷ [])
      (invalidate matter (lit "c2" ∷ []) ((lit "k", lit "c1" ∷ []) ∷ []))
    ↔ (In {A = Str × List Str} (lit "k", lit "c1" ∷ []) ((lit "k", lit "c1" ∷ []) ∷ [])
        × ((id : Str) → In id (lit "c2" ∷ []) → has_node matter id ≡ true)
        × ((r : Str) → In r (lit "c1" ∷ []) → ¬ In r (lit "c2" ∷ [])))
invalidate_exact_example =
    invalidate_exact matter (lit "c2" ∷ []) ((lit "k", lit "c1" ∷ []) ∷ []) (lit "k")
      (lit "c1" ∷ [])

abbrev deed : LockEntry
deed = record { hash = lit "sha256:0a"; size = up 120; at = lit "2026-01-01" }

abbrev deeds : Entries
deeds = (lit "a b", deed) ∷ []

deeds-recordable : AllRecordable deeds
unfolding is_space any
deeds-recordable = (
  ground arith,
  record {
    hash_word = ground arith;
    hash_given = refl;
    date_word = ground arith;
    hash_ascii = refl;
    date_ascii = refl;
    amount = 120;
    sized = refl;
    int64 = omega arith;
  },
  tt,
)

read_lock-write_lock_example :
    (res : Entries) × (read_lock (write_lock deeds) ≡ some res)
    × ((p : Str) → find_key res p ≡ find_key deeds p)
read_lock-write_lock_example = read_lock-write_lock deeds deeds-recordable

read_line-hash_path_example : read_line (entry_line (lit "#12.pdf") deed) [] ≡ some []
unfolding needs_quotes any
read_line-hash_path_example = read_line-hash_path (lit "12.pdf") deed [] refl
