-- ===== src/Tests/Queries.antt =====
-- What the parser and the evaluator say of small queries over the sample corpus.
use kgraph.Base.{
  Str, lit, ◌≤◌, ◌≡◌, ◌≢◌, refl, Bool, false, none, some, List, [], ◌∷◌, inl, inr, ◌⊎◌, In, ◌↔◌,
  length, suc, arith, ◌+◌, ◌-◌, has, str_eq, any, find_key, sort_by, insert, has_iff,
}
use kgraph.Graph.Build.{build}
use kgraph.Graph.Build.WellFormed.{build-IsWellFormed}
use kgraph.Graph.Unseen.{unseen-le-length}
use kgraph.Values.{Numbers, Calendar, resolve_value, unfinished, up}
use kgraph.Values.Total.{resolve_value-ends}
use kgraph.Query.{Query, named, matching, Pattern, Temporal}
use kgraph.Query.Lex.{eof, lex}
use kgraph.Query.Parse.{ok, panic, operators, is_kind}
use kgraph.Query.Descent.{parse_query}
use kgraph.Query.Eval.{Env, found, failed, eval_query, eval_pattern, inherited, window_of}
use kgraph.Query.Eval.Answered.{eval_query-parsed}
use kgraph.Satisfy.{satisfied}
use kgraph.Satisfy.Asked.{satisfied-Answers}
use kgraph.Tests.Plain.{documents-Unconditional}
use kgraph.Query.Ends.{parse_query-ends}
use kgraph.Query.Denote.{Means}
use kgraph.Query.Denote.Exact.{eval_query-exact}
use kgraph.Query.Panics.{parse_query-panics}
use kgraph.Tests.Samples.{no_floats, documents, matter, facts}
use kgraph.Induced.{induced_ids, limit_of, start_from}
use kgraph.Induced.Bounded.{AreNodes, induced_ids-AreNodes}
use kgraph.Dialect.{legal}
use kgraph.Query.Check.{query_fields, validate_query}
use kgraph.Query.Check.Typed.{IsTyped, validate_query_exact}
use kgraph.Model.{kind_eq, kind_name, status_name}

-- Numbers without an order, and a calendar that knows no day.
abbrev pub plain : Numbers
plain = record { nought = 0; plus = λ a b. a + b; minus = λ a b. a - b; format = λ n. n ∷ [] }

abbrev pub no_days : Calendar
no_days = record { parse_day = λ s. none; add_date = λ d o. d; format_day = λ d. d ∷ [] }

abbrev pub same_text : Str → Str
same_text s = s

abbrev pub never : Str → Str → Bool
never id at = false

abbrev pub no_names : Env
no_names = record { now = lit "2026-01-01"; named = [] }

abbrev pub asked : Str
asked = lit "question[status=open]"

abbrev pub question_open : Query
question_open = matching (record {
  atoms =
      record {
        kinds = lit "question" ∷ [];
        id = [];
        preds = record { key = lit "status"; op = lit "="; vals = lit "open" ∷ [] } ∷ [];
        text = [];
      }
      ∷ [];
  hops = [];
  at = none;
  sort = [];
})

asked_parses : parse_query asked ≡ ok question_open (eof ∷ [])
unfolding parse_query has str_eq any
asked_parses = refl

-- The open question of the corpus is the answer, once.
asked_finds :
    eval_query no_floats plain no_days same_text never (build documents) no_names question_open
    ≡ found (lit "q" ∷ [])
unfolding eval_query build eval_pattern find_key str_eq has kind_eq kind_name status_name inherited
    window_of sort_by insert
asked_finds = refl

eval_query-parsed_example :
    (sat : Str → Str → Bool) × ((id at : Str)
      → satisfied no_floats (build documents) (suc (length (build documents).nodes)) at [] id
        ≡ some (sat id at))
    × (((ids : List Str) × (eval_query no_floats plain no_days same_text sat
              (build documents)
              no_names
              question_open
            ≡ found ids))
        ⊎ (eval_query no_floats plain no_days same_text sat (build documents) no_names question_open
            ≡ failed))
eval_query-parsed_example =
    eval_query-parsed no_floats plain no_days same_text (build documents)
      (suc (length (build documents).nodes)) no_names asked question_open (eof ∷ [])
      (build-IsWellFormed documents)
      (λ id at. satisfied-Answers no_floats (build documents) at id (documents-Unconditional at)) tt
      asked_parses

eval_query-exact_example :
    In (lit "q") (lit "q" ∷ [])
    ↔ Means no_floats plain no_days same_text never
        (build documents)
        no_names
        (suc (length no_names.named))
        none
        question_open
        (lit "q")
eval_query-exact_example =
    eval_query-exact no_floats plain no_days same_text never (build documents) no_names
      question_open (lit "q" ∷ []) asked_finds (lit "q")

parse_query-ends_example : parse_query asked ≢ kgraph.Query.Parse.out_of_fuel
parse_query-ends_example = parse_query-ends asked

parse_query-panics_example : parse_query (lit "claim[at>=") ≡ panic
unfolding operators lex is_kind has str_eq any
parse_query-panics_example =
    parse_query-panics (lit "claim[at>=") (lit "claim") (lit "at") (lit ">=") refl
      (inr (inr (inl refl))) refl

resolve_value-ends_example :
    resolve_value no_floats plain no_days matter 7 [] (lit "g") ≢ unfinished
resolve_value-ends_example =
    resolve_value-ends no_floats plain no_days matter 7 [] (lit "g")
      (omega (arith, unseen-le-length facts []))

validate_query_exact_example :
    (validate_query no_floats legal question_open ≡ []) ↔ IsTyped no_floats legal question_open
validate_query_exact_example = validate_query_exact no_floats legal question_open

no_such_field : ¬ In (lit "colour") query_fields
unfolding query_fields has str_eq
no_such_field i = cc ((has_iff query_fields (lit "colour")).1 i)

induced_ids-AreNodes_example :
    AreNodes matter (induced_ids matter (lit "c1" ∷ []) (up 1) (up 2))
    × ((length (induced_ids matter (lit "c1" ∷ []) (up 1) (up 2)) ≤ limit_of (up 2))
        ⊎ (induced_ids matter (lit "c1" ∷ []) (up 1) (up 2)
            ≡ (start_from matter (lit "c1" ∷ []) (record { kept = []; next = [] })).kept))
induced_ids-AreNodes_example = induced_ids-AreNodes matter (lit "c1" ∷ []) (up 1) (up 2)
