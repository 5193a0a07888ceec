-- ===== src/Query/Eval/Answered.antt =====
-- The composition of query.go and eval.go: Eval on what ParseQuery returns, with the answers of
-- Satisfied.
use kgraph.Base.{Str, ℕ, Bool, ◌≡◌, ◌⊎◌, some, List, []}
use kgraph.Time.{Floats}
use kgraph.Graph.{Graph}
use kgraph.Graph.Build.WellFormed.{IsWellFormed}
use kgraph.Satisfy.{satisfied}
use kgraph.Satisfy.Total.{Answers}
use kgraph.Satisfy.Asked.{is_satisfied, satisfied-is_satisfied}
use kgraph.Values.{Numbers, Calendar}
use kgraph.Query.{Query}
use kgraph.Query.Lex.{Tok}
use kgraph.Query.Parse.{ok}
use kgraph.Query.Descent.{parse_query}
use kgraph.Query.Eval.{found, failed, Env, eval_query}
use kgraph.Query.Eval.Parsed.{NamesShaped, eval-parsed}

-- Take a well-formed graph in which Satisfied answers for every id and date, within some depth of its
-- recursion. Then there are answers, those of that depth, with which Eval on a query that ParseQuery
-- returned, with named queries of the shape that it returns, gives a set or an error: it ends, and
-- never indexes out of range.
pub eval_query-parsed :
    (fl : Floats) (num : Numbers) (cal : Calendar) (lower : Str → Str) (g : Graph) (depth : ℕ)
    (env : Env) (src : Str) (q : Query) (rest : List Tok)
    → IsWellFormed g
    → ((id at : Str) → Answers (satisfied fl g depth at [] id))
    → NamesShaped env.named
    → parse_query src ≡ ok q rest
    → (sat : Str → Str → Bool) × ((id at : Str) → satisfied fl g depth at [] id ≡ some (sat id at))
      × (((ids : List Str) × (eval_query fl num cal lower sat g env q ≡ found ids))
          ⊎ (eval_query fl num cal lower sat g env q ≡ failed))
eval_query-parsed fl num cal lower g depth env src q rest wf answered shaped e =
    let sat : Str → Str → Bool = λ id at. is_satisfied fl g depth at id in
    (
      sat,
      λ id at. satisfied-is_satisfied fl g depth at id (answered id at),
      eval-parsed fl num cal lower sat g wf env src q rest shaped e,
    )
