-- ===== src/Standing/Cached.antt =====
-- The cache of standing.go: evalCached for a second time, and Invalidate.
use kgraph.Base.{
  Str, ◌≡◌, ap, subst, ◌∙◌, ◌↔◌, inl, inr, Bool, true, not, some, List, ◌∷◌, In, in-keep, any,
  any_iff, has, has_iff, find_key, str_eq_refl, Bool-cases, Option-cases, ◌++◌,
}
use kgraph.Time.{Floats}
use kgraph.Graph.{Graph, has_node}
use kgraph.Values.{Numbers, Calendar}
use kgraph.Query.{Query}
use kgraph.Query.Eval.{found, Env, eval_query}
use kgraph.Query.Denote.Paths.{and_then-found, found_inj}
use kgraph.Standing.{Cache, normal, query_hash_of, cache_key, eval_cached, invalidate}

find_key-head :
    (k : Str) (rows : List Str) (cache : Cache) → find_key ((k, rows) ∷ cache) k ≡ some rows
unfolding find_key
find_key-head k rows cache = rw (str_eq_refl k)

module _ (fl : Floats) (num : Numbers) (cal : Calendar) (lower : Str → Str) (sat : Str → Str → Bool)
    (g : Graph) (hash : Str → Str) (sem : Str → Str) (dialect_hash : Str) (drifted : List Str) where
  -- What an evaluation leaves in the cache is what it gave.
  cached-at :
      (env : Env) (text : Str) (q : Query) (cache : Cache) (rows : List Str) (after : Cache)
      → eval_cached fl num cal lower sat g hash sem dialect_hash drifted env text q cache
        ≡ found (rows, after)
      → find_key after (cache_key fl num cal lower sat g hash sem dialect_hash drifted env text)
        ≡ some rows
  unfolding eval_cached
  cached-at env text q cache rows after e =
      let key = cache_key fl num cal lower sat g hash sem dialect_hash drifted env text in
      elim (Option-cases (find_key cache key)) [
        | inr (r, f) ↦
            let same = found_inj (r, cache) (rows, after) (rw (f, eval_cached) at e) in
            subst (λ c. find_key c key ≡ some rows) (ap (λ (p : List Str × Cache). p.1) same)
              (f ∙ ap some (ap (λ (p : List Str × Cache). p.0) same))
        | inl f ↦
            let (r, m, k) =
              and_then-found (eval_query fl num cal lower sat g env q) _ (rows, after)
                (rw (f, eval_cached) at e) in
            let same = found_inj (r, (key, r) ∷ cache) (rows, after) k in
            subst (λ c. find_key c key ≡ some rows) (ap (λ (p : List Str × Cache). p.1) same)
              (find_key-head key r cache ∙ ap some (ap (λ (p : List Str × Cache). p.0) same))
      ]

  -- After a query was evaluated, any query whose text differs from its text in white space only is
  -- answered with the same rows, whatever it asks: white space inside a quoted text counts too.
  pub eval_cached-normal :
      (env : Env) (text other : Str) (q r : Query) (cache : Cache) (rows : List Str) (after : Cache)
      → normal text ≡ normal other
      → eval_cached fl num cal lower sat g hash sem dialect_hash drifted env text q cache
        ≡ found (rows, after)
      → eval_cached fl num cal lower sat g hash sem dialect_hash drifted env other r after
        ≡ found (rows, after)
  unfolding eval_cached cache_key query_hash_of
  eval_cached-normal env text other q r cache rows after n e =
      let at_text = cached-at env text q cache rows after e in
      let at_other : find_key after
            (cache_key fl num cal lower sat g hash sem dialect_hash drifted env other)
          ≡ some rows =
        subst (λ t. find_key after (hash t ++ (64 ∷ env.now)) ≡ some rows) n at_text in
      rw (at_other, eval_cached)

-- Invalidate keeps an entry exactly when every changed id is a node of the graph and no row of the
-- entry is one of them: a changed node that the rows do not name leaves them, also where it would now
-- be among them.
pub invalidate_exact :
    (g : Graph) (changed : List Str) (cache : Cache) (key : Str) (rows : List Str)
    → In (key, rows) (invalidate g changed cache) ↔ (
        In (key, rows) cache
        × ((id : Str) → In id changed → has_node g id ≡ true)
        × ((r : Str) → In r rows → ¬ In r changed))
unfolding invalidate
invalidate_exact g changed cache key rows =
    elim (Bool-cases (any (λ id. not (has_node g id)) changed)) [
      | inl e ↦
          let (id, i, n) = (any_iff (λ id. not (has_node g id)) changed).0 e in
          rw e (λ i. absurd i, λ w. cc (n, ap not (w.1 id i)))
      | inr e ↦
          let kept =
            in-keep (λ (entry : Str × List Str). not (any (λ r. has changed r) entry.1)) (key, rows)
              cache in
          rw e (
            λ i. (
              (kept.0 i).0,
              λ id j. elim (Bool-cases (has_node g id)) [
                | inl h ↦ h
                | inr h ↦ cc (e, (any_iff (λ id. not (has_node g id)) changed).1 (id, j, ap not h))
              ],
              λ r j k. cc (
                (kept.0 i).1,
                ap not ((any_iff (λ r. has changed r) rows).1 (r, j, (has_iff changed r).1 k)),
              ),
            ),
            λ w. kept.1 (
              w.0,
              elim (Bool-cases (any (λ r. has changed r) rows)) [
                | inr h ↦ ap not h
                | inl h ↦
                    let (r, j, k) = (any_iff (λ r. has changed r) rows).0 h in
                    absurd (w.2 r j ((has_iff changed r).0 k))
              ],
            ),
          )
    ]
