-- ===== src/Standing/Acknowledged.antt =====
-- Ask of standing.go after Acknowledge.
use kgraph.Base.{
  Str, ◌≡◌, refl, sym, ap, ◌∙◌, Bool, true, false, not, ◌&&◌, Option, none, some, Option-cases, inl,
  inr, List, str_eq, str_eq_refl, is_empty,
}
use kgraph.Time.{Floats}
use kgraph.Graph.{Graph}
use kgraph.Values.{Numbers, Calendar}
use kgraph.Query.{Query}
use kgraph.Query.Descent.{parse_query}
use kgraph.Query.Eval.{found, Env}
use kgraph.Query.Denote.Paths.{and_then-found, found_inj}
use kgraph.Pins.{Pin, SetDelta, diff_pins, is_empty_delta, split_pin}
use kgraph.Pins.Exact.{unmoved_self}
use kgraph.Standing.{
  Standing, Answer, Cache, parsed, query_hash_of, pin_of, eval_cached, source_drift, drift_from,
  answer, ask, acknowledge,
}
use kgraph.Standing.Cached.{eval_cached-normal}

-- The difference, where there is one, is empty.
abbrev pub Unchanged : Option SetDelta → Type 0
Unchanged none = ⊥
Unchanged (some d) = is_empty_delta d ≡ true

and-not-true : (b : Bool) → (not b && not true) ≡ false
and-not-true true = refl
and-not-true false = refl

diff_pins_self : (name : Str) (p : Pin) → is_empty_delta (diff_pins name p p) ≡ true
unfolding diff_pins
diff_pins_self name p = unmoved_self name p p (split_pin p.nodes) refl (λ a. (λ i. i, λ i. i))

module _ (fl : Floats) (num : Numbers) (cal : Calendar) (lower : Str → Str) (sat : Str → Str → Bool)
    (g : Graph) (hash : Str → Str) (sem : Str → Str) (dialect_hash : Str) (drifted : List Str) where
  -- Every answer carries the hash of the graph's dialect, and its own rows and pin.
  answer-carries :
      (st : Standing) (ids : List Str) (p : Pin)
      → ((answer fl num cal lower sat g hash sem dialect_hash drifted st ids p).rows ≡ ids)
        × ((answer fl num cal lower sat g hash sem dialect_hash drifted st ids p).pin ≡ p)
        × ((answer fl num cal lower sat g hash sem dialect_hash drifted st ids p).dialect_hash
            ≡ dialect_hash)
  unfolding answer
  answer-carries st ids p = elim (Option-cases st.pin) [
    | inl e ↦ rw (e, answer) (refl, refl, refl)
    | inr (b, e) ↦ rw (e, answer) (refl, refl, refl)
  ]

  -- The pin that was just acknowledged shows no drift but that of the sources.
  drift-acknowledged :
      (st : Standing) (a : Answer) (p : Pin) (at by : Str)
      → a.dialect_hash ≡ dialect_hash
      → drift_from fl num cal lower sat g hash sem dialect_hash drifted
          (acknowledge fl num cal lower sat g hash sem dialect_hash drifted st a at by)
          p
          p
        ≡ source_drift fl num cal lower sat g hash sem dialect_hash drifted p
  unfolding drift_from acknowledge
  drift-acknowledged st a p at by e = rw (
    str_eq_refl (query_hash_of hash st.query),
    str_eq_refl p.set_hash,
    ap (λ h. str_eq h dialect_hash) e ∙ str_eq_refl dialect_hash,
    and-not-true (is_empty (query_hash_of hash st.query)),
  )

  -- The second question, from what the first one found.
  ask-again :
      (env : Env) (st : Standing) (a : Answer) (q : Query) (cache after : Cache) (rows : List Str)
      (p : Pin) (at by : Str)
      → parsed (parse_query st.query) ≡ found q
      → eval_cached fl num cal lower sat g hash sem dialect_hash drifted env st.query q cache
        ≡ found (rows, after)
      → pin_of fl num cal lower sat g hash sem dialect_hash drifted env q rows ≡ found p
      → a.rows ≡ rows
      → a.pin ≡ p
      → a.dialect_hash ≡ dialect_hash
      → (b : Answer) × (ask fl num cal lower sat g hash sem dialect_hash drifted env
            (acknowledge fl num cal lower sat g hash sem dialect_hash drifted st a at by)
            after
          ≡ found (b, after))
        × (b.rows ≡ a.rows)
        × (b.pin ≡ a.pin)
        × (b.drift ≡ source_drift fl num cal lower sat g hash sem dialect_hash drifted a.pin)
        × Unchanged b.delta
  unfolding ask acknowledge answer
  ask-again env st a q cache after rows p at by e1 e2 e3 same_rows same_pin same_dialect =
      let cached =
        eval_cached-normal fl num cal lower sat g hash sem dialect_hash drifted env st.query
          st.query q q cache rows after refl e2 in
      (
        answer fl num cal lower sat g hash sem dialect_hash drifted
            (acknowledge fl num cal lower sat g hash sem dialect_hash drifted st a at by) rows p,
        rw (e1, cached, e3),
        sym same_rows,
        sym same_pin,
        rw same_pin (drift-acknowledged st a p at by same_dialect),
        rw same_pin (diff_pins_self st.name p),
      )

  -- Once an answer has been acknowledged, the same question over the same graph gives the same rows,
  -- no difference from the pin, and no drift but that of the sources that the pin cites.
  pub ask-acknowledge :
      (env : Env) (st : Standing) (cache : Cache) (a : Answer) (after : Cache) (at by : Str)
      → ask fl num cal lower sat g hash sem dialect_hash drifted env st cache ≡ found (a, after)
      → (b : Answer) × (ask fl num cal lower sat g hash sem dialect_hash drifted env
            (acknowledge fl num cal lower sat g hash sem dialect_hash drifted st a at by)
            after
          ≡ found (b, after))
        × (b.rows ≡ a.rows)
        × (b.pin ≡ a.pin)
        × (b.drift ≡ source_drift fl num cal lower sat g hash sem dialect_hash drifted a.pin)
        × Unchanged b.delta
  unfolding ask
  ask-acknowledge env st cache a after at by e =
      let (q, e1, r1) = and_then-found (parsed (parse_query st.query)) _ (a, after) e in
      let (r, e2, r2) =
        and_then-found
          (eval_cached fl num cal lower sat g hash sem dialect_hash drifted env st.query q cache) _
          (a, after) r1 in
      let (p, e3, r3) =
        and_then-found (pin_of fl num cal lower sat g hash sem dialect_hash drifted env q r.0) _
          (a, after) r2 in
      finish q r p e1 e2 e3 (
        found_inj (answer fl num cal lower sat g hash sem dialect_hash drifted st r.0 p, r.1)
          (a, after) r3)
    where
      finish :
          (q : Query) (r : List Str × Cache) (p : Pin)
          → parsed (parse_query st.query) ≡ found q
          → eval_cached fl num cal lower sat g hash sem dialect_hash drifted env st.query q cache
            ≡ found r
          → pin_of fl num cal lower sat g hash sem dialect_hash drifted env q r.0 ≡ found p
          → ◌≡◌ {A = Answer × Cache}
              (answer fl num cal lower sat g hash sem dialect_hash drifted st r.0 p, r.1)
              (a, after)
          → (b : Answer) × (ask fl num cal lower sat g hash sem dialect_hash drifted env
                (acknowledge fl num cal lower sat g hash sem dialect_hash drifted st a at by)
                after
              ≡ found (b, after))
            × (b.rows ≡ a.rows)
            × (b.pin ≡ a.pin)
            × (b.drift ≡ source_drift fl num cal lower sat g hash sem dialect_hash drifted a.pin)
            × Unchanged b.delta
      finish q (rows, left) p e1 e2 e3 same =
          let here : answer fl num cal lower sat g hash sem dialect_hash drifted st rows p ≡ a =
            λ i. (same i).0 in
          let carried = answer-carries st rows p in
          ask-again env st a q cache after rows p at by e1
            (e2 ∙ ap (λ c. found (rows, c)) (λ i. (same i).1)) e3
            (ap (λ x. x.rows) (sym here) ∙ carried.0) (ap (λ x. x.pin) (sym here) ∙ carried.1)
            (ap (λ x. x.dialect_hash) (sym here) ∙ carried.2)
