-- ===== src/Query/Check/Typed.antt =====
-- What a query that ValidateQueryIn of eval.go accepts looks like.
use kgraph.Base.{
  Str, lit, ◌≡◌, refl, sym, subst, ◌↔◌, inl, inr, Bool, true, false, not, ◌&&◌, if◌then◌else◌, List,
  [], ◌∷◌, ◌++◌, In, has, has_iff, str_eq, Bool-cases,
}
use kgraph.Time.{Floats}
use kgraph.Dialect.{Dialect, valid_class}
use kgraph.Query.{
  SortKey, Pred, Atom, Query, Queries, union_of, inter_of, complement, named, matching, scoped,
  no_queries, more,
}
use kgraph.Query.Parse.{is_kind}
use kgraph.Query.Field.{bool_fields}
use kgraph.Query.Check.{
  QueryError, unknown_status, unknown_needs, unknown_class, not_date, not_compared, not_flag,
  not_number, query_fields, date_fields, valid_status, valid_needs, is_date_literal, is_flag,
  is_number, report, compared_alike, check_flag, check_values, check_pred, check_preds, check_atoms,
  check_sort, validate_query, validate_all,
}

-- Every text passes.
abbrev pub AllPass : (Str → Bool) → List Str → Type 0
AllPass ok vs = (v : Str) → In v vs → ok v ≡ true

module _ (fl : Floats) (dl : Dialect) where
  -- A known field, with values of its type.
  pub record IsTypedPred (p : Pred) : Type 0 where
    known : In p.key query_fields
    statuses : str_eq p.key (lit "status") ≡ true → AllPass (has valid_status) p.vals
    needs : str_eq p.key (lit "needs") ≡ true → AllPass (has valid_needs) p.vals
    classes : str_eq p.key (lit "class") ≡ true → AllPass (valid_class dl) p.vals
    dates : has date_fields p.key ≡ true → AllPass is_date_literal p.vals
    flags :
        (has bool_fields p.key && not (str_eq p.op (lit "has"))) ≡ true
        → (compared_alike p.op ≡ true) × AllPass is_flag p.vals
    numbers :
        (str_eq p.key (lit "value") && not (str_eq p.op (lit "has"))) ≡ true
        → AllPass (is_number fl) p.vals

  abbrev pub AreTypedPreds : List Pred → Type 0
  AreTypedPreds ps = (p : Pred) → In p ps → IsTypedPred p

  abbrev pub AreTypedAtoms : List Atom → Type 0
  AreTypedAtoms atoms = (a : Atom) → In a atoms → AllPass is_kind a.kinds × AreTypedPreds a.preds

  abbrev pub AreTypedKeys : List SortKey → Type 0
  AreTypedKeys ks = (k : SortKey) → In k ks → In k.key query_fields

  unfoldable mutual
    pub IsTyped : Query → Type 0
    IsTyped (union_of qs) = AreTyped qs
    IsTyped (inter_of qs) = AreTyped qs
    IsTyped (complement q) = IsTyped q
    IsTyped (named name) = Unit
    IsTyped (matching p) = AreTypedAtoms p.atoms × AreTypedKeys p.sort
    IsTyped (scoped q at sort) = IsTyped q × AreTypedKeys sort

    pub AreTyped : Queries → Type 0
    AreTyped no_queries = Unit
    AreTyped (more q qs) = IsTyped q × AreTyped qs

append-empty : {A : Type 0} (xs ys : List A) → (xs ++ ys ≡ []) ↔ ((xs ≡ []) × (ys ≡ []))
append-empty [] ys = (λ e. (refl, e), λ w. w.1)
append-empty (x ∷ xs) ys = (λ e. cc e, λ w. cc w.0)

if-empty :
    {A : Type 0} (b : Bool) (xs : List A) → ((if b then xs else []) ≡ []) ↔ ((b ≡ true) → xs ≡ [])
if-empty true xs = (λ e t. e, λ h. h refl)
if-empty false xs = (λ e t. cc t, λ h. refl)

unless-empty : {A : Type 0} (b : Bool) (x : A) → ((if b then [] else x ∷ []) ≡ []) ↔ (b ≡ true)
unless-empty true x = (λ e. refl, λ h. refl)
unless-empty false x = (λ e. cc e, λ h. cc h)

report-empty :
    (ok : Str → Bool) (err : Str → QueryError) (vs : List Str)
    → (report ok err vs ≡ []) ↔ AllPass ok vs
unfolding report
report-empty ok err [] = (λ e v i. absurd i, λ h. refl)
report-empty ok err (v ∷ vs) = elim (Bool-cases (ok v)) [
  | inl e ↦ rw e (
    λ h w i. elim i [ inl s ↦ rw s e | inr j ↦ (report-empty ok err vs).0 h w j ],
    λ h. (report-empty ok err vs).1 (λ w j. h w (inr j)),
  )
  | inr e ↦ rw e (λ h. cc h, λ h. cc (e, h v (inl refl)))
]

check_sort-empty :
    (fl : Floats) (dl : Dialect) (ks : List SortKey)
    → (check_sort fl dl ks ≡ []) ↔ AreTypedKeys fl dl ks
unfolding check_sort
check_sort-empty fl dl [] = (λ e k i. absurd i, λ h. refl)
check_sort-empty fl dl (k ∷ ks) = elim (Bool-cases (has query_fields k.key)) [
  | inl e ↦ rw e (
    λ h w i. elim i [
      | inl s ↦ rw s ((has_iff query_fields k.key).0 e)
      | inr j ↦ (check_sort-empty fl dl ks).0 h w j
    ],
    λ h. (check_sort-empty fl dl ks).1 (λ w j. h w (inr j)),
  )
  | inr e ↦ rw e (λ h. cc h, λ h. cc (e, (has_iff query_fields k.key).1 (h k (inl refl))))
]

-- The two sides of an empty list of errors, part by part.
both-empty :
    {A : Type 0} {P Q : Type 0} (xs ys : List A)
    → ((xs ≡ []) ↔ P)
    → ((ys ≡ []) ↔ Q)
    → (xs ++ ys ≡ []) ↔ (P × Q)
both-empty xs ys p q = (
  λ e. let (a, b) = (append-empty xs ys).0 e in (p.0 a, q.0 b),
  λ w. (append-empty xs ys).1 (p.1 w.0, q.1 w.1),
)

guarded-empty :
    {A : Type 0} {P : Type 0} (b : Bool) (xs : List A)
    → ((xs ≡ []) ↔ P)
    → ((if b then xs else []) ≡ []) ↔ ((b ≡ true) → P)
guarded-empty b xs p = (λ e t. p.0 ((if-empty b xs).0 e t), λ h. (if-empty b xs).1 (λ t. p.1 (h t)))

check_values-empty :
    (fl : Floats) (dl : Dialect) (p : Pred)
    → (check_values fl dl p ≡ []) ↔ (
        (str_eq p.key (lit "status") ≡ true → AllPass (has valid_status) p.vals)
        × ((str_eq p.key (lit "needs") ≡ true → AllPass (has valid_needs) p.vals)
            × ((str_eq p.key (lit "class") ≡ true → AllPass (valid_class dl) p.vals)
                × ((has date_fields p.key ≡ true → AllPass is_date_literal p.vals)
                    × (((has bool_fields p.key && not (str_eq p.op (lit "has"))) ≡ true
                          → (compared_alike p.op ≡ true) × AllPass is_flag p.vals)
                        × ((str_eq p.key (lit "value") && not (str_eq p.op (lit "has"))) ≡ true
                            → AllPass (is_number fl) p.vals))))))
unfolding check_values check_flag
check_values-empty fl dl p =
    both-empty _ _
      (guarded-empty (str_eq p.key (lit "status")) _
        (report-empty (has valid_status) unknown_status p.vals))
      (both-empty _ _
        (guarded-empty (str_eq p.key (lit "needs")) _
          (report-empty (has valid_needs) unknown_needs p.vals))
        (both-empty _ _
          (guarded-empty (str_eq p.key (lit "class")) _
            (report-empty (valid_class dl) unknown_class p.vals))
          (both-empty _ _
            (guarded-empty (has date_fields p.key) _ (report-empty is_date_literal not_date p.vals))
            (both-empty _ _
              (guarded-empty (has bool_fields p.key && not (str_eq p.op (lit "has"))) _ (
                both-empty _ _ (unless-empty (compared_alike p.op) (not_compared p.key))
                  (report-empty is_flag not_flag p.vals)))
              (guarded-empty (str_eq p.key (lit "value") && not (str_eq p.op (lit "has"))) _
                (report-empty (is_number fl) not_number p.vals))))))

check_pred-empty :
    (fl : Floats) (dl : Dialect) (p : Pred) → (check_pred fl dl p ≡ []) ↔ IsTypedPred fl dl p
unfolding check_pred
check_pred-empty fl dl p = elim (Bool-cases (has query_fields p.key)) [
  | inl e ↦ rw e (
    λ h.
        let (a, (b, (c, (d, (f, n))))) = (check_values-empty fl dl p).0 h in
        record {
          known = (has_iff query_fields p.key).0 e;
          statuses = a;
          needs = b;
          classes = c;
          dates = d;
          flags = f;
          numbers = n;
        },
    λ w.
        (check_values-empty fl dl p).1
          (w.statuses, (w.needs, (w.classes, (w.dates, (w.flags, w.numbers))))),
  )
  | inr e ↦ rw e (λ h. cc h, λ w. cc (e, (has_iff query_fields p.key).1 w.known))
]

check_preds-empty :
    (fl : Floats) (dl : Dialect) (ps : List Pred)
    → (check_preds fl dl ps ≡ []) ↔ AreTypedPreds fl dl ps
unfolding check_preds
check_preds-empty fl dl [] = (λ e p i. absurd i, λ h. refl)
check_preds-empty fl dl (p ∷ ps) =
    let both = both-empty _ _ (check_pred-empty fl dl p) (check_preds-empty fl dl ps) in
    (
      λ e q i. elim i [
        | inl s ↦ subst (IsTypedPred fl dl) (sym s) (both.0 e).0
        | inr j ↦ (both.0 e).1 q j
      ],
      λ h. both.1 (h p (inl refl), λ q j. h q (inr j)),
    )

check_atoms-empty :
    (fl : Floats) (dl : Dialect) (atoms : List Atom)
    → (check_atoms fl dl atoms ≡ []) ↔ AreTypedAtoms fl dl atoms
unfolding check_atoms
check_atoms-empty fl dl [] = (λ e p i. absurd i, λ h. refl)
check_atoms-empty fl dl (a ∷ atoms) =
    let both =
      both-empty _ _ (report-empty is_kind _ a.kinds)
        (both-empty _ _ (check_preds-empty fl dl a.preds) (check_atoms-empty fl dl atoms)) in
    (
      λ e b i. elim i [
        | inl s ↦
            subst (λ (x : Atom). AllPass is_kind x.kinds × AreTypedPreds fl dl x.preds) (sym s)
              ((both.0 e).0, (both.0 e).1.0)
        | inr j ↦ (both.0 e).1.1 b j
      ],
      λ h. both.1 ((h a (inl refl)).0, ((h a (inl refl)).1, λ b j. h b (inr j))),
    )

mutual
  unfolding validate_query IsTyped

  validate_query-IsTyped :
      (fl : Floats) (dl : Dialect) (q : Query) → (validate_query fl dl q ≡ []) ↔ IsTyped fl dl q
  validate_query-IsTyped fl dl (union_of qs) = validate_all-AreTyped fl dl qs
  validate_query-IsTyped fl dl (inter_of qs) = validate_all-AreTyped fl dl qs
  validate_query-IsTyped fl dl (complement q) = validate_query-IsTyped fl dl q
  validate_query-IsTyped fl dl (named name) = (λ e. tt, λ u. refl)
  validate_query-IsTyped fl dl (matching p) =
      both-empty _ _ (check_atoms-empty fl dl p.atoms) (check_sort-empty fl dl p.sort)
  validate_query-IsTyped fl dl (scoped q at sort) =
      both-empty _ _ (validate_query-IsTyped fl dl q) (check_sort-empty fl dl sort)

  validate_all-AreTyped :
      (fl : Floats) (dl : Dialect) (qs : Queries) → (validate_all fl dl qs ≡ []) ↔ AreTyped fl dl qs
  validate_all-AreTyped fl dl no_queries = (λ e. tt, λ u. refl)
  validate_all-AreTyped fl dl (more q qs) =
      both-empty _ _ (validate_query-IsTyped fl dl q) (validate_all-AreTyped fl dl qs)

-- ValidateQueryIn finds no error exactly in the queries that are typed: every kind is a kind, every
-- field and sort key is a known field, and the values of a predicate are of the type of its field (a
-- status, a need, a class of the dialect, a date or now, a number, or for a flag true or false under
-- = or !=).
pub validate_query_exact :
    (fl : Floats) (dl : Dialect) (q : Query) → (validate_query fl dl q ≡ []) ↔ IsTyped fl dl q
validate_query_exact = validate_query-IsTyped
