-- ===== src/Dialect/Rules.antt =====
-- LevelOf, ApplyRules and withRules of dialect.go: what an index does with each tunable check.
pub mod Applied
use kgraph.Base.{
  Str, ◌≡◌, refl, sym, ap, ◌∙◌, subst, ◌⊎◌, inl, inr, Bool, true, false, if◌then◌else◌, Option,
  none, some, List, [], ◌∷◌, ◌++◌, append_assoc, arith, In, in-append, is_empty, str_eq, str_eq_iff,
  find_key, IsMap, find_key-none, Bool-cases,
}
use kgraph.Dialect.{Dialect, RuleLevel, error, warn, off}

pub data Severity : Type 0 where
  sev_error sev_warn : Severity

-- A diagnostic, as far as the rules read it; the rest of it is `text`.
pub record Diag : Type 0 where
  pub severity : Severity
  pub check : Str
  pub text : Str

-- LevelOf: a check with no rule warns.
unfoldable pub level_of : List (Str × RuleLevel) → Str → RuleLevel
level_of rules check = elim (find_key rules check) [ some l ↦ l | none ↦ warn ]

unfoldable pub apply_level : RuleLevel → Diag → List Diag
apply_level off x = []
apply_level error x = record x { severity = sev_error } ∷ []
apply_level warn x = x ∷ []

-- The body of the loop of ApplyRules.
unfoldable pub apply_rule : List (Str × RuleLevel) → Diag → List Diag
unfolding level_of apply_level
apply_rule rules x = elim x.severity [
  | sev_error ↦ x ∷ []
  | sev_warn ↦ if is_empty x.check then x ∷ [] else apply_level (level_of rules x.check) x
]

unfoldable pub apply_each : List (Str × RuleLevel) → List Diag → List Diag
unfolding apply_rule
apply_each rules [] = []
apply_each rules (x ∷ xs) = apply_rule rules x ++ apply_each rules xs

unfoldable pub apply_rules : List (Str × RuleLevel) → List Diag → List Diag
unfolding apply_each
apply_rules [] ds = ds
apply_rules (r ∷ rules) ds = apply_each (r ∷ rules) ds

-- m[k] = v
unfoldable pub put : Str → RuleLevel → List (Str × RuleLevel) → List (Str × RuleLevel)
put k v [] = (k, v) ∷ []
put k v ((j, w) ∷ m) = let rest = put k v m in if str_eq j k then (k, v) ∷ m else (j, w) ∷ rest

unfoldable pub put_all : List (Str × RuleLevel) → List (Str × RuleLevel) → List (Str × RuleLevel)
unfolding put
put_all m [] = m
put_all m ((k, v) ∷ over) = put_all (put k v m) over

-- withRules
unfoldable pub with_rules : Dialect → List (Str × RuleLevel) → Dialect
unfolding put_all
with_rules d [] = d
with_rules d (o ∷ over) = record d { rules = put_all d.rules (o ∷ over) }

find_key-put :
    (k j : Str) (v : RuleLevel) (m : List (Str × RuleLevel))
    → find_key (put k v m) j ≡ (if str_eq k j then some v else find_key m j)
unfolding find_key put
find_key-put k j v [] = refl
find_key-put k j v ((i, w) ∷ m) =
    ground (arith, str_eq_iff k j, str_eq_iff i k, str_eq_iff i j, find_key-put k j v m)

-- The first of two answers, if it is one.
unfoldable first_of : Option RuleLevel → Option RuleLevel → Option RuleLevel
first_of (some l) o = some l
first_of none o = o

find_key-put_all :
    (over m : List (Str × RuleLevel)) (j : Str)
    → IsMap over
    → find_key (put_all m over) j ≡ first_of (find_key over j) (find_key m j)
unfolding put_all find_key first_of
find_key-put_all [] m j u = refl
find_key-put_all ((k, v) ∷ over) m j u =
    find_key-put_all over (put k v m) j u.1 ∙ settle (Bool-cases (str_eq k j))
  where
    settle :
        ((str_eq k j ≡ true) ⊎ (str_eq k j ≡ false))
        → first_of (find_key over j) (find_key (put k v m) j)
          ≡ first_of (if str_eq k j then some v else find_key over j) (find_key m j)
    settle (inl e) =
        let n : find_key over j ≡ none =
          subst (λ x. find_key over x ≡ none) ((str_eq_iff k j).0 e) (find_key-none over k u.0) in
        ap (λ o. first_of (find_key over j) o)
          (find_key-put k j v m ∙ ap (λ b. if b then some v else find_key m j) e)
        ∙ ap (λ o. first_of o (some v)) n
        ∙ sym (ap (λ b. first_of (if b then some v else find_key over j) (find_key m j)) e)
    settle (inr e) =
        ap (λ o. first_of (find_key over j) o)
          (find_key-put k j v m ∙ ap (λ b. if b then some v else find_key m j) e)
        ∙ sym (ap (λ b. first_of (if b then some v else find_key over j) (find_key m j)) e)

-- The level of a check under an index's own rules, of which no check has two: the index's rule if it
-- has one, and the dialect's otherwise.
pub level_of-with_rules :
    (d : Dialect) (over : List (Str × RuleLevel)) (check : Str)
    → IsMap over
    → level_of (with_rules d over).rules check
      ≡ elim (find_key over check) [ some l ↦ l | none ↦ level_of d.rules check ]
unfolding level_of with_rules first_of find_key
level_of-with_rules d [] check u = refl
level_of-with_rules d (o ∷ over) check u =
    ap (λ x. elim x [ some l ↦ l | none ↦ warn ]) (find_key-put_all (o ∷ over) d.rules check u)
    ∙ settle (find_key (o ∷ over) check)
  where
    settle :
        (x : Option RuleLevel)
        → (elim (first_of x (find_key d.rules check)) [ some l ↦ l | none ↦ warn ])
          ≡ elim x [ some l ↦ l | none ↦ level_of d.rules check ]
    settle (some l) = refl
    settle none = refl
