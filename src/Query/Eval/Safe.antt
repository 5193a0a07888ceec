-- ===== src/Query/Eval/Safe.antt =====
-- Eval of eval.go on the trees that ParseQuery returns: no predicate is read without a value, and no
-- hop without an atom behind it.
use kgraph.Base.{
  Str, lit, ◌≡◌, ◌≢◌, refl, ap, ◌⊎◌, inl, inr, Bool, true, false, if◌then◌else◌, Option, none, some,
  List, [], ◌∷◌, arith, Bool-cases, Option-cases, str_eq, str_eq_refl, is_empty, has,
}
use kgraph.Model.{Node}
use kgraph.Time.{Floats}
use kgraph.Graph.{Graph}
use kgraph.Values.{Numbers, Calendar}
use kgraph.Query.{Pred, Atom}
use kgraph.Query.Shape.{HasValue, HaveValues}
use kgraph.Query.Field.{
  field, match_flag, match_value, match_pred, match_preds, match_head, match_atom, is_some,
  bool_fields,
}
use kgraph.Query.Eval.{
  Result, found, failed, crashed, unfinished, and_then, or_crash, or_unfinished, select,
}

-- The computation does not panic.
abbrev pub IsSafe : {A : Type 0} → Result A → Type 0
IsSafe r = r ≢ crashed

-- What it finds, where it finds something, is as stated.
abbrev pub SafelyGives : {A : Type 0} → (A → Type 0) → Result A → Type 0
SafelyGives P (found a) = P a
SafelyGives P failed = Unit
SafelyGives P crashed = ⊥
SafelyGives P unfinished = Unit

pub IsSafe-found : {A : Type 0} (a : A) → IsSafe (found a)
IsSafe-found a p = cc p

pub IsSafe-gives :
    {A B : Type 0} (P : A → Type 0) (r : Result A) (f : A → Result B)
    → SafelyGives P r
    → ((a : A) → P a → IsSafe (f a))
    → IsSafe (and_then r f)
unfolding and_then
IsSafe-gives P (found a) f h k p = k a h p
IsSafe-gives P failed f h k p = cc p
IsSafe-gives P crashed f h k p = h
IsSafe-gives P unfinished f h k p = cc p

pub IsSafe-and_then :
    {A B : Type 0} (r : Result A) (f : A → Result B)
    → IsSafe r
    → ((a : A) → IsSafe (f a))
    → IsSafe (and_then r f)
unfolding and_then
IsSafe-and_then (found a) f h k p = k a p
IsSafe-and_then failed f h k p = cc p
IsSafe-and_then crashed f h k p = h refl
IsSafe-and_then unfinished f h k p = cc p

pub IsSafe-if :
    {A : Type 0} (b : Bool) (x y : Result A) → IsSafe x → IsSafe y → IsSafe (if b then x else y)
IsSafe-if true x y h k = h
IsSafe-if false x y h k = k

pub IsSafe-or_crash : {A : Type 0} (o : Option A) → o ≢ none → IsSafe (or_crash o)
unfolding or_crash
IsSafe-or_crash none h p = h refl
IsSafe-or_crash (some a) h p = cc p

pub IsSafe-or_unfinished : {A : Type 0} (o : Option A) → IsSafe (or_unfinished o)
unfolding or_unfinished
IsSafe-or_unfinished none p = cc p
IsSafe-or_unfinished (some a) p = cc p

pub IsSafe-select :
    {A : Type 0} (f : A → Result Bool) (xs : List A)
    → ((a : A) → IsSafe (f a))
    → IsSafe (select f xs)
unfolding select
IsSafe-select f [] h = IsSafe-found []
IsSafe-select f (x ∷ xs) h =
    IsSafe-and_then (f x) _ (h x)
      (λ b. IsSafe-and_then (select f xs) _ (IsSafe-select f xs h) (λ ys. IsSafe-found _))

pub SafelyGives-and_then :
    {A B : Type 0} (P : A → Type 0) (Q : B → Type 0) (r : Result A) (f : A → Result B)
    → SafelyGives P r
    → ((a : A) → P a → SafelyGives Q (f a))
    → SafelyGives Q (and_then r f)
unfolding and_then
SafelyGives-and_then P Q (found a) f h k = k a h
SafelyGives-and_then P Q failed f h k = tt
SafelyGives-and_then P Q crashed f h k = h
SafelyGives-and_then P Q unfinished f h k = tt

some-ne-none : {A : Type 0} (a : A) → some a ≢ none
some-ne-none a p = cc p

-- A flag is read at the first value, unless the operator is `has`.
match_flag-answers :
    (op : Str) (vs : List Str) (held : Bool)
    → (op ≡ lit "has") ⊎ (is_empty vs ≡ false)
    → match_flag op vs held ≢ none
unfolding match_flag
match_flag-answers op vs held (inl e) p = cc (rw (e, str_eq_refl (lit "has"), match_flag) at p)
match_flag-answers op [] held (inr e) p = cc e
match_flag-answers op (v ∷ vs) held (inr e) p = ground arith

match_value-answers :
    (fl : Floats) (num : Numbers) (cal : Calendar) (lower : Str → Str) (sat : Str → Str → Bool)
    (g : Graph) (op : Str) (vs : List Str) (now got : Str)
    → is_empty vs ≡ false
    → match_value fl num cal lower sat g op vs now got ≢ none
unfolding match_value
match_value-answers fl num cal lower sat g op [] now got e p = cc e
match_value-answers fl num cal lower sat g op (v ∷ vs) now got e p = ground arith

module _ (fl : Floats) (num : Numbers) (cal : Calendar) (lower : Str → Str) (sat : Str → Str → Bool)
    (g : Graph) where
  match_pred-answers :
      (p : Pred) (n : Node) (at now : Str)
      → HasValue p
      → match_pred fl num cal lower sat g p n at now ≢ none
  unfolding match_pred
  match_pred-answers p n at now h q = elim (Bool-cases (has bool_fields p.key)) [
    | inl b ↦
        match_flag-answers p.op p.vals (is_some (field fl num cal lower sat g n p.key at)) h
          (rw (b, match_pred) at q)
    | inr b ↦ elim (Bool-cases (str_eq p.op (lit "has"))) [
      | inl o ↦ cc (rw (b, o, match_pred) at q)
      | inr o ↦ elim (Option-cases (field fl num cal lower sat g n p.key at)) [
        | inl f ↦ cc (rw (b, o, f, match_pred) at q)
        | inr (got, f) ↦ elim h [
          | inl e ↦ cc (o, str_eq_refl (lit "has"), ap (λ x. str_eq x (lit "has")) e)
          | inr e ↦
              match_value-answers fl num cal lower sat g p.op p.vals now got e
                (rw (b, o, f, match_pred) at q)
        ]
      ]
    ]
  ]

  match_preds-answers :
      (ps : List Pred) (n : Node) (at now : Str)
      → HaveValues ps
      → match_preds fl num cal lower sat g ps n at now ≢ none
  unfolding match_preds
  match_preds-answers [] n at now h q = cc q
  match_preds-answers (p ∷ ps) n at now h q =
      elim (Option-cases (match_pred fl num cal lower sat g p n at now)) [
        | inl e ↦ match_pred-answers p n at now h.0 e
        | inr (false, e) ↦ cc (rw (e, match_preds) at q)
        | inr (true, e) ↦ match_preds-answers ps n at now h.1 (rw (e, match_preds) at q)
      ]

  pub match_atom-answers :
      (a : Atom) (n : Node) (at now : Str)
      → HaveValues a.preds
      → match_atom fl num cal lower sat g a n at now ≢ none
  unfolding match_atom
  match_atom-answers a n at now h q = elim (Bool-cases (match_head fl num cal lower sat g a n)) [
    | inr b ↦ cc (rw (b, match_atom) at q)
    | inl b ↦ elim (Option-cases (match_preds fl num cal lower sat g a.preds n at now)) [
      | inl e ↦ match_preds-answers a.preds n at now h e
      | inr (false, e) ↦ cc (rw (b, e, match_atom) at q)
      | inr (true, e) ↦ cc (rw (b, e, match_atom) at q)
    ]
  ]
