-- ===== src/SemHash/Names.antt =====
-- The words of the vocabularies of node.go in the text that SemHash hashes.
use kgraph.Base.{
  Str, ◌≡◌, refl, sym, ap, ◌∙◌, Bool, true, false, some, List, [], ◌∷◌, ◌++◌, In, any, any_iff,
  find_key, str_eq, ◌==◌,
}
use kgraph.Model.{
  Kind, claim, question, group, entity, event, action, source, Status, asserted, proposed,
  still_open, resolved, done, withdrawn, tested_false, Needs, evidence, decision, reply, analysis,
  Precision, day, month, year, approx, kind_name, status_name, needs_name, precision_name,
}
use kgraph.SemHash.{shown_flag}

-- A value that can be read off its word is determined by it.
told-inj {ℓ} :
    {A : Type ℓ} (table : List (Str × A)) (word : A → Str)
    → ((a : A) → find_key table (word a) ≡ some a)
    → (a b : A) → word a ≡ word b
    → a ≡ b
told-inj table word h a b e = value (sym (h a) ∙ ap (find_key table) e ∙ h b)
  where
    value : some a ≡ some b → a ≡ b
    value p = cc p

clean_of : (s : Str) → any (λ c. c == 0) s ≡ false → ¬ In 0 s
clean_of s h i = cc (h, (any_iff (λ c. c == 0) s).1 (0, i, refl))

abbrev kind_words : List (Str × Kind)
kind_words =
    (kind_name claim, claim)
    ∷ (kind_name question, question)
    ∷ (kind_name group, group)
    ∷ (kind_name entity, entity)
    ∷ (kind_name event, event)
    ∷ (kind_name action, action)
    ∷ (kind_name source, source)
    ∷ []

kind_told : (a : Kind) → find_key kind_words (kind_name a) ≡ some a
unfolding find_key str_eq kind_name
kind_told claim = refl
kind_told question = refl
kind_told group = refl
kind_told entity = refl
kind_told event = refl
kind_told action = refl
kind_told source = refl

pub kind_name-inj : (a b : Kind) → kind_name a ≡ kind_name b → a ≡ b
kind_name-inj a b e = told-inj kind_words kind_name kind_told a b e

kind_plain : (a : Kind) → any (λ c. c == 0) (kind_name a) ≡ false
unfolding any kind_name
kind_plain claim = refl
kind_plain question = refl
kind_plain group = refl
kind_plain entity = refl
kind_plain event = refl
kind_plain action = refl
kind_plain source = refl

pub kind_name-clean : (a : Kind) → ¬ In 0 (kind_name a)
kind_name-clean a = clean_of (kind_name a) (kind_plain a)

abbrev status_words : List (Str × Status)
status_words =
    (status_name Status.unset, Status.unset)
    ∷ (status_name asserted, asserted)
    ∷ (status_name proposed, proposed)
    ∷ (status_name still_open, still_open)
    ∷ (status_name resolved, resolved)
    ∷ (status_name done, done)
    ∷ (status_name withdrawn, withdrawn)
    ∷ (status_name tested_false, tested_false)
    ∷ []

status_told : (a : Status) → find_key status_words (status_name a) ≡ some a
unfolding find_key str_eq status_name
status_told Status.unset = refl
status_told asserted = refl
status_told proposed = refl
status_told still_open = refl
status_told resolved = refl
status_told done = refl
status_told withdrawn = refl
status_told tested_false = refl

pub status_name-inj : (a b : Status) → status_name a ≡ status_name b → a ≡ b
status_name-inj a b e = told-inj status_words status_name status_told a b e

status_plain : (a : Status) → any (λ c. c == 0) (status_name a) ≡ false
unfolding any status_name
status_plain Status.unset = refl
status_plain asserted = refl
status_plain proposed = refl
status_plain still_open = refl
status_plain resolved = refl
status_plain done = refl
status_plain withdrawn = refl
status_plain tested_false = refl

pub status_name-clean : (a : Status) → ¬ In 0 (status_name a)
status_name-clean a = clean_of (status_name a) (status_plain a)

abbrev needs_words : List (Str × Needs)
needs_words =
    (needs_name Needs.unset, Needs.unset)
    ∷ (needs_name evidence, evidence)
    ∷ (needs_name decision, decision)
    ∷ (needs_name reply, reply)
    ∷ (needs_name analysis, analysis)
    ∷ []

needs_told : (a : Needs) → find_key needs_words (needs_name a) ≡ some a
unfolding find_key str_eq needs_name
needs_told Needs.unset = refl
needs_told evidence = refl
needs_told decision = refl
needs_told reply = refl
needs_told analysis = refl

pub needs_name-inj : (a b : Needs) → needs_name a ≡ needs_name b → a ≡ b
needs_name-inj a b e = told-inj needs_words needs_name needs_told a b e

needs_plain : (a : Needs) → any (λ c. c == 0) (needs_name a) ≡ false
unfolding any needs_name
needs_plain Needs.unset = refl
needs_plain evidence = refl
needs_plain decision = refl
needs_plain reply = refl
needs_plain analysis = refl

pub needs_name-clean : (a : Needs) → ¬ In 0 (needs_name a)
needs_name-clean a = clean_of (needs_name a) (needs_plain a)

abbrev precision_words : List (Str × Precision)
precision_words =
    (precision_name Precision.unset, Precision.unset)
    ∷ (precision_name day, day)
    ∷ (precision_name month, month)
    ∷ (precision_name year, year)
    ∷ (precision_name approx, approx)
    ∷ []

precision_told : (a : Precision) → find_key precision_words (precision_name a) ≡ some a
unfolding find_key str_eq precision_name
precision_told Precision.unset = refl
precision_told day = refl
precision_told month = refl
precision_told year = refl
precision_told approx = refl

pub precision_name-inj : (a b : Precision) → precision_name a ≡ precision_name b → a ≡ b
precision_name-inj a b e = told-inj precision_words precision_name precision_told a b e

precision_plain : (a : Precision) → any (λ c. c == 0) (precision_name a) ≡ false
unfolding any precision_name
precision_plain Precision.unset = refl
precision_plain day = refl
precision_plain month = refl
precision_plain year = refl
precision_plain approx = refl

pub precision_name-clean : (a : Precision) → ¬ In 0 (precision_name a)
precision_name-clean a = clean_of (precision_name a) (precision_plain a)

-- The verb %t|%t.
abbrev pub flags_text : Bool × Bool → Str
flags_text p = shown_flag p.0 ++ (124 ∷ shown_flag p.1)

abbrev flag_words : List (Str × (Bool × Bool))
flag_words =
    (flags_text (true, true), (true, true))
    ∷ (flags_text (true, false), (true, false))
    ∷ (flags_text (false, true), (false, true))
    ∷ (flags_text (false, false), (false, false))
    ∷ []

flags_told : (p : Bool × Bool) → find_key flag_words (flags_text p) ≡ some p
unfolding find_key str_eq shown_flag
flags_told (true, true) = refl
flags_told (true, false) = refl
flags_told (false, true) = refl
flags_told (false, false) = refl

pub flags_text-inj : (p q : Bool × Bool) → flags_text p ≡ flags_text q → p ≡ q
flags_text-inj p q e = told-inj flag_words (λ p. flags_text p) flags_told p q e

flags_plain : (p : Bool × Bool) → any (λ c. c == 0) (flags_text p) ≡ false
unfolding any shown_flag
flags_plain (true, true) = refl
flags_plain (true, false) = refl
flags_plain (false, true) = refl
flags_plain (false, false) = refl

pub flags_text-clean : (p : Bool × Bool) → ¬ In 0 (flags_text p)
flags_text-clean p = clean_of (flags_text p) (flags_plain p)
