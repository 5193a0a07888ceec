-- ===== src/Dialect/Rules/Applied.antt =====
-- What ApplyRules of dialect.go lets through.
use kgraph.Base.{
  Str, ◌≡◌, refl, sym, ap, ◌∙◌, subst, ◌⊎◌, inl, inr, Bool, true, false, if◌then◌else◌, List, [],
  ◌∷◌, ◌++◌, append_assoc, In, in-append, is_empty,
}
use kgraph.Dialect.{RuleLevel, error, warn, off}
use kgraph.Dialect.Rules.{
  Severity, sev_error, sev_warn, Diag, level_of, apply_level, apply_rule, apply_each, apply_rules,
}

apply_each-append :
    (rules : List (Str × RuleLevel)) (xs ys : List Diag)
    → apply_each rules (xs ++ ys) ≡ apply_each rules xs ++ apply_each rules ys
unfolding apply_each
apply_each-append rules [] ys = refl
apply_each-append rules (x ∷ xs) ys =
    rw
      (
        apply_each-append rules xs ys,
        append_assoc (apply_rule rules x) (apply_each rules xs) (apply_each rules ys),
      )
      refl

-- What one diagnostic becomes, once it is known whether it has a check, and the level of that.
settled_by : Bool → RuleLevel → Diag → List Diag
unfolding apply_level
settled_by b l x = if b then x ∷ [] else apply_level l x

again :
    (rules : List (Str × RuleLevel)) (check text : Str) (b : Bool) (l : RuleLevel)
    → is_empty check ≡ b
    → level_of rules check ≡ l
    → apply_each rules (settled_by b l (record { severity = sev_warn; check = check; text = text }))
      ≡ settled_by b l (record { severity = sev_warn; check = check; text = text })
unfolding apply_each apply_rule apply_level settled_by level_of
again rules check text true l p q = rw p refl
again rules check text false error p q = refl
again rules check text false off p q = refl
again rules check text false warn p q = rw (p, q) refl

apply_rule-settled :
    (rules : List (Str × RuleLevel)) (check text : Str)
    → apply_rule rules (record { severity = sev_warn; check = check; text = text })
      ≡ settled_by
          (is_empty check)
          (level_of rules check)
          (record { severity = sev_warn; check = check; text = text })
unfolding apply_rule settled_by
apply_rule-settled rules check text = refl

-- What is left after one pass of a diagnostic is left as it is by the next.
apply_each-apply_rule :
    (rules : List (Str × RuleLevel)) (v : Severity) (check text : Str)
    → apply_each rules (apply_rule rules (record { severity = v; check = check; text = text }))
      ≡ apply_rule rules (record { severity = v; check = check; text = text })
unfolding apply_each apply_rule settled_by
apply_each-apply_rule rules sev_error check text = refl
apply_each-apply_rule rules sev_warn check text =
    again rules check text (is_empty check) (level_of rules check) refl refl

apply_each_idem :
    (rules : List (Str × RuleLevel)) (ds : List Diag)
    → apply_each rules (apply_each rules ds) ≡ apply_each rules ds
unfolding apply_each
apply_each_idem rules [] = refl
apply_each_idem rules (d ∷ ds) =
    apply_each-append rules (apply_rule rules d) (apply_each rules ds)
    ∙ rw (apply_each-apply_rule rules d.severity d.check d.text, apply_each_idem rules ds) refl

-- A second application of the same rules changes nothing.
pub apply_rules_idem :
    (rules : List (Str × RuleLevel)) (ds : List Diag)
    → apply_rules rules (apply_rules rules ds) ≡ apply_rules rules ds
unfolding apply_rules
apply_rules_idem [] ds = refl
apply_rules_idem (r ∷ rules) ds = apply_each_idem (r ∷ rules) ds

apply_rule-error :
    (rules : List (Str × RuleLevel)) (v : Severity) (check text : Str)
    → v ≡ sev_error
    → apply_rule rules (record { severity = v; check = check; text = text })
      ≡ record { severity = v; check = check; text = text } ∷ []
unfolding apply_rule
apply_rule-error rules sev_error check text p = refl
apply_rule-error rules sev_warn check text p = cc p

-- A diagnostic is the other one, or that one as an error.
abbrev Raised : Diag → Diag → Type 0
Raised x y = (x ≡ y) ⊎ (x ≡ record y { severity = sev_error })

settled_by_sound : (b : Bool) (l : RuleLevel) (y x : Diag) → In x (settled_by b l y) → Raised x y
unfolding settled_by apply_level
settled_by_sound true l y x (inl e) = inl e
settled_by_sound true l y x (inr i) = absurd i
settled_by_sound false error y x (inl e) = inr e
settled_by_sound false error y x (inr i) = absurd i
settled_by_sound false warn y x (inl e) = inl e
settled_by_sound false warn y x (inr i) = absurd i
settled_by_sound false off y x i = absurd i

apply_rule_sound :
    (rules : List (Str × RuleLevel)) (v : Severity) (check text : Str) (x : Diag)
    → In x (apply_rule rules (record { severity = v; check = check; text = text }))
    → Raised x (record { severity = v; check = check; text = text })
unfolding apply_rule settled_by
apply_rule_sound rules sev_error check text x (inl e) = inl e
apply_rule_sound rules sev_error check text x (inr i) = absurd i
apply_rule_sound rules sev_warn check text x h =
    settled_by_sound (is_empty check) (level_of rules check)
      (record { severity = sev_warn; check = check; text = text }) x h

in-apply_each :
    (rules : List (Str × RuleLevel)) (ds : List Diag) (x : Diag)
    → ((In x ds × (x.severity ≡ sev_error)) → In x (apply_each rules ds))
      × (In x (apply_each rules ds) → (y : Diag) × In y ds × Raised x y)
unfolding apply_each
in-apply_each rules [] x = (λ h. h.0, λ h. absurd h)
in-apply_each rules (d ∷ ds) x = (
  λ h. elim h.0 [
    | inl e ↦ (in-append x (apply_rule rules d) (apply_each rules ds)).1 (
        inl (
          subst (In x)
            (sym (
              apply_rule-error rules d.severity d.check d.text
                (ap (λ z. z.severity) (sym e) ∙ h.1)))
            (inl e)))
    | inr i ↦
        (in-append x (apply_rule rules d) (apply_each rules ds)).1
          (inr ((in-apply_each rules ds x).0 (i, h.1)))
  ],
  λ h. elim ((in-append x (apply_rule rules d) (apply_each rules ds)).0 h) [
    | inl i ↦ (d, inl refl, apply_rule_sound rules d.severity d.check d.text x i)
    | inr i ↦ let (y, m, r) = (in-apply_each rules ds x).1 i in (y, inr m, r)
  ],
)

-- No rule loses an error, and what the rules let through is a diagnostic that was given, as it was
-- or as an error.
pub apply_rules_sound :
    (rules : List (Str × RuleLevel)) (ds : List Diag) (x : Diag)
    → ((In x ds × (x.severity ≡ sev_error)) → In x (apply_rules rules ds))
      × (In x (apply_rules rules ds)
          → (y : Diag) × In y ds × ((x ≡ y) ⊎ (x ≡ record y { severity = sev_error })))
unfolding apply_rules
apply_rules_sound [] ds x = (λ h. h.0, λ h. (x, h, inl refl))
apply_rules_sound (r ∷ rules) ds x = in-apply_each (r ∷ rules) ds x
