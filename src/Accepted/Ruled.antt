-- ===== src/Accepted/Ruled.antt =====
-- Partition of accepted.go: which findings a ruling takes out of sight.
use kgraph.Base.{
  Str, ◌≡◌, ◌≢◌, refl, sym, ◌∙◌, ◌↔◌, inl, inr, true, false, some, List, [], ◌∷◌, arith, In,
  is_empty, find_key, Bool-cases, Option-cases,
}
use kgraph.Dialect.Rules.{Severity, sev_error, sev_warn}
use kgraph.Accepted.{Finding, Accepted, AcceptedSet, is_honoured, is_accepted, partition}

-- A warning with a key, whose ruling on record a person signed.
abbrev pub Ruled : AcceptedSet → Finding → Type 0
Ruled set d =
    (d.diag.severity ≡ sev_warn)
    × (d.key ≢ [])
    × (a : Accepted) × (find_key set d.key ≡ some a)
    × (is_honoured a ≡ true)

not_empty : (s : Str) → is_empty s ≡ false → s ≢ []
not_empty s h e = cc (h, e)

some_inj : {a b : Accepted} → some a ≡ some b → a ≡ b
some_inj e = cc e

is_accepted-fields :
    (set : AcceptedSet) (v : Severity) (c t k : Str)
    → (is_accepted set (record { diag = record { severity = v; check = c; text = t }; key = k })
        ≡ true)
      ↔ Ruled set (record { diag = record { severity = v; check = c; text = t }; key = k })
unfolding is_accepted
is_accepted-fields set sev_error c t k = (λ h. cc h, λ r. cc r.0)
is_accepted-fields set sev_warn c t [] = (λ h. cc h, λ r. absurd (r.1 refl))
is_accepted-fields set sev_warn c t (x ∷ k) = elim (Option-cases (find_key set (x ∷ k))) [
  | inl e ↦ (λ h. cc (rw e at h), λ r. let (u, v, b, w, h) = r in cc (e, w))
  | inr (a, e) ↦ (
    λ h. (refl, λ n. cc n, a, e, rw e at h),
    λ r. let (u, v, b, w, h) = r in rw e (rw (some_inj (sym e ∙ w)) h),
  )
]

is_accepted_iff : (set : AcceptedSet) (d : Finding) → (is_accepted set d ≡ true) ↔ Ruled set d
is_accepted_iff set d = is_accepted-fields set d.diag.severity d.diag.check d.diag.text d.key

in-partition :
    (set : AcceptedSet) (ds : List Finding) (d : Finding)
    → (In d (partition set ds).1 ↔ (In d ds × (is_accepted set d ≡ true)))
      × (In d (partition set ds).0 ↔ (In d ds × (is_accepted set d ≡ false)))
unfolding partition
in-partition set [] d = ((λ i. absurd i, λ w. w.0), (λ i. absurd i, λ w. w.0))
in-partition set (x ∷ ds) d =
    let (p, q) = in-partition set ds d in
    elim (Bool-cases (is_accepted set x)) [
      | inl e ↦ rw e (ground (arith, p, q))
      | inr e ↦ rw e (ground (arith, p, q))
    ]

-- Partition loses nothing and takes out of sight exactly the warnings with a key whose ruling on
-- record is signed by a person: an error, a finding without a key, and a ruling that is unsigned or a
-- machine's leave the finding open.
pub partition_exact :
    (set : AcceptedSet) (ds : List Finding) (d : Finding)
    → (In d (partition set ds).1 ↔ (In d ds × Ruled set d))
      × (In d (partition set ds).0 ↔ (In d ds × (¬ Ruled set d)))
partition_exact set ds d = ground (arith, in-partition set ds d, is_accepted_iff set d)
