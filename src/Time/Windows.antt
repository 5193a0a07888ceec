-- ===== src/Time/Windows.antt =====
-- Windows of aliases and of claims, on dates that are text.
use kgraph.Base.{
  Str, ◌≡◌, true, false, arith, Bool-cases, inl, inr, ◌↔◌, is_empty, str_lt, str_lt_irrefl,
  str_lt_trans, str_lt_asymm, str_lt_total,
}
use kgraph.Model.{Alias}
use kgraph.Time.{Floats, holds, overlaps}
use kgraph.Time.Order.{IsText, before_iff, after_iff}

module _ (fl : Floats) where
  -- Two aliases collide whichever comes first.
  pub overlaps_comm : (a b : Alias) → overlaps fl a b ≡ overlaps fl b a
  unfolding overlaps
  overlaps_comm a b = ground arith

  -- Both ends of the window are dates that ParseFloat refuses, and the end comes after the start.
  pub record IsWindow (a : Alias) : Type 0 where
    pub starts_text : IsText fl a.starts
    pub until_text : IsText fl a.until
    pub starts_given : is_empty a.starts ≡ false
    pub until_given : is_empty a.until ≡ false
    pub proper : str_lt a.starts a.until ≡ true

  holds_iff :
      (a : Alias) (at : Str)
      → IsWindow a
      → IsText fl at
      → is_empty at ≡ false
      → (holds fl a at ≡ true) ↔ ((str_lt at a.starts ≡ false) × (str_lt at a.until ≡ true))
  unfolding holds
  holds_iff a at w t e = ground (arith, before_iff fl at a.starts t, before_iff fl at a.until t)

  overlaps_iff :
      (a b : Alias)
      → IsWindow a
      → IsWindow b
      → (overlaps fl a b ≡ true)
        ↔ ((str_lt b.starts a.until ≡ true) × (str_lt a.starts b.until ≡ true))
  unfolding overlaps
  overlaps_iff a b wa wb = ground (
    arith,
    after_iff fl a.until b.starts wa.until_text,
    after_iff fl b.until a.starts wb.until_text,
  )

  lt_of_le_lt : (s t u : Str) → str_lt t s ≡ false → str_lt t u ≡ true → str_lt s u ≡ true
  lt_of_le_lt s t u h k = elim (Bool-cases (str_lt s t)) [
    | inl l ↦ str_lt_trans s t u l k
    | inr n ↦ rw (str_lt_total s t n h) k
  ]

  -- Two names whose windows are bounded by textual dates in order collide exactly when some textual
  -- date has both in force.
  pub overlaps_exact :
      (a b : Alias)
      → IsWindow a
      → IsWindow b
      → (overlaps fl a b ≡ true) ↔ (
          (at : Str) × IsText fl at
          × (is_empty at ≡ false)
          × (holds fl a at ≡ true)
          × (holds fl b at ≡ true))
  overlaps_exact a b wa wb = (
    λ o.
        let (ba, ab) = (overlaps_iff a b wa wb).0 o in
        elim (Bool-cases (str_lt a.starts b.starts)) [
          | inl l ↦ (
            b.starts,
            wb.starts_text,
            wb.starts_given,
            (holds_iff a b.starts wa wb.starts_text wb.starts_given).1
                (str_lt_asymm a.starts b.starts l, ba),
            (holds_iff b b.starts wb wb.starts_text wb.starts_given).1
                (str_lt_irrefl b.starts, wb.proper),
          )
          | inr n ↦ (
            a.starts,
            wa.starts_text,
            wa.starts_given,
            (holds_iff a a.starts wa wa.starts_text wa.starts_given).1
                (str_lt_irrefl a.starts, wa.proper),
            (holds_iff b a.starts wb wa.starts_text wa.starts_given).1 (n, ab),
          )
        ],
    λ h.
        let (at, t, e, ha, hb) = h in
        let (sa, ua) = (holds_iff a at wa t e).0 ha in
        let (sb, ub) = (holds_iff b at wb t e).0 hb in
        (overlaps_iff a b wa wb).1
          (lt_of_le_lt b.starts at a.until sb ua, lt_of_le_lt a.starts at b.until sa ub),
  )
