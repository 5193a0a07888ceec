-- ===== src/Quote/Passage.antt =====
-- The passage that nearMiss of nearquote.go shows.
use kgraph.Base.{
  Str, ℕ, zero, suc, ◌+◌, ◌-◌, ◌≤◌, ◌<◌, ◌≡◌, refl, ap, ◌∙◌, ◌⊎◌, inl, inr, true, false, ◌||◌,
  if◌then◌else◌, Option, none, some, List, [], ◌∷◌, ◌++◌, arith, length, is_empty, take, ltb,
  str_eq, Bool-cases,
}
use kgraph.Quote.{
  Ratios, Best, skip_words, slice, offsets_from, rarest_words, word_ratio, try_window, try_offsets,
  try_places, try_anchors, passage_of, near_miss,
}

take-skip_words : (n : ℕ) (ws : List Str) → ws ≡ take n ws ++ skip_words n ws
unfolding skip_words
take-skip_words zero ws = refl
take-skip_words (suc n) [] = refl
take-skip_words (suc n) (w ∷ ws) = ap (λ l. w ∷ l) (take-skip_words n ws)

length-skip_words : (n : ℕ) (ws : List Str) → length (skip_words n ws) ≡ length ws - n
unfolding skip_words
length-skip_words zero ws = omega arith
length-skip_words (suc n) [] = omega arith
length-skip_words (suc n) (w ∷ ws) = omega (arith, length-skip_words n ws)

length-take : (n : ℕ) (ws : List Str) → n ≤ length ws → length (take n ws) ≡ n
length-take zero ws h = refl
length-take (suc n) [] h = absurd (omega arith)
length-take (suc n) (w ∷ ws) h = omega (arith, length-take n ws (omega arith))

-- The passage is a run of the words of the text.
abbrev pub IsRunOf : List Str → List Str → Type 0
IsRunOf p t = (front : List Str) × (back : List Str) × (t ≡ front ++ (p ++ back))

slice-IsRunOf : (t : List Str) (start end : ℕ) → IsRunOf (slice t start end) t
unfolding slice
slice-IsRunOf t start end = (
  take start t,
  skip_words (end - start) (skip_words start t),
  take-skip_words start t
      ∙ ap (λ l. take start t ++ l) (take-skip_words (end - start) (skip_words start t)),
)

length-slice :
    (t : List Str) (start n : ℕ) → start + n ≤ length t → length (slice t start (start + n)) ≡ n
unfolding slice
length-slice t start n h =
    length-take (start + n - start) (skip_words start t) (omega (arith, length-skip_words start t))
    ∙ omega arith

abbrev AllBelow : ℕ → List ℕ → Type 0
AllBelow b [] = Unit
AllBelow b (x ∷ xs) = (x < b) × AllBelow b xs

offsets_from-AllBelow :
    (i b : ℕ) (ws : List Str) (a : Str) → i + length ws ≤ b → AllBelow b (offsets_from i ws a)
unfolding offsets_from
offsets_from-AllBelow i b [] a h = tt
offsets_from-AllBelow i b (w ∷ ws) a h = elim (Bool-cases (str_eq w a)) [
  | inl e ↦ rw e (omega arith, offsets_from-AllBelow (i + 1) b ws a (omega arith))
  | inr e ↦ rw e (offsets_from-AllBelow (i + 1) b ws a (omega arith))
]

module _ (rs : Ratios) (q t : List Str) where
  -- The window lies in the text, is no longer than the quotation, and has the score.
  abbrev Fits : ℕ → Option (ℕ × ℕ) → Type 0
  Fits score none = Unit
  Fits score (some (start, n)) =
      (1 ≤ n)
      × (n ≤ length q)
      × (start + n ≤ length t)
      × (score ≡ word_ratio rs q (slice t start (start + n)))

  abbrev Fit : Best → Type 0
  Fit best = Fits best.score best.window

  Fits-window :
      (start end : ℕ)
      → start < end
      → end ≤ length t
      → end ≤ start + length q
      → Fits (word_ratio rs q (slice t start end)) (some (start, end - start))
  Fits-window start end h k l =
      (omega arith, omega arith, omega arith, ap (λ e. word_ratio rs q (slice t start e)) again)
    where
      again : end ≡ start + (end - start)
      again = omega arith

  try_window-Fit :
      (at off : ℕ) (best : Best)
      → at < length t
      → 1 ≤ length q
      → Fit best
      → Fit (try_window rs q t at off best)
  unfolding try_window
  try_window-Fit at off best h k f = elim (Bool-cases (ltb (length t) (at - off + length q))) [
    | inl e ↦
        rw e
          (kept (length t) (Fits-window (at - off) (length t) (omega arith) (omega arith) (less e)))
    | inr e ↦ rw e (
        kept (at - off + length q)
          (Fits-window (at - off) (at - off + length q) (omega arith) (more e) (omega arith)))
  ]
    where
      less : ltb (length t) (at - off + length q) ≡ true → length t ≤ at - off + length q
      less e = ground arith

      more : ltb (length t) (at - off + length q) ≡ false → at - off + length q ≤ length t
      more e = ground arith

      kept :
          (end : ℕ)
          → Fits (word_ratio rs q (slice t (at - off) end)) (some (at - off, end - (at - off)))
          → Fit (
              if rs.less best.score (word_ratio rs q (slice t (at - off) end))
              then record {
                score = word_ratio rs q (slice t (at - off) end);
                window = some (at - off, end - (at - off));
              }
              else best)
      kept end g =
          elim (Bool-cases (rs.less best.score (word_ratio rs q (slice t (at - off) end)))) [
            | inl e ↦ rw e g
            | inr e ↦ rw e f
          ]

  try_offsets-Fit :
      (at : ℕ) (offs : List ℕ) (best : Best)
      → at < length t
      → 1 ≤ length q
      → Fit best
      → Fit (try_offsets rs q t at offs best)
  unfolding try_offsets
  try_offsets-Fit at [] best h k f = f
  try_offsets-Fit at (off ∷ offs) best h k f =
      try_offsets-Fit at offs (try_window rs q t at off best) h k (try_window-Fit at off best h k f)

  try_places-Fit :
      (ats offs : List ℕ) (best : Best)
      → AllBelow (length t) ats
      → 1 ≤ length q
      → Fit best
      → Fit (try_places rs q t ats offs best)
  unfolding try_places
  try_places-Fit [] offs best h k f = f
  try_places-Fit (at ∷ ats) offs best h k f =
      try_places-Fit ats offs (try_offsets rs q t at offs best) h.1 k
        (try_offsets-Fit at offs best h.0 k f)

  try_anchors-Fit :
      (anchors : List Str) (best : Best)
      → 1 ≤ length q
      → Fit best
      → Fit (try_anchors rs q t anchors best)
  unfolding try_anchors
  try_anchors-Fit [] best k f = f
  try_anchors-Fit (a ∷ rest) best k f =
      try_anchors-Fit rest (try_places rs q t (offsets_from 0 t a) (offsets_from 0 q a) best) k (
        try_places-Fit (offsets_from 0 t a) (offsets_from 0 q a) best
          (offsets_from-AllBelow 0 (length t) t a (omega arith)) k f)

  -- A passage is shown, as long as it has to be and as near.
  abbrev pub Shows : List Str × ℕ → Type 0
  Shows (p, r) =
      (p ≡ [])
      ⊎ (IsRunOf p t
          × (1 ≤ length p)
          × (length p ≤ length q)
          × (r ≡ word_ratio rs q p)
          × (rs.less r rs.near ≡ false))

  passage_of-Shows :
      (score : ℕ) (window : Option (ℕ × ℕ))
      → Fits score window
      → Shows (passage_of rs t (record { score = score; window = window }))
  unfolding passage_of
  passage_of-Shows score none f = inl refl
  passage_of-Shows score (some (start, n)) f = elim (Bool-cases (rs.less score rs.near)) [
    | inl e ↦ rw e (inl refl)
    | inr e ↦
        let (a, b, c, d) = f in
        let m = length-slice t start n c in
        rw e (inr (slice-IsRunOf t start (start + n), omega (arith, m), omega (arith, m), d, e))
  ]

  -- nearMiss shows no passage, or a run of the words of the text which is not empty and no longer than
  -- the quotation, whose ratio is the one that it reports and not below the threshold.
  pub near_miss-Shows : Shows (near_miss rs q t)
  unfolding near_miss
  near_miss-Shows = elim (Bool-cases (ltb (length q) 4 || is_empty t)) [
    | inl e ↦ rw e (inl refl)
    | inr e ↦
        let best =
          try_anchors rs q t (rarest_words q 3) (record { score = rs.nought; window = none }) in
        rw e (
          passage_of-Shows best.score best.window (
            try_anchors-Fit (rarest_words q 3) (record { score = rs.nought; window = none })
              (enough e) tt))
  ]
    where
      enough : (ltb (length q) 4 || is_empty t) ≡ false → 1 ≤ length q
      enough e = ground arith
