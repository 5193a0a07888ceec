-- ===== src/Quote.antt =====
-- nearquote.go: the passage of a document that a quotation nearly matches. Words are as quoteWords
-- leaves them; `ratio` of two numbers is the float64 quotient of twice the first and the second.
pub mod Table
pub mod Longest
pub mod Passage
use kgraph.Base.{
  Str, ℕ, zero, suc, ◌+◌, ◌-◌, Bool, true, false, not, ◌&&◌, ◌||◌, if◌then◌else◌, Option, none,
  some, List, [], ◌∷◌, ◌++◌, length, str_eq, is_empty, has, keep, sort_by, take, ltb, leb,
}

-- The float64 values that a ratio is compared as: `nought` is 0, `near` is nearThreshold.
pub record Ratios : Type 0 where
  pub ratio : ℕ → ℕ → ℕ
  pub less : ℕ → ℕ → Bool
  pub nought : ℕ
  pub near : ℕ

-- The body of the loops of wordRatio: cur[j] from prev[j], cur[j-1] and prev[j-1].
unfoldable pub shared_cell : Bool → ℕ → ℕ → ℕ → ℕ
shared_cell same up left diagonal = if same then diagonal + 1 else if leb left up then up else left

-- The loop over j: the rest of the row after `left`, from the row above.
unfoldable pub shared_row : Str → List Str → List ℕ → ℕ → List ℕ
unfolding shared_cell
shared_row x (y ∷ ys) (diagonal ∷ up ∷ prev) left =
    shared_cell (str_eq x y) up left diagonal
    ∷ shared_row x ys (up ∷ prev) (shared_cell (str_eq x y) up left diagonal)
shared_row x ys prev left = []

-- The loop over i, from the row before it.
unfoldable pub shared_rows : List Str → List Str → List ℕ → List ℕ
unfolding shared_row
shared_rows [] b prev = prev
shared_rows (x ∷ xs) b prev = shared_rows xs b (0 ∷ shared_row x b prev 0)

-- A row of zeros, one more than there are words.
unfoldable pub zeros : List Str → List ℕ
zeros [] = 0 ∷ []
zeros (y ∷ ys) = 0 ∷ zeros ys

unfoldable pub last_cell : List ℕ → ℕ
last_cell [] = 0
last_cell (n ∷ []) = n
last_cell (n ∷ m ∷ ns) = last_cell (m ∷ ns)

-- prev[len(b)] after the loops.
unfoldable pub shared_words : List Str → List Str → ℕ
unfolding shared_rows zeros last_cell
shared_words a b = last_cell (shared_rows a b (zeros b))

-- rarestWords: the longest of the words of six letters or more, each once.
unfoldable pub long_words : List Str → List Str → List Str
long_words seen [] = []
long_words seen (w ∷ ws) =
    let kept = long_words (w ∷ seen) ws in
    let passed = long_words seen ws in
    if leb 6 (length w) && not (has seen w) then w ∷ kept else passed

unfoldable pub rarest_words : List Str → ℕ → List Str
unfolding long_words
rarest_words ws n = take n (sort_by (λ v w. ltb (length w) (length v)) (long_words [] ws))

-- anchorOffsets, with the index of the first word.
unfoldable pub offsets_from : ℕ → List Str → Str → List ℕ
offsets_from i [] a = []
offsets_from i (w ∷ ws) a =
    let rest = offsets_from (i + 1) ws a in if str_eq w a then i ∷ rest else rest

unfoldable pub skip_words : ℕ → List Str → List Str
skip_words zero ws = ws
skip_words (suc n) [] = []
skip_words (suc n) (w ∷ ws) = skip_words n ws

-- ws[start:end]
unfoldable pub slice : List Str → ℕ → ℕ → List Str
unfolding skip_words
slice ws start end = take (end - start) (skip_words start ws)

-- The best window so far: its ratio, and where it stands once there is one.
pub record Best : Type 0 where
  pub score : ℕ
  pub window : Option (ℕ × ℕ)

module _ (rs : Ratios) where
  -- wordRatio
  unfoldable pub word_ratio : List Str → List Str → ℕ
  unfolding shared_words
  word_ratio a b =
      if is_empty a || is_empty b
      then rs.nought
      else rs.ratio (shared_words a b) (length a + length b)

  -- The body of the inner loop of nearMiss.
  unfoldable pub try_window : List Str → List Str → ℕ → ℕ → Best → Best
  unfolding word_ratio slice
  try_window q t at off best =
      let start = at - off in
      let end = if ltb (length t) (start + length q) then length t else start + length q in
      let r = word_ratio q (slice t start end) in
      if rs.less best.score r
      then record { score = r; window = some (start, end - start) }
      else best

  unfoldable pub try_offsets : List Str → List Str → ℕ → List ℕ → Best → Best
  unfolding try_window
  try_offsets q t at [] best = best
  try_offsets q t at (off ∷ offs) best = try_offsets q t at offs (try_window q t at off best)

  unfoldable pub try_places : List Str → List Str → List ℕ → List ℕ → Best → Best
  unfolding try_offsets
  try_places q t [] offs best = best
  try_places q t (at ∷ ats) offs best = try_places q t ats offs (try_offsets q t at offs best)

  unfoldable pub try_anchors : List Str → List Str → List Str → Best → Best
  unfolding try_places offsets_from
  try_anchors q t [] best = best
  try_anchors q t (a ∷ rest) best =
      try_anchors q t rest (try_places q t (offsets_from 0 t a) (offsets_from 0 q a) best)

  -- The words of the passage, where the best is near enough.
  unfoldable pub passage_of : List Str → Best → List Str × ℕ
  unfolding slice
  passage_of t best = elim best.window [
    | none ↦ ([], best.score)
    | some (start, n) ↦
        if rs.less best.score rs.near
        then ([], best.score)
        else (slice t start (start + n), best.score)
  ]

  -- nearMiss, on the words of the quotation and of the text.
  unfoldable pub near_miss : List Str → List Str → List Str × ℕ
  unfolding try_anchors rarest_words passage_of
  near_miss q t =
      if ltb (length q) 4 || is_empty t
      then ([], rs.nought)
      else passage_of t
          (try_anchors q t (rarest_words q 3) (record { score = rs.nought; window = none }))
