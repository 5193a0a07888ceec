-- ===== src/Base/Lines.antt =====
-- The lines of a text, each of which a line break ends.
use mathlib.Core.Path.{◌≡◌, refl, ap, sym, ◌∙◌}
use mathlib.Core.Logic.{inl, inr}
use mathlib.Core.Bool.{false}
use mathlib.Core.List.{List, [], ◌∷◌, ◌++◌, append_assoc}
use kgraph.Base.Tests.{if◌then◌else◌, Bool-cases, ◌==◌}
use kgraph.Base.Text.{Str}

-- strings.Join
unfoldable pub join : Str → List Str → Str
join sep [] = []
join sep (x ∷ []) = x
join sep (x ∷ y ∷ xs) = x ++ (sep ++ join sep (y ∷ xs))

-- strings.Split(s, "\n")
unfoldable pub split_lines : Str → List Str
split_lines [] = [] ∷ []
split_lines (c ∷ s) = elim (split_lines s) [
  | [] ↦ (c ∷ []) ∷ []
  | line ∷ rest ↦ if c == 10 then [] ∷ line ∷ rest else (c ∷ line) ∷ rest
]

unfoldable pub end_lines : List Str → Str
end_lines [] = []
end_lines (l ∷ ls) = l ++ (10 ∷ end_lines ls)

-- The text stays on one line.
abbrev pub NoBreak : Str → Type 0
NoBreak [] = Unit
NoBreak (c ∷ s) = ((c == 10) ≡ false) × NoBreak s

pub NoBreak-append : (s t : Str) → NoBreak s → NoBreak t → NoBreak (s ++ t)
NoBreak-append [] t h k = k
NoBreak-append (c ∷ s) t h k = (h.0, NoBreak-append s t h.1 k)

split_lines-some : (s : Str) → (l : Str) × (ls : List Str) × (split_lines s ≡ l ∷ ls)
unfolding split_lines
split_lines-some [] = ([], [], refl)
split_lines-some (c ∷ s) =
    let (l, ls, e) = split_lines-some s in
    elim (Bool-cases (c == 10)) [
      | inl b ↦ ([], l ∷ ls, rw (e, split_lines) (rw b))
      | inr b ↦ (c ∷ l, ls, rw (e, split_lines) (rw b))
    ]

split_lines-line : (l s : Str) → NoBreak l → split_lines (l ++ (10 ∷ s)) ≡ l ∷ split_lines s
unfolding split_lines
split_lines-line [] s h = let (l, ls, e) = split_lines-some s in rw (e, split_lines)
split_lines-line (c ∷ l) s h = rw (split_lines-line l s h.1, split_lines) (rw h.0)

abbrev pub NoBreaks : List Str → Type 0
NoBreaks [] = Unit
NoBreaks (l ∷ ls) = NoBreak l × NoBreaks ls

-- A file of ended lines is split into them, and an empty one.
pub split_lines-end_lines :
    (ls : List Str) → NoBreaks ls → split_lines (end_lines ls) ≡ ls ++ ([] ∷ [])
unfolding end_lines split_lines
split_lines-end_lines [] h = refl
split_lines-end_lines (l ∷ ls) h =
    split_lines-line l (end_lines ls) h.0 ∙ ap (λ r. l ∷ r) (split_lines-end_lines ls h.1)

-- A line more at the end of a file.
pub end_lines-snoc :
    (ls : List Str) (l : Str) → end_lines (ls ++ (l ∷ [])) ≡ end_lines ls ++ (l ++ (10 ∷ []))
unfolding end_lines
end_lines-snoc [] l = refl
end_lines-snoc (k ∷ ls) l =
    ap (λ r. k ++ (10 ∷ r)) (end_lines-snoc ls l)
    ∙ sym (append_assoc k (10 ∷ end_lines ls) (l ++ (10 ∷ [])))

pub NoBreaks-append : (xs ys : List Str) → NoBreaks xs → NoBreaks ys → NoBreaks (xs ++ ys)
NoBreaks-append [] ys h k = k
NoBreaks-append (x ∷ xs) ys h k = (h.0, NoBreaks-append xs ys h.1 k)
