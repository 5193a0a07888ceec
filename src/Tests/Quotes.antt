-- ===== src/Tests/Quotes.antt =====
-- A quotation of four words, and a text that differs from it in one.
use kgraph.Base.{Str, lit, ℕ, ◌+◌, ◌*◌, ◌/◌, ◌≤◌, List, [], ◌∷◌, length, ltb}
use kgraph.Quote.{Ratios, shared_words, near_miss}
use kgraph.Quote.Longest.{Common, shared_words-most}
use kgraph.Quote.Passage.{Shows, near_miss-Shows}

-- Ratios in hundredths.
abbrev hundredths : Ratios
hundredths = record { ratio = λ a b. 200 * a / b; less = ltb; nought = 0; near = 75 }

abbrev quoted_words : List Str
quoted_words = lit "malice" ∷ lit "was" ∷ lit "imputed" ∷ lit "here" ∷ []

abbrev read_words : List Str
read_words = lit "that" ∷ lit "malice" ∷ lit "is" ∷ lit "imputed" ∷ lit "here" ∷ lit "too" ∷ []

shared_words-most_example :
    Common (shared_words quoted_words read_words) quoted_words read_words
    × ((n : ℕ) → Common n quoted_words read_words → n ≤ shared_words quoted_words read_words)
    × (2 * shared_words quoted_words read_words ≤ length quoted_words + length read_words)
shared_words-most_example = shared_words-most quoted_words read_words

near_miss-Shows_example :
    Shows hundredths quoted_words read_words (near_miss hundredths quoted_words read_words)
near_miss-Shows_example = near_miss-Shows hundredths quoted_words read_words
