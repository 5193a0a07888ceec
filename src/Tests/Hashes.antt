-- ===== src/Tests/Hashes.antt =====
-- Two claims with an edge, and their hashes.
use mathlib.Core.List.{Permᴰ}
use kgraph.Base.{
  Str, lit, ℕ, ◌≡◌, refl, false, List, [], ◌∷◌, any, any_iff, Bool-cases, inl, inr, ◌==◌,
}
use kgraph.Model.{Node, Edge, Alias, supports, causes}
use kgraph.Facts.{edge_at, bare_ref}
use kgraph.Facts.Entry.{new_node}
use kgraph.SemHash.{sem_hash, committed}
use kgraph.SemHash.Covers.{AllClean, ShowsValues, SameFacts, authored_texts, committed-SameFacts}
use kgraph.SemHash.Unordered.{sem_hash-unordered}

abbrev rain : Node
rain = record (new_node (lit "f") 1) {
  id = lit "c1";
  body = lit "It rained";
  aliases =
      record { name = lit "R"; starts = []; until = [] }
      ∷ record { name = lit "W"; starts = []; until = [] }
      ∷ [];
}

abbrev named_otherwise : List Alias
named_otherwise =
    record { name = lit "W"; starts = []; until = [] }
    ∷ record { name = lit "R"; starts = []; until = [] }
    ∷ []

abbrev first_edge : Edge
first_edge = edge_at (bare_ref []) (lit "c1") (lit "c2") supports (lit "f") 1

abbrev second_edge : Edge
second_edge = edge_at (bare_ref []) (lit "c1") (lit "c3") causes (lit "f") 2

abbrev in_full : Str → Str
in_full s = s

abbrev no_text : ℕ → Str
no_text n = []

sem_hash-unordered_example :
    sem_hash no_text in_full
      (record rain { aliases = named_otherwise })
      (second_edge ∷ first_edge ∷ [])
    ≡ sem_hash no_text in_full rain (first_edge ∷ second_edge ∷ [])
unfolding new_node
sem_hash-unordered_example =
    sem_hash-unordered no_text in_full rain named_otherwise [] (first_edge ∷ second_edge ∷ [])
      (second_edge ∷ first_edge ∷ []) ∣ Permᴰ.swap refl refl ∣₁ ∣ Permᴰ.nil ∣₁
      ∣ Permᴰ.swap refl refl ∣₁

AllClean-any : (ps : List Str) → any (λ p. any (λ c. c == 0) p) ps ≡ false → AllClean ps
unfolding any
AllClean-any [] h = tt
AllClean-any (p ∷ ps) h = elim (Bool-cases (any (λ c. c == 0) p)) [
  | inl e ↦ cc (rw (e, any) at h)
  | inr e ↦
      (λ z. cc (e, (any_iff (λ c. c == 0) p).1 (0, z, refl)), AllClean-any ps (rw (e, any) at h))
]

abbrev one : ℕ → Str
one n = lit "1"

one-ShowsValues : ShowsValues one
one-ShowsValues x = (refl, λ i. elim i [ inl e ↦ cc e | inr j ↦ absurd j ])

abbrev moved_rain : Node
moved_rain = record rain { line = 7; aliases = named_otherwise }

committed-SameFacts_example : SameFacts one rain moved_rain
unfolding any new_node committed kgraph.Base.sort_strings kgraph.Base.sort_by kgraph.Base.insert
    kgraph.Base.str_lt
committed-SameFacts_example =
    committed-SameFacts one rain moved_rain (first_edge ∷ []) (first_edge ∷ []) one-ShowsValues
      (AllClean-any (authored_texts rain) refl) (AllClean-any (authored_texts moved_rain) refl) refl
