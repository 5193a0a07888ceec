-- ===== src/SemHash/Unordered.antt =====
-- SemHash of node.go, and the order of the edges, the aliases and the premises of a source.
use mathlib.Core.List.{Perm, Permᴰ}
use mathlib.Core.Logic.{∥∥₁_elim}
use kgraph.Base.{
  Str, ℕ, ◌≡◌, refl, sym, ap, Option, none, some, List, [], ◌∷◌, map, sort_strings,
  sort_strings-Permᴰ,
}
use kgraph.Model.{Alias, Source, Node, Edge}
use kgraph.SemHash.{
  shown_flag, alias_text, edge_text, source_texts, field_texts, list_texts, committed, sem_hash,
}

map-Permᴰ : {A : Type 0} (f : A → Str) {xs ys : List A} → Permᴰ xs ys → Permᴰ (map f xs) (map f ys)
map-Permᴰ f Permᴰ.nil = Permᴰ.nil
map-Permᴰ f (Permᴰ.cons e p) = Permᴰ.cons (ap f e) (map-Permᴰ f p)
map-Permᴰ f (Permᴰ.swap e k) = Permᴰ.swap (ap f e) (ap f k)
map-Permᴰ f (Permᴰ.trans p q) = Permᴰ.trans (map-Permᴰ f p) (map-Permᴰ f q)

-- The sorted texts of a list, which is taken without its order.
sort_strings-Perm :
    {A : Type 0} (f : A → Str) (xs ys : List A)
    → Perm xs ys
    → sort_strings (map f xs) ≡ sort_strings (map f ys)
sort_strings-Perm f xs ys h = ∥∥₁_elim h (hlevel) (λ p. sort_strings-Permᴰ (map-Permᴰ f p))

-- A source with its premises in another order.
abbrev pub with_premises : Option Source → List Str → Option Source
with_premises none ps = none
with_premises (some s) ps = some (record s { premises = ps })

abbrev pub premises_of : Option Source → List Str
premises_of none = []
premises_of (some s) = s.premises

source_texts-unordered :
    (o : Option Source) (ps : List Str)
    → Perm (premises_of o) ps
    → source_texts (with_premises o ps) ≡ source_texts o
unfolding source_texts
source_texts-unordered none ps h = refl
source_texts-unordered (some s) ps h =
    ap
      (λ l.
        s.form ∷ s.class ∷ s.speaker ∷ s.medium ∷ s.doc_path ∷ s.anchor ∷ shown_flag s.recorded ∷ l)
      (∥∥₁_elim h (hlevel) (λ p. sym (sort_strings-Permᴰ p)))

-- The hash of a node is that of the node with its aliases and the premises of its source in another
-- order, and with its edges in another order.
pub sem_hash-unordered :
    (shown : ℕ → Str) (digest : Str → Str) (n : Node) (others : List Alias) (ps : List Str)
    (es fs : List Edge)
    → Perm n.aliases others
    → Perm (premises_of n.provenance) ps
    → Perm es fs
    → sem_hash shown digest
        (record n { aliases = others; provenance = with_premises n.provenance ps })
        fs
      ≡ sem_hash shown digest n es
unfolding sem_hash committed list_texts field_texts
sem_hash-unordered shown digest n others ps es fs a p e = rw (
  sym (sort_strings-Perm alias_text n.aliases others a),
  source_texts-unordered n.provenance ps p,
  sym (sort_strings-Perm edge_text es fs e),
)
