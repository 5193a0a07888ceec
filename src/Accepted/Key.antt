-- ===== src/Accepted/Key.antt =====
-- The keys of findings in accepted.go, and what Partition does with them.
use kgraph.Base.{
  Str, ◌≡◌, refl, ap, inl, inr, some, List, [], ◌∷◌, ◌++◌, arith, In, length, sort_strings,
  in-sort_strings,
}
use kgraph.Accepted.{subject_text, finding_key}

append-cancel : (xs ys zs : Str) → xs ++ ys ≡ xs ++ zs → ys ≡ zs
append-cancel [] ys zs e = e
append-cancel (x ∷ xs) ys zs e = append-cancel xs ys zs (tails e)
  where
    rest : Str → Str
    rest [] = []
    rest (c ∷ s) = s

    tails : {a b : Str} → (x ∷ a) ≡ (x ∷ b) → a ≡ b
    tails e = ap rest e

-- Two texts of one length that begin the same text are equal, and so is what follows them.
append-split :
    (xs ys us vs : Str) → length xs ≡ length ys → xs ++ us ≡ ys ++ vs → (xs ≡ ys) × (us ≡ vs)
append-split [] [] us vs n e = (refl, e)
append-split [] (y ∷ ys) us vs n e = absurd (omega arith)
append-split (x ∷ xs) [] us vs n e = absurd (omega arith)
append-split (x ∷ xs) (y ∷ ys) us vs n e =
    let (p, q) = append-split xs ys us vs (omega arith) (cc e) in (cc (e, p), q)

subject_text-same :
    (before after : Str → Str) (ids : List Str)
    → ((id : Str) → length (before id) ≡ length (after id))
    → subject_text (some before) ids ≡ subject_text (some after) ids
    → (id : Str) → In id ids
    → before id ≡ after id
unfolding subject_text
subject_text-same before after [] n e id i = absurd i
subject_text-same before after (k ∷ ids) n e id i =
    let (p, q) =
      append-split (before k) (after k) (subject_text (some before) ids)
        (subject_text (some after) ids) (n k)
        (append-cancel (64 ∷ []) _ _ (append-cancel k _ _ (append-cancel (0 ∷ []) _ _ e))) in
    elim i [ inl s ↦ rw s p | inr j ↦ subject_text-same before after ids n q id j ]

-- Where SHA-256 has no collision on the two texts and all hashes are of one length: if a finding of a
-- check with the same subjects has the same key over two graphs, every subject has the same hash in
-- both, so an edit of one of them gives the finding a new key.
pub finding_key-edited :
    (hash before after : Str → Str) (check : Str) (subjects : List Str)
    → (hash (check ++ subject_text (some before) (sort_strings subjects))
          ≡ hash (check ++ subject_text (some after) (sort_strings subjects))
        → check ++ subject_text (some before) (sort_strings subjects)
          ≡ check ++ subject_text (some after) (sort_strings subjects))
    → ((id : Str) → length (before id) ≡ length (after id))
    → finding_key hash (some before) check subjects ≡ finding_key hash (some after) check subjects
    → (id : Str) → In id subjects
    → before id ≡ after id
unfolding finding_key
finding_key-edited hash before after check subjects h n e id i =
    subject_text-same before after (sort_strings subjects) n (append-cancel check _ _ (h e)) id
      ((in-sort_strings id subjects).1 i)
