-- ===== src/Attest/Appended.antt =====
-- A verdict that AppendAttestation of attest.go has written, read back.
use kgraph.Base.{
  Str, lit, ◌≡◌, refl, sym, ap, ◌∙◌, inl, inr, Bool, true, false, not, ◌&&◌, ◌||◌, if◌then◌else◌,
  Option, none, some, List, [], ◌∷◌, ◌++◌, append_assoc, arith, str_eq, is_empty, has_prefix,
  trim_space, is_space, Bool-cases, Option-cases, put_key, find_key-put_key, split_lines, end_lines,
  NoBreak, NoBreaks, NoBreaks-append, split_lines-end_lines, end_lines-snoc,
}
use kgraph.Sources.Words.{trim_space-front, trim_end-front}
use kgraph.Attest.{
  Attestation, AttestSet, canonical, is_valid, is_signed, key, of, subtracts, supports, or_empty,
  read_record, read_attested, read_all, read_attestations, refuses, append_canonical,
  append_attestation,
}

canonical-canonical : (v : Str) → canonical (canonical v) ≡ canonical v
unfolding canonical str_eq
canonical-canonical v = elim (Bool-cases (str_eq v (lit "attested"))) [
  | inl e ↦ rw (e, canonical)
  | inr e ↦ elim (Bool-cases (str_eq v (lit "illegible"))) [
    | inl f ↦ rw (e, f, canonical)
    | inr f ↦ rw (e, f, canonical) (rw (e, f))
  ]
]

is_valid-canonical : (v : Str) → is_valid (canonical v) ≡ is_valid v
unfolding is_valid
is_valid-canonical v = rw (canonical-canonical v)

unsupported_signed :
    (x y signed u : Bool) → (x || y || (u && not signed)) ≡ false → (u && signed) ≡ u
unsupported_signed x y signed u h = ground arith

-- The text of an object, on one line, that is read as what it was written from.
pub record IsWritten (decode : Str → Option Attestation) (a : Attestation) (line : Str)
    : Type 0 where
  pub more : Str
  pub object : line ≡ 123 ∷ more
  pub one_line : NoBreak line
  pub back : decode line ≡ some a

-- The attestation with the word of today.
abbrev pub today : Attestation → Attestation
today a = record a { verdict = canonical a.verdict }

module _ (encode : Attestation → Option Str) (decode : Str → Option Attestation) where
  read_all-append :
      (xs ys : List Str) (s t : AttestSet)
      → read_all encode decode xs s ≡ some t
      → read_all encode decode (xs ++ ys) s ≡ read_all encode decode ys t
  unfolding read_all
  read_all-append [] ys s t e =
      ap (λ r. elim r [ none ↦ none | some u ↦ read_all encode decode ys u ]) e
  read_all-append (x ∷ xs) ys s t e = elim (Option-cases (read_attested encode decode x s)) [
    | inl n ↦ cc (rw (n, read_all) at e)
    | inr (u, n) ↦ rw (n, read_all) (read_all-append xs ys u t (rw (n, read_all) at e))
  ]

  read_attested-blank : (s : AttestSet) → read_attested encode decode [] s ≡ some s
  unfolding read_attested trim_space
  read_attested-blank s = refl

  read_all-blank :
      (xs : List Str) (s t : AttestSet)
      → read_all encode decode (xs ++ ([] ∷ [])) s ≡ some t
      → read_all encode decode xs s ≡ some t
  unfolding read_all trim_space
  read_all-blank [] s t e = rw (read_attested-blank s) at e
  read_all-blank (x ∷ xs) s t e = elim (Option-cases (read_attested encode decode x s)) [
    | inl n ↦ cc (rw (n, read_all) at e)
    | inr (u, n) ↦ rw (n, read_all) (read_all-blank xs u t (rw (n, read_all) at e))
  ]

  read_all-contents :
      (file : Option Str)
      → read_all encode decode (split_lines (or_empty file)) []
        ≡ read_attestations encode decode file
  unfolding read_attestations or_empty split_lines read_all trim_space
  read_all-contents none = rw (read_attested-blank [])
  read_all-contents (some b) = refl

  -- What a successful append shows of the attestation, and the file that it leaves.
  appended :
      (file : Option Str) (a : Attestation) (after : Str)
      → append_attestation encode decode file a ≡ some after
      → (line : Str) × (is_valid a.verdict ≡ true)
        × (refuses encode decode (today a) ≡ false)
        × (encode (today a) ≡ some line)
        × (after ≡ or_empty file ++ (line ++ (10 ∷ [])))
  unfolding append_attestation append_canonical
  appended file a after e = elim (Bool-cases (is_valid a.verdict)) [
    | inr v ↦ cc (rw v at e)
    | inl v ↦ elim (Bool-cases (refuses encode decode (today a))) [
      | inl r ↦ cc (rw (v, r) at e)
      | inr r ↦ elim (Option-cases (encode (today a))) [
        | inl w ↦ cc (rw (v, r, w) at e)
        | inr (line, w) ↦ (line, v, r, w, cc (rw (v, r, w) at e))
      ]
    ]
  ]

  -- The line is neither blank nor a comment.
  read_attested-object :
      (line more : Str) (s : AttestSet)
      → line ≡ 123 ∷ more
      → read_attested encode decode line s ≡ read_record encode decode line s
  unfolding read_attested has_prefix is_space
  read_attested-object line more s e =
      rw (ap trim_space e ∙ trim_space-front 123 more solid ∙ trim_end-front 123 more solid)
    where
      solid : is_space 123 ≡ false
      solid = refl

  -- The entry that the line of a verdict leaves in the set.
  put_today : Attestation → AttestSet → AttestSet
  put_today a s = put_key (key a.fact a.source) (today (today a)) s

  read_record-written :
      (a : Attestation) (line : Str) (s : AttestSet)
      → decode line ≡ some (today a)
      → is_valid a.verdict ≡ true
      → read_record encode decode line s ≡ some (put_today a s)
  unfolding read_record put_today
  read_record-written a line s e v = rw (e, is_valid-canonical a.verdict ∙ v, read_record)

  read-after :
      (file : Option Str) (ls : List Str) (a : Attestation) (line : Str) (s : AttestSet)
      → or_empty file ≡ end_lines ls
      → NoBreaks ls
      → IsWritten decode (today a) line
      → is_valid a.verdict ≡ true
      → read_attestations encode decode file ≡ some s
      → read_attestations encode decode (some (or_empty file ++ (line ++ (10 ∷ []))))
        ≡ some (put_today a s)
  unfolding read_attestations read_all
  read-after file ls a line s f n w v e =
      ap (λ b. read_all encode decode (split_lines (b ++ (line ++ (10 ∷ [])))) []) f
      ∙ ap (λ b. read_all encode decode (split_lines b) []) (sym (end_lines-snoc ls line))
      ∙ ap (λ l. read_all encode decode l [])
          (split_lines-end_lines (ls ++ (line ∷ []))
              (NoBreaks-append ls (line ∷ []) n (w.one_line, tt))
            ∙ append_assoc ls (line ∷ []) ([] ∷ []))
      ∙ read_all-append ls (line ∷ [] ∷ []) [] s before
      ∙ last
    where
      before : read_all encode decode ls [] ≡ some s
      before = read_all-blank ls [] s (
          ap (λ l. read_all encode decode l []) (sym (split_lines-end_lines ls n))
          ∙ ap (λ b. read_all encode decode (split_lines b) []) (sym f)
          ∙ read_all-contents file
          ∙ e)

      last : read_all encode decode (line ∷ [] ∷ []) s ≡ some (put_today a s)
      last = rw (
        read_attested-object line w.more s w.object ∙ read_record-written a line s w.back v,
        read_attested-blank (put_today a s),
        read_all,
      )

  -- What the written verdict takes away.
  subtracts-today :
      (a : Attestation)
      → refuses encode decode (today a) ≡ false
      → subtracts (today (today a)) ≡ str_eq (canonical a.verdict) (lit "unsupported")
  unfolding subtracts refuses
  subtracts-today a r =
      rw (canonical-canonical (canonical a.verdict), canonical-canonical a.verdict)
        (unsupported_signed (is_empty a.fact) (is_empty a.source) (is_signed a.by)
          (str_eq (canonical a.verdict) (lit "unsupported"))
          (rw (canonical-canonical a.verdict) at r))

  -- After AppendAttestation has written a verdict to a file whose lines are all ended,
  -- ReadAttestations reads the file, and for the pair of the verdict the support of the fact is gone
  -- exactly where the verdict is `unsupported`, and for every pair with another key it is as before;
  -- the line that is written is assumed to be an object on one line that decodes to the verdict.
  pub append_attestation-supports :
      (file : Option Str) (ls : List Str) (a : Attestation) (s : AttestSet) (after : Str)
      → or_empty file ≡ end_lines ls
      → NoBreaks ls
      → ((line : Str) → encode (today a) ≡ some line → IsWritten decode (today a) line)
      → read_attestations encode decode file ≡ some s
      → append_attestation encode decode file a ≡ some after
      → (t : AttestSet) × (read_attestations encode decode (some after) ≡ some t)
        × ((fact source : Str)
            → supports t fact source ≡ (
                if str_eq (key a.fact a.source) (key fact source)
                then not (str_eq (canonical a.verdict) (lit "unsupported"))
                else supports s fact source))
  unfolding supports of put_today
  append_attestation-supports file ls a s after f n laws e w =
      let (line, valid, accepted, encoded, left) = appended file a after w in
      (
        put_today a s,
        ap (λ b. read_attestations encode decode (some b)) left
            ∙ read-after file ls a line s f n (laws line encoded) valid e,
        λ fact source. held accepted fact source,
      )
    where
      held :
          refuses encode decode (today a) ≡ false
          → (fact source : Str)
          → supports (put_today a s) fact source ≡ (
              if str_eq (key a.fact a.source) (key fact source)
              then not (str_eq (canonical a.verdict) (lit "unsupported"))
              else supports s fact source)
      held r fact source = elim (Bool-cases (str_eq (key a.fact a.source) (key fact source))) [
        | inl k ↦ rw (
          find_key-put_key (key a.fact a.source) (today (today a)) s (key fact source),
          k,
          subtracts-today a r,
          supports,
          of,
        )
        | inr k ↦ rw (
          find_key-put_key (key a.fact a.source) (today (today a)) s (key fact source),
          k,
          supports,
          of,
        )
      ]
