-- ===== src/Attest.antt =====
-- attest.go: what a reader found when a fact was held against its source, one line of a file for each
-- verdict. `encode` and `decode` are json.Marshal and json.Unmarshal; no file is `none`. A number of
-- a region is a float64, as in Time.
pub mod Appended
use kgraph.Base.{
  Str, lit, ℕ, Bool, true, false, not, ◌&&◌, ◌||◌, if◌then◌else◌, Option, none, some, List, [], ◌∷◌,
  ◌++◌, keep, any, is_empty, str_eq, str_lt, has, has_prefix, trim_space, sort_by, find_key,
  put_key, split_lines,
}
use kgraph.Values.{Signed}

pub record Region : Type 0 where
  pub page : Signed
  pub x : ℕ
  pub y : ℕ
  pub w : ℕ
  pub h : ℕ

pub record Attestation : Type 0 where
  pub fact : Str
  pub source : Str
  pub verdict : Str
  pub region : Region
  pub note : Str
  pub by : Str
  pub at : Str
  pub excerpt : Str
  pub excerpt_hash : Str

-- canonical: the two old words are written as the new ones.
unfoldable pub canonical : Str → Str
canonical v =
    if str_eq v (lit "attested")
    then lit "confirmed"
    else if str_eq v (lit "illegible")
    then lit "unclear"
    else v

unfoldable pub is_valid : Str → Bool
unfolding canonical has
is_valid v =
    has
      (lit "confirmed" ∷ lit "affirmed" ∷ lit "corrected" ∷ lit "unsupported" ∷ lit "unclear" ∷ [])
      (canonical v)

unfoldable pub machine_prefixes : List Str
machine_prefixes =
    lit "ocr-" ∷ lit "text-layer" ∷ lit "transcript" ∷ lit "raglit" ∷ lit "agent-" ∷ []

-- IsMachineIdentity
unfoldable pub is_machine_identity : Str → Bool
unfolding machine_prefixes
is_machine_identity by = any (λ p. has_prefix by p) machine_prefixes

-- A name is given, and it is not a machine's.
unfoldable pub is_signed : Str → Bool
unfolding is_machine_identity
is_signed by = not (is_empty by) && not (is_machine_identity by)

unfoldable pub key : Str → Str → Str
key fact source = fact ++ (0 ∷ source)

abbrev pub AttestSet : Type 0
AttestSet = List (Str × Attestation)

-- Of
unfoldable pub of : AttestSet → Str → Str → Option Attestation
unfolding key
of s fact source = find_key s (key fact source)

-- Subtracts
unfoldable pub subtracts : Attestation → Bool
unfolding canonical is_signed
subtracts a = str_eq (canonical a.verdict) (lit "unsupported") && is_signed a.by

-- Supports
unfoldable pub supports : AttestSet → Str → Str → Bool
unfolding of subtracts
supports s fact source = elim (of s fact source) [ none ↦ true | some a ↦ not (subtracts a) ]

-- The order of sorted and of Unsupported.
unfoldable pub before : Attestation → Attestation → Bool
before a b = if not (str_eq a.fact b.fact) then str_lt a.fact b.fact else str_lt a.source b.source

unfoldable pub values : AttestSet → List Attestation
values [] = []
values ((k, a) ∷ s) = a ∷ values s

unfoldable pub sorted : AttestSet → List Attestation
unfolding values before
sorted s = sort_by before (values s)

unfoldable pub unsupported : AttestSet → List Attestation
unfolding values before
unsupported s =
    sort_by before (keep (λ (a : Attestation). str_eq a.verdict (lit "unsupported")) (values s))

unfoldable pub or_empty : Option Str → Str
or_empty none = []
or_empty (some b) = b

module _ (encode : Attestation → Option Str) (decode : Str → Option Attestation) where
  -- One line of the file that holds a verdict; `none` is an error.
  unfoldable pub read_record : Str → AttestSet → Option AttestSet
  unfolding is_valid canonical key
  read_record line s = elim (decode line) [
    | none ↦ none
    | some a ↦
        if is_valid a.verdict
        then some (put_key (key a.fact a.source) (record a { verdict = canonical a.verdict }) s)
        else none
  ]

  -- One turn of the loop of ReadAttestations, which skips blank lines and comments.
  unfoldable pub read_attested : Str → AttestSet → Option AttestSet
  unfolding read_record
  read_attested line s =
      if is_empty (trim_space line) || has_prefix (trim_space line) (lit "//")
      then some s
      else read_record line s

  unfoldable pub read_all : List Str → AttestSet → Option AttestSet
  unfolding read_attested
  read_all [] s = some s
  read_all (l ∷ ls) s = elim (read_attested l s) [ none ↦ none | some t ↦ read_all ls t ]

  unfoldable pub read_attestations : Option Str → Option AttestSet
  unfolding read_all
  read_attestations none = some []
  read_attestations (some b) = read_all (split_lines b) []

  -- What AppendAttestation refuses before it writes, of a verdict in its canonical form.
  unfoldable pub refuses : Attestation → Bool
  unfolding canonical is_signed
  refuses a =
      is_empty a.fact
      || is_empty a.source
      || (str_eq (canonical a.verdict) (lit "unsupported") && not (is_signed a.by))

  unfoldable pub append_canonical : Option Str → Attestation → Option Str
  unfolding refuses or_empty
  append_canonical file a =
      if refuses a
      then none
      else elim (encode a) [ none ↦ none | some line ↦ some (or_empty file ++ (line ++ (10 ∷ []))) ]

  -- AppendAttestation: the file that it leaves, or `none` for an error.
  unfoldable pub append_attestation : Option Str → Attestation → Option Str
  unfolding is_valid append_canonical
  append_attestation file a =
      if is_valid a.verdict
      then append_canonical file (record a { verdict = canonical a.verdict })
      else none

  -- The name on the last line that has one and passes, read from the end.
  unfoldable pub signer_of : (Attestation → Bool) → Str → Str
  signer_of passes line = if is_empty (trim_space line) then [] else elim (decode line) [
    | none ↦ []
    | some a ↦ if not (is_empty a.by) && passes a then a.by else []
  ]

  unfoldable pub last_of : (Attestation → Bool) → List Str → Str
  unfolding signer_of
  last_of passes [] = []
  last_of passes (l ∷ ls) =
      let later = last_of passes ls in if is_empty later then signer_of passes l else later

  unfoldable pub last_signer : Option Str → Str
  unfolding last_of
  last_signer none = []
  last_signer (some b) = last_of (λ a. true) (split_lines b)

  unfoldable pub last_human_signer : Option Str → Str
  unfolding last_of is_machine_identity
  last_human_signer none = []
  last_human_signer (some b) =
      last_of (λ (a : Attestation). not (is_machine_identity a.by)) (split_lines b)
