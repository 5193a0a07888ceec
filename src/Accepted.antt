-- ===== src/Accepted.antt =====
-- accepted.go: the findings that a person has read and let stand. `hash` is hashString, and `encode`
-- is json.Marshal.
pub mod Key
pub mod Ruled
use kgraph.Base.{
  Str, lit, ℕ, Bool, true, false, not, ◌&&◌, ◌||◌, if◌then◌else◌, Option, none, some, List, [], ◌∷◌,
  ◌++◌, keep, is_empty, str_lt, sort_by, sort_strings, find_key,
}
use kgraph.Attest.{is_signed, or_empty}
use kgraph.Dialect.Rules.{Diag, sev_error, sev_warn}

-- A diagnostic with its key, which is empty where it cannot be accepted.
pub record Finding : Type 0 where
  pub diag : Diag
  pub key : Str

pub record Accepted : Type 0 where
  pub key : Str
  pub check : Str
  pub msg : Str
  pub by : Str
  pub at : Str
  pub reason : Str
  pub subject : Str

abbrev pub AcceptedSet : Type 0
AcceptedSet = List (Str × Accepted)

-- Honoured
unfoldable pub is_honoured : Accepted → Bool
unfolding is_signed
is_honoured a = is_signed a.by

unfoldable pub is_accepted : AcceptedSet → Finding → Bool
unfolding is_honoured
is_accepted set d = elim d.diag.severity [
  | sev_error ↦ false
  | sev_warn ↦
      if is_empty d.key
      then false
      else elim (find_key set d.key) [ none ↦ false | some a ↦ is_honoured a ]
]

-- Partition: what is still open, and what was accepted.
unfoldable pub partition : AcceptedSet → List Finding → List Finding × List Finding
unfolding is_accepted
partition set [] = ([], [])
partition set (d ∷ ds) =
    let rest = partition set ds in
    if is_accepted set d then (rest.0, d ∷ rest.1) else (d ∷ rest.0, rest.1)

unfoldable pub entries : AcceptedSet → List Accepted
entries [] = []
entries ((k, a) ∷ set) = a ∷ entries set

-- Unhonoured
unfoldable pub unhonoured : AcceptedSet → List Accepted
unfolding entries is_honoured
unhonoured set =
    sort_by (λ (a : Accepted) b. str_lt a.key b.key)
      (keep (λ (a : Accepted). not (is_honoured a)) (entries set))

-- What a finding is identified by: each subject with its hash, where there is a graph.
unfoldable pub subject_text : Option (Str → Str) → List Str → Str
subject_text sem [] = []
subject_text sem (id ∷ ids) =
    0 ∷ (id ++ (64 ∷ (elim sem [ none ↦ [] | some h ↦ h id ] ++ subject_text sem ids)))

-- findingKey
unfoldable pub finding_key : (Str → Str) → Option (Str → Str) → Str → List Str → Str
unfolding subject_text
finding_key hash sem check subjects = hash (check ++ subject_text sem (sort_strings subjects))

-- The head of a new file.
unfoldable pub ledger_header : Str
ledger_header =
    lit "// kgraph accepted findings "
    ++ (226 ∷ 128 ∷ 148 ∷ lit " warnings a person has read and ruled tolerable.")
    ++ (10 ∷ lit "// Keyed by CONTENT: the check, its subjects, and their sem_hashes. Edit a fact")
    ++ (10 ∷ lit "// the finding names and the key changes, so the finding comes back on its own.")
    ++ (10 ∷ [])

-- AppendAccepted: the file that it leaves, or `none` for an error.
unfoldable pub append_accepted : (Accepted → Option Str) → Option Str → Accepted → Option Str
unfolding ledger_header or_empty
append_accepted encode file a =
    let old = or_empty file in
    if is_empty a.by then none else elim (encode a) [
      | none ↦ none
      | some line ↦ some ((if is_empty old then ledger_header else old) ++ (line ++ (10 ∷ [])))
    ]
