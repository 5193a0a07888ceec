-- ===== src/Tests/Rulings.antt =====
-- A verdict that a person signs, the ledger of findings, and the theorems applied to them.
use kgraph.Base.{
  subst, sort_strings, sort_by, insert, Str, lit, ◌≡◌, refl, ◌↔◌, not, if◌then◌else◌, Option, none,
  some, [], ◌∷◌, ◌++◌, In, length, str_eq, Bool-cases, inl, inr, end_lines, has, any, has_prefix,
}
use kgraph.Attest.{
  Attestation, AttestSet, canonical, is_valid, key, supports, or_empty, read_attestations,
  append_attestation, refuses, append_canonical, is_signed, is_machine_identity,
}
use kgraph.Attest.Appended.{IsWritten, today, append_attestation-supports}
use kgraph.Accepted.{Finding, AcceptedSet, partition, subject_text, finding_key}
use kgraph.Accepted.Key.{finding_key-edited}
use kgraph.Accepted.Ruled.{Ruled, partition_exact}
use kgraph.Dialect.Rules.{sev_error, sev_warn}
use kgraph.Values.{up}

abbrev ruling : Attestation
ruling = record {
  fact = lit "c1";
  source = lit "s1";
  verdict = lit "unsupported";
  region = record { page = up 3; x = 0; y = 0; w = 0; h = 0 };
  note = [];
  by = lit "ann";
  at = lit "2026-01-01";
  excerpt = [];
  excerpt_hash = [];
}

-- One text, which is the text of the ruling.
abbrev written : Str
written = lit "{c1:unsupported}"

abbrev to_text : Attestation → Option Str
to_text a = some written

abbrev from_text : Str → Option Attestation
from_text line = if str_eq line written then some ruling else none

ruling-IsWritten :
    (line : Str) → to_text (today ruling) ≡ some line → IsWritten from_text (today ruling) line
unfolding canonical str_eq
ruling-IsWritten line e =
    subst (λ l. IsWritten from_text (today ruling) l) (some_inj e)
      (record {
        more = lit "c1:unsupported}";
        object = refl;
        one_line = (
          refl,
          (
            refl,
            (
              refl,
              (
                refl,
                (
                  refl,
                  (
                    refl,
                    (
                      refl,
                      (refl, (refl, (refl, (refl, (refl, (refl, (refl, (refl, (refl, tt))))))))),
                    ),
                  ),
                ),
              ),
            ),
          ),
        );
        back = refl;
      })
  where
    some_inj : {a b : Str} → some a ≡ some b → a ≡ b
    some_inj e = cc e

ruling_appended : append_attestation to_text from_text none ruling ≡ some (written ++ (10 ∷ []))
unfolding append_attestation is_valid canonical has str_eq append_canonical refuses is_signed
    is_machine_identity any has_prefix
ruling_appended = refl

append_attestation-supports_example :
    (t : AttestSet) × (read_attestations to_text from_text (some (written ++ (10 ∷ []))) ≡ some t)
    × ((fact source : Str)
        → supports t fact source ≡ (
            if str_eq (key ruling.fact ruling.source) (key fact source)
            then not (str_eq (canonical ruling.verdict) (lit "unsupported"))
            else supports [] fact source))
unfolding end_lines or_empty read_attestations
append_attestation-supports_example =
    append_attestation-supports to_text from_text none [] ruling [] (written ++ (10 ∷ [])) refl tt
      ruling-IsWritten refl ruling_appended

abbrev hash_before : Str → Str
hash_before id = lit "aa"

abbrev hash_after : Str → Str
hash_after id = if str_eq id (lit "c1") then lit "aa" else lit "bb"

same_length : (id : Str) → length (hash_before id) ≡ length (hash_after id)
same_length id = elim (Bool-cases (str_eq id (lit "c1"))) [ inl e ↦ rw e | inr e ↦ rw e ]

-- A hash that is the text itself.
abbrev no_hash : Str → Str
no_hash s = s

same_key :
    finding_key no_hash (some hash_before) (lit "near-duplicate") (lit "c1" ∷ [])
    ≡ finding_key no_hash (some hash_after) (lit "near-duplicate") (lit "c1" ∷ [])
unfolding finding_key subject_text str_eq sort_strings sort_by insert
same_key = refl

finding_key-edited_example : hash_before (lit "c1") ≡ hash_after (lit "c1")
finding_key-edited_example =
    finding_key-edited no_hash hash_before hash_after (lit "near-duplicate") (lit "c1" ∷ [])
      (λ e. e) same_length same_key (lit "c1") (inl refl)

abbrev alike : Finding
alike = record {
  diag = record { severity = sev_warn; check = lit "near-duplicate"; text = lit "alike" };
  key = lit "k1";
}

abbrev dangling : Finding
dangling = record {
  diag = record { severity = sev_error; check = []; text = lit "unknown node" };
  key = [];
}

abbrev ledger : AcceptedSet
ledger =
    (
      lit "k1",
      record {
        key = lit "k1";
        check = lit "near-duplicate";
        msg = lit "alike";
        by = lit "ann";
        at = lit "2026-01-01";
        reason = [];
        subject = lit "c1";
      },
    )
    ∷ []

partition_exact_example :
    (In alike (partition ledger (alike ∷ dangling ∷ [])).1
      ↔ (In alike (alike ∷ dangling ∷ []) × Ruled ledger alike))
    × (In alike (partition ledger (alike ∷ dangling ∷ [])).0
        ↔ (In alike (alike ∷ dangling ∷ []) × (¬ Ruled ledger alike)))
partition_exact_example = partition_exact ledger (alike ∷ dangling ∷ []) alike
