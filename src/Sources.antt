-- ===== src/Sources.antt =====
-- sources.go: the lock file beside the facts, which keeps the version of each document. A file is its
-- bytes, and no file is `none`.
pub mod Words
pub mod Decimal
pub mod Paths
pub mod Line
pub mod Breaks
pub mod RoundTrip
use kgraph.Base.{
  Str, lit, ℕ, zero, suc, ◌+◌, ◌/◌, ◌%◌, ◌==◌, Bool, true, false, not, ◌&&◌, ◌||◌, if◌then◌else◌,
  Option, none, some, List, [], ◌∷◌, ◌++◌, any, is_empty, keep, str_eq, has_prefix, trim_space,
  sort_strings, find_key, put_key, keys_of, split_lines, end_lines, ltb,
}
use kgraph.Values.{Signed, up, down, atoi, split_fields}

pub record LockEntry : Type 0 where
  pub hash : Str
  pub size : Signed
  pub at : Str

-- SourceLock.Entries
abbrev pub Entries : Type 0
Entries = List (Str × LockEntry)

-- strings.Cut at the byte `mark`: what is before it and behind it.
unfoldable pub cut_at : ℕ → Str → Option (Str × Str)
cut_at mark [] = none
cut_at mark (c ∷ s) =
    if c == mark
    then some ([], s)
    else elim (cut_at mark s) [ none ↦ none | some (a, b) ↦ some (c ∷ a, b) ]

-- The text before the first space, or all of it.
unfoldable pub cut_space : Str → Str × Str
unfolding cut_at
cut_space s = elim (cut_at 32 s) [ none ↦ (s, []) | some p ↦ p ]

-- splitLockPath; `none` is an unterminated quoted path.
unfoldable pub split_lock_path : Str → Option (Str × Str)
unfolding cut_at cut_space
split_lock_path [] = some ([], [])
split_lock_path (c ∷ s) = if c == 34 then cut_at 34 s else some (cut_space (c ∷ s))

-- A path with a space, a tab or a double quote is quoted, without its double quotes.
unfoldable pub needs_quotes : Str → Bool
needs_quotes p = any (λ c. (c == 32) || (c == 9) || (c == 34)) p

unfoldable pub quote_lock_path : Str → Str
unfolding needs_quotes
quote_lock_path p = if needs_quotes p then 34 ∷ (keep (λ c. not (c == 34)) p ++ (34 ∷ [])) else p

-- The fields behind the path: hash, size and, where it is there, the date.
unfoldable pub entry_of : List Str → Option LockEntry
unfolding atoi
entry_of [] = none
entry_of (h ∷ []) = none
entry_of (h ∷ n ∷ more) = elim (atoi n) [
  | none ↦ none
  | some size ↦ some (record { hash = h; size = size; at = elim more [ [] ↦ [] | d ∷ _ ↦ d ] })
]

unfoldable pub read_entry : Str → Entries → Option Entries
unfolding split_lock_path entry_of
read_entry line m = elim (split_lock_path line) [
  | none ↦ none
  | some (path, tail) ↦ elim (entry_of (split_fields [] tail)) [
    | none ↦ none
    | some e ↦ some (put_key path e m)
  ]
]

-- One turn of the loop of ReadLock; `none` is an error.
unfoldable pub read_line : Str → Entries → Option Entries
unfolding read_entry
read_line raw m =
    let line = trim_space raw in
    if is_empty line || has_prefix line (35 ∷ []) then some m else read_entry line m

unfoldable pub read_lines : List Str → Entries → Option Entries
unfolding read_line
read_lines [] m = some m
read_lines (l ∷ ls) m = elim (read_line l m) [ none ↦ none | some m' ↦ read_lines ls m' ]

-- ReadLock
unfoldable pub read_lock : Option Str → Option Entries
unfolding read_lines split_lines
read_lock none = some []
read_lock (some b) = read_lines (split_lines b) []

-- %d, from the last digit on; the fuel is the number itself and more.
unfoldable pub print_digits : ℕ → ℕ → Str
print_digits zero n = []
print_digits (suc fuel) n =
    let front = print_digits fuel (n / 10) in
    if ltb n 10 then (48 + n) ∷ [] else front ++ ((48 + n % 10) ∷ [])

unfoldable pub print_signed : Signed → Str
unfolding print_digits
print_signed (up n) = print_digits (suc n) n
print_signed (down zero) = print_digits 1 0
print_signed (down (suc n)) = 45 ∷ print_digits (suc (suc n)) (suc n)

-- The dash of the first line of the file, in UTF-8.
unfoldable pub lock_header : List Str
lock_header =
    (lit "# kgraph source lock "
      ++ (226 ∷ 128 ∷ 148 ∷ lit " the version of each document the facts here were read from."))
    ∷ lit
        "# Written by `kg source lock`. A diff here is a document to re-read, not a merge conflict."
    ∷ lit "# Paths are relative to this file, so this lock shares the git treatment of the"
    ∷ (lit "# facts beside it "
        ++ (226 ∷ 128 ∷ 148 ∷ lit " a gitignored project's lock is gitignored with it."))
    ∷ lit "# path  hash  size  recorded"
    ∷ []

-- One line, without its end.
unfoldable pub entry_line : Str → LockEntry → Str
unfolding quote_lock_path print_signed
entry_line p e = quote_lock_path p ++ (32 ∷ (e.hash ++ (32 ∷ (print_signed e.size ++ (32 ∷ e.at)))))

-- l.Entries[p], which is there.
unfoldable pub entry_lines : Entries → List Str → List Str
unfolding entry_line
entry_lines m [] = []
entry_lines m (p ∷ ps) =
    let rest = entry_lines m ps in
    elim (find_key m p) [ none ↦ rest | some e ↦ entry_line p e ∷ rest ]

-- WriteLock: the file that it leaves, which it removes where there is no entry.
unfoldable pub write_lock : Entries → Option Str
unfolding lock_header end_lines entry_lines
write_lock m =
    if is_empty m
    then none
    else some (end_lines (lock_header ++ entry_lines m (sort_strings (keys_of m))))
