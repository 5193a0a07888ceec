-- ===== src/Sources/RoundTrip.antt =====
-- ReadLock on what WriteLock wrote.
use kgraph.Base.{
  NoBreak, NoBreaks, NoBreaks-append, split_lines-end_lines, find_key-put_key, Str, ◌≡◌, refl, sym,
  ap, subst, ◌∙◌, inl, inr, Bool, true, false, ◌||◌, if◌then◌else◌, none, some, List, [], ◌∷◌, ◌++◌,
  append_assoc, is_space, has_prefix, trim_space, any, Bool-cases, ◌==◌, In, has, not_in-has,
  str_eq, str_eq_iff, str_eq_comm, find_key, find_key-in, find_key-cases, find_key-none, keys_of,
  sort_strings, in-sort_strings, Option-cases,
}
use kgraph.Sources.{
  LockEntry, Entries, put_key, needs_quotes, quote_lock_path, read_line, read_lines, read_lock,
  entry_line, entry_lines, lock_header, write_lock,
}
use kgraph.Sources.Words.{trim_space-front, trim_end-front}
use kgraph.Sources.Breaks.{NoBreak-entry_line}
use kgraph.Sources.Paths.{IsLockable}
use kgraph.Sources.Line.{IsRecordable, read_line-entry_line}

is_space-comment : is_space 35 ≡ false
unfolding is_space
is_space-comment = refl

-- A line that begins with the mark of a comment is skipped.
read_line-comment : (s : Str) (m : Entries) → read_line (35 ∷ s) m ≡ some m
unfolding read_line has_prefix
read_line-comment s m =
    rw (trim_space-front 35 s is_space-comment ∙ trim_end-front 35 s is_space-comment)

read_line-blank : (m : Entries) → read_line [] m ≡ some m
unfolding read_line trim_space
read_line-blank m = refl

read_lines-step :
    (l : Str) (ls : List Str) (m after : Entries)
    → read_line l m ≡ some after
    → read_lines (l ∷ ls) m ≡ read_lines ls after
unfolding read_lines
read_lines-step l ls m after e = rw (e, read_lines)

read_lines-none : (m : Entries) → read_lines [] m ≡ some m
unfolding read_lines
read_lines-none m = refl

-- Each line begins with the mark of a comment.
abbrev AreComments : List Str → Type 0
AreComments [] = Unit
AreComments ([] ∷ ls) = ⊥
AreComments ((c ∷ s) ∷ ls) = (c ≡ 35) × AreComments ls

read_lines-comments :
    (cs ls : List Str) (m : Entries) → AreComments cs → read_lines (cs ++ ls) m ≡ read_lines ls m
read_lines-comments [] ls m h = refl
read_lines-comments ([] ∷ cs) ls m h = absurd h
read_lines-comments ((c ∷ s) ∷ cs) ls m h =
    read_lines-step (c ∷ s) (cs ++ ls) m m (rw h.0 (read_line-comment s m))
    ∙ read_lines-comments cs ls m h.1

read_lines-header :
    (ls : List Str) (m : Entries) → read_lines (lock_header ++ ls) m ≡ read_lines ls m
read_lines-header ls m = read_lines-comments lock_header ls m header
  where
    header : AreComments lock_header
    header = unfold lock_header in (refl, (refl, (refl, (refl, (refl, tt)))))

NoBreak-of : (s : Str) → any (λ c. c == 10) s ≡ false → NoBreak s
unfolding any
NoBreak-of [] h = tt
NoBreak-of (c ∷ s) h = elim (Bool-cases (c == 10)) [
  | inl e ↦ cc (rw e at h)
  | inr e ↦ (e, NoBreak-of s (rw e at h))
]

NoBreaks-of : (ls : List Str) → any (λ s. any (λ c. c == 10) s) ls ≡ false → NoBreaks ls
unfolding any
NoBreaks-of [] h = tt
NoBreaks-of (l ∷ ls) h = elim (Bool-cases (any (λ c. c == 10) l)) [
  | inl e ↦ cc (rw e at h)
  | inr e ↦ (NoBreak-of l e, NoBreaks-of ls (rw e at h))
]

NoBreaks-header : NoBreaks lock_header
unfolding lock_header any
NoBreaks-header = NoBreaks-of lock_header refl

-- Every entry can be written to a lock file.
abbrev pub AllRecordable : Entries → Type 0
AllRecordable [] = Unit
AllRecordable ((p, e) ∷ m) = IsLockable p × IsRecordable e × AllRecordable m

AllRecordable-in :
    (m : Entries) (p : Str) (e : LockEntry)
    → AllRecordable m
    → In (p, e) m
    → IsLockable p × IsRecordable e
AllRecordable-in [] p e h i = absurd i
AllRecordable-in ((q, f) ∷ m) p e h (inl s) =
    (subst IsLockable (λ i. (sym s i).0) h.0, subst IsRecordable (λ i. (sym s i).1) h.1)
AllRecordable-in ((q, f) ∷ m) p e h (inr i) = AllRecordable-in m p e h.2 i

-- What is held at an id is read at it: in the lines, or before them.
abbrev HeldAfter : Entries → List Str → Entries → Entries → Type 0
HeldAfter m ps acc res =
    (k : Str) → find_key res k ≡ (if has ps k then find_key m k else find_key acc k)

NoBreaks-entry_lines : (m : Entries) (ps : List Str) → AllRecordable m → NoBreaks (entry_lines m ps)
unfolding entry_lines
NoBreaks-entry_lines m [] h = tt
NoBreaks-entry_lines m (p ∷ ps) h = elim (Option-cases (find_key m p)) [
  | inl e ↦ rw (e, entry_lines) (NoBreaks-entry_lines m ps h)
  | inr (v, e) ↦
      let (l, r) = AllRecordable-in m p v h (find_key-in m p v e) in
      rw (e, entry_lines) (NoBreak-entry_line p v l r, NoBreaks-entry_lines m ps h)
]

read_lines-entry_lines :
    (m : Entries) (ps : List Str) (acc : Entries)
    → AllRecordable m
    → ((p : Str) → In p ps → In p (keys_of m))
    → (res : Entries) × (read_lines (entry_lines m ps ++ ([] ∷ [])) acc ≡ some res)
      × HeldAfter m ps acc res
unfolding entry_lines has
read_lines-entry_lines m [] acc h k = (acc, done, λ j. refl)
  where
    done : read_lines ([] ∷ []) acc ≡ some acc
    done = read_lines-step [] [] acc acc (read_line-blank acc) ∙ read_lines-none acc
read_lines-entry_lines m (p ∷ ps) acc h k = elim (find_key-cases m p) [
  | inl (e, n) ↦ absurd (n (k p (inl refl)))
  | inr (v, e, i) ↦
      let (l, r) = AllRecordable-in m p v h i in
      let (res, read, held) =
        read_lines-entry_lines m ps (put_key p v acc) h (λ q j. k q (inr j)) in
      (
        res,
        rw (e, entry_lines)
            (read_lines-step (entry_line p v) (entry_lines m ps ++ ([] ∷ [])) acc (put_key p v acc)
                (read_line-entry_line p v acc l r)
              ∙ read),
        λ j. held j ∙ merged v e j,
      )
]
  where
    merged :
        (v : LockEntry)
        → find_key m p ≡ some v
        → (j : Str)
        → (if has ps j then find_key m j else find_key (put_key p v acc) j)
          ≡ (if str_eq j p || has ps j then find_key m j else find_key acc j)
    merged v e j = elim (Bool-cases (str_eq j p)) [
      | inl s ↦ rw s (first ((str_eq_iff j p).0 s) (has ps j))
      | inr s ↦ rw s (
          ap (λ o. if has ps j then find_key m j else o)
            (find_key-put_key p v acc j ∙ other (str_eq_comm p j ∙ s)))
    ]
      where
        first :
            j ≡ p
            → (b : Bool) → (if b then find_key m j else find_key (put_key p v acc) j) ≡ find_key m j
        first q true = refl
        first q false =
            find_key-put_key p v acc j
            ∙ rw ((str_eq_iff p j).1 (sym q)) (sym e ∙ ap (find_key m) (sym q))

        other :
            str_eq p j ≡ false → (if str_eq p j then some v else find_key acc j) ≡ find_key acc j
        other n = rw n

held-all :
    (m : Entries) (p : Str)
    → (if has (sort_strings (keys_of m)) p then find_key m p else none) ≡ find_key m p
held-all m p = elim (Bool-cases (has (sort_strings (keys_of m)) p)) [
  | inl e ↦ rw e
  | inr e ↦
      rw e (sym (find_key-none m p (λ i. not_in-has _ p e ((in-sort_strings p (keys_of m)).1 i))))
]

-- What WriteLock writes, ReadLock reads: the same entry at every path, where the paths and entries
-- can be written (a path is not empty, is no comment, holds no double quote or line break, and opens
-- with an ASCII byte unless WriteLock quotes it; a hash and a date are ASCII words, the hash not
-- empty; and a size is an int64 from zero up).
pub read_lock-write_lock :
    (m : Entries)
    → AllRecordable m
    → (res : Entries) × (read_lock (write_lock m) ≡ some res)
      × ((p : Str) → find_key res p ≡ find_key m p)
unfolding read_lock write_lock find_key
read_lock-write_lock [] h = ([], refl, λ p. refl)
read_lock-write_lock ((q, v) ∷ m) h =
    let entries : Entries = (q, v) ∷ m in
    let ps = sort_strings (keys_of entries) in
    let lines = entry_lines entries ps in
    let (res, read, held) =
      read_lines-entry_lines entries ps [] h (λ p i. (in-sort_strings p (keys_of entries)).0 i) in
    let split =
      split_lines-end_lines (lock_header ++ lines)
        (NoBreaks-append lock_header lines NoBreaks-header (NoBreaks-entry_lines entries ps h)) in
    (
      res,
      ap (λ ls. read_lines ls []) (split ∙ append_assoc lock_header lines ([] ∷ []))
          ∙ read_lines-header (lines ++ ([] ∷ [])) []
          ∙ read,
      λ p. held p ∙ held-all entries p,
    )

-- A path that begins with the mark of a comment and is not quoted is written as a comment: reading
-- the line leaves no entry for it.
pub read_line-hash_path :
    (p : Str) (e : LockEntry) (m : Entries)
    → needs_quotes (35 ∷ p) ≡ false
    → read_line (entry_line (35 ∷ p) e) m ≡ some m
unfolding entry_line quote_lock_path
read_line-hash_path p e m h = rw h (read_line-comment _ m)
