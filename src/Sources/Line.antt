-- ===== src/Sources/Line.antt =====
-- One line of a lock file, written and read again.
use kgraph.Base.{
  Str, ℕ, ◌≤◌, ◌≡◌, refl, sym, ap, subst, ◌∙◌, false, ◌||◌, if◌then◌else◌, some, List, [], ◌∷◌,
  ◌++◌, append-nil, is_empty, has_prefix, trim_space, any, leb,
}
use kgraph.Values.{Signed, up, atoi, split_fields}
use kgraph.Sources.{
  LockEntry, Entries, put_key, split_lock_path, quote_lock_path, entry_of, read_entry, read_line,
  print_signed, entry_line,
}
use kgraph.Sources.Words.{
  IsSolid, trim_end, trim_end-append, trim_end-solid, trim_end-space, trim_end-is_empty,
  trim_space-front, split_fields-word, split_fields-space, split_fields-end,
}
use kgraph.Sources.Decimal.{print-IsSolid, print-is_empty, atoi-print}
use kgraph.Sources.Paths.{IsLockable, Opens, split-quote_lock_path, quote_lock_path-Opens}

-- What the lock file keeps of an entry: a hash and a date that are ASCII words, where strings.Fields
-- splits at ASCII white space alone, and a size that is an int64 from zero up.
pub record IsRecordable (e : LockEntry) : Type 0 where
  pub hash_word : IsSolid e.hash
  pub hash_given : is_empty e.hash ≡ false
  pub date_word : IsSolid e.at
  pub hash_ascii : any (λ c. leb 128 c) e.hash ≡ false
  pub date_ascii : any (λ c. leb 128 c) e.at ≡ false
  pub amount : ℕ
  pub sized : e.size ≡ up amount
  pub int64 : amount ≤ 9223372036854775807

-- What is behind the path, when the end of the line has been trimmed.
behind : Str → Str → Str → Str
behind h n at = h ++ (32 ∷ (if is_empty at then n else n ++ (32 ∷ at)))

-- The number with the date behind it, if there is one.
trim_end-date :
    (n at : Str)
    → IsSolid n
    → IsSolid at
    → trim_end (n ++ (32 ∷ at)) ≡ (if is_empty at then n else n ++ (32 ∷ at))
trim_end-date n [] sn sat = trim_end-space n sn
trim_end-date n (c ∷ at) sn sat =
    let kept = trim_end-append (32 ∷ []) (c ∷ at) (trim_end-is_empty (c ∷ at) sat refl) in
    trim_end-append n (32 ∷ c ∷ at) (rw kept)
    ∙ ap (λ s. n ++ s) (kept ∙ ap (λ s. 32 ∷ s) (trim_end-solid (c ∷ at) sat))

is_empty-date :
    (n at : Str) → is_empty n ≡ false → is_empty (if is_empty at then n else n ++ (32 ∷ at)) ≡ false
is_empty-date [] at e = cc e
is_empty-date (d ∷ n) [] e = refl
is_empty-date (d ∷ n) (c ∷ at) e = refl

trim_end-behind :
    (h n at : Str)
    → IsSolid n
    → is_empty n ≡ false
    → IsSolid at
    → trim_end (h ++ (32 ∷ (n ++ (32 ∷ at)))) ≡ behind h n at
unfolding behind
trim_end-behind h n at sn en sat =
    let date = trim_end-date n at sn sat in
    let some_date = ap is_empty date ∙ is_empty-date n at en in
    let kept = trim_end-append (32 ∷ []) (n ++ (32 ∷ at)) some_date in
    trim_end-append h (32 ∷ (n ++ (32 ∷ at))) (rw kept)
    ∙ ap (λ s. h ++ s) (kept ∙ ap (λ s. 32 ∷ s) date)

split_fields-one : (w : Str) → IsSolid w → is_empty w ≡ false → split_fields [] w ≡ w ∷ []
split_fields-one w h e =
    ap (split_fields []) (sym (append-nil w)) ∙ split_fields-word [] w [] h ∙ split_fields-end w e

split_fields-two :
    (w s : Str)
    → IsSolid w
    → is_empty w ≡ false
    → split_fields [] (w ++ (32 ∷ s)) ≡ w ∷ split_fields [] s
split_fields-two w s h e = split_fields-word [] w (32 ∷ s) h ∙ split_fields-space w s e

fields-date :
    (n at : Str)
    → IsSolid n
    → is_empty n ≡ false
    → IsSolid at
    → split_fields [] (if is_empty at then n else n ++ (32 ∷ at))
      ≡ n ∷ (if is_empty at then [] else at ∷ [])
fields-date n [] sn en sat = split_fields-one n sn en
fields-date n (c ∷ at) sn en sat =
    split_fields-two n (c ∷ at) sn en ∙ ap (λ l. n ∷ l) (split_fields-one (c ∷ at) sat refl)

fields-behind :
    (h n at : Str)
    → IsSolid h
    → is_empty h ≡ false
    → IsSolid n
    → is_empty n ≡ false
    → IsSolid at
    → split_fields [] (behind h n at) ≡ h ∷ n ∷ (if is_empty at then [] else at ∷ [])
unfolding behind
fields-behind h n at sh eh sn en sat =
    split_fields-two h _ sh eh ∙ ap (λ l. h ∷ l) (fields-date n at sn en sat)

trim_space-line :
    (q rest kept : Str)
    → Opens q
    → trim_end rest ≡ kept
    → is_empty kept ≡ false
    → trim_space (q ++ (32 ∷ rest)) ≡ q ++ (32 ∷ kept)
trim_space-line [] rest kept o e n = absurd o
trim_space-line (c ∷ q) rest kept o e n =
    let spaced = trim_end-append (32 ∷ []) rest (ap is_empty e ∙ n) in
    trim_space-front c (q ++ (32 ∷ rest)) o.0
    ∙ trim_end-append (c ∷ q) (32 ∷ rest) (rw spaced)
    ∙ ap (λ s. (c ∷ q) ++ s) (spaced ∙ ap (λ s. 32 ∷ s) e)

Opens-entry : (q s : Str) → Opens q → (is_empty (q ++ s) || has_prefix (q ++ s) (35 ∷ [])) ≡ false
unfolding has_prefix
Opens-entry [] s o = absurd o
Opens-entry (c ∷ q) s o = rw o.1

is_empty-behind : (h n at : Str) → is_empty h ≡ false → is_empty (behind h n at) ≡ false
unfolding behind
is_empty-behind [] n at e = cc e
is_empty-behind (c ∷ h) n at e = refl

-- The date is read back, and a missing one as the empty text.
entry_of-fields :
    (h n at : Str) (size : Signed)
    → atoi n ≡ some size
    → entry_of (h ∷ n ∷ (if is_empty at then [] else at ∷ []))
      ≡ some (record { hash = h; size = size; at = at })
unfolding entry_of
entry_of-fields h n [] size e = rw (e, entry_of)
entry_of-fields h n (c ∷ at) size e = rw (e, entry_of)

read_entry-fields :
    (line p tail : Str) (fields : List Str) (e : LockEntry) (m : Entries)
    → split_lock_path line ≡ some (p, tail)
    → split_fields [] tail ≡ fields
    → entry_of fields ≡ some e
    → read_entry line m ≡ some (put_key p e m)
unfolding read_entry
read_entry-fields line p tail fields e m s f o = rw (s, read_entry) (rw (f, o))

-- A line that is written is read as the entry that it was written for.
pub read_line-entry_line :
    (p : Str) (e : LockEntry) (m : Entries)
    → IsLockable p
    → IsRecordable e
    → read_line (entry_line p e) m ≡ some (put_key p e m)
unfolding read_line entry_line
read_line-entry_line p e m h r =
    let n = print_signed e.size in
    let q = quote_lock_path p in
    let opens = quote_lock_path-Opens p h in
    let solid = subst (λ z. IsSolid (print_signed z)) (sym r.sized) (print-IsSolid r.amount) in
    let given =
      subst (λ z. is_empty (print_signed z) ≡ false) (sym r.sized) (print-is_empty r.amount) in
    let read =
      subst (λ z. atoi (print_signed z) ≡ some z) (sym r.sized) (atoi-print r.amount r.int64) in
    let kept = behind e.hash n e.at in
    let trimmed =
      trim_space-line q (e.hash ++ (32 ∷ (n ++ (32 ∷ e.at)))) kept opens
        (trim_end-behind e.hash n e.at solid given r.date_word)
        (is_empty-behind e.hash n e.at r.hash_given) in
    let (tail, found, fields) = split-quote_lock_path p kept h in
    rw trimmed (
      rw (Opens-entry q (32 ∷ kept) opens) (
        read_entry-fields (q ++ (32 ∷ kept)) p tail _ e m found
          (fields ∙ fields-behind e.hash n e.at r.hash_word r.hash_given solid given r.date_word)
          (entry_of-fields e.hash n e.at e.size read)))
