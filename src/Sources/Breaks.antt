-- ===== src/Sources/Breaks.antt =====
-- The lines of a lock file: what is written stays on one line, and the file is split into its lines.
use kgraph.Base.{
  Str, ℕ, ◌≡◌, refl, sym, subst, ◌⊎◌, inl, inr, Bool, true, false, not, ◌||◌, [], ◌∷◌, is_space,
  keep, NoBreak, NoBreak-append, Bool-cases, ◌==◌, arith,
}
use kgraph.Sources.{LockEntry, needs_quotes, quote_lock_path, entry_line, print_signed}
use kgraph.Sources.Words.{IsSolid}
use kgraph.Sources.Decimal.{print-IsSolid}
use kgraph.Sources.Paths.{Plain, IsLockable}
use kgraph.Sources.Line.{IsRecordable}

solid-no_break : (c : ℕ) → is_space c ≡ false → (c == 10) ≡ false
unfolding is_space
solid-no_break c h = ground arith

IsSolid-NoBreak : (s : Str) → IsSolid s → NoBreak s
IsSolid-NoBreak [] h = tt
IsSolid-NoBreak (c ∷ s) h = (solid-no_break c h.0, IsSolid-NoBreak s h.1)

Plain-NoBreak : (s : Str) → Plain s → NoBreak s
Plain-NoBreak [] h = tt
Plain-NoBreak (c ∷ s) h = (one h.1, Plain-NoBreak s h.2)
  where
    one : ((is_space c ≡ false) ⊎ (((c == 32) || (c == 9)) ≡ true)) → (c == 10) ≡ false
    one (inl e) = solid-no_break c e
    one (inr e) = ground arith

NoBreak-keep : (p : ℕ → Bool) (s : Str) → NoBreak s → NoBreak (keep p s)
unfolding keep
NoBreak-keep p [] h = tt
NoBreak-keep p (c ∷ s) h = elim (Bool-cases (p c)) [
  | inl e ↦ rw e (h.0, NoBreak-keep p s h.1)
  | inr e ↦ rw e (NoBreak-keep p s h.1)
]

NoBreak-quote_lock_path : (p : Str) → NoBreak p → NoBreak (quote_lock_path p)
unfolding quote_lock_path
NoBreak-quote_lock_path p h = elim (Bool-cases (needs_quotes p)) [
  | inl e ↦
      rw e (
        refl,
        NoBreak-append (keep (λ c. not (c == 34)) p) (34 ∷ []) (NoBreak-keep _ p h) (refl, tt),
      )
  | inr e ↦ rw e h
]

IsLockable-NoBreak : (p : Str) → IsLockable p → NoBreak p
IsLockable-NoBreak [] h = absurd h
IsLockable-NoBreak (c ∷ p) h = Plain-NoBreak (c ∷ p) h.1

pub NoBreak-entry_line :
    (p : Str) (e : LockEntry) → IsLockable p → IsRecordable e → NoBreak (entry_line p e)
unfolding entry_line
NoBreak-entry_line p e h r =
    NoBreak-append (quote_lock_path p) _ (NoBreak-quote_lock_path p (IsLockable-NoBreak p h)) (
      refl,
      NoBreak-append e.hash _ (IsSolid-NoBreak e.hash r.hash_word) (
        refl,
        NoBreak-append (print_signed e.size) _
            (IsSolid-NoBreak _
              (subst (λ z. IsSolid (print_signed z)) (sym r.sized) (print-IsSolid r.amount)))
            (refl, IsSolid-NoBreak e.at r.date_word),
      ),
    )
