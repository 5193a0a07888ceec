-- ===== src/Sources/Decimal.antt =====
-- The decimal digits of a number, printed by %d and read by strconv.
use kgraph.Base.{
  Str, ℕ, zero, suc, ◌+◌, ◌-◌, ◌*◌, ◌/◌, ◌%◌, ◌≤◌, ◌<◌, ◌≡◌, refl, ap, ◌∙◌, inl, inr, true, false,
  some, [], ◌∷◌, ◌++◌, arith, Bool-cases, ltb, leb, ltb→lt, is_space, is_empty, ◌==◌, ◌>>=◌,
}
use kgraph.Values.{up, atoi, decimal, digits, is_digit, in_range}
use kgraph.Sources.{print_digits, print_signed}
use kgraph.Sources.Words.{IsSolid}

-- Every byte is a digit.
abbrev IsNumeric : Str → Type 0
IsNumeric [] = Unit
IsNumeric (c ∷ s) = (48 ≤ c) × (c ≤ 57) × IsNumeric s

IsNumeric-append : (s t : Str) → IsNumeric s → IsNumeric t → IsNumeric (s ++ t)
IsNumeric-append [] t h k = k
IsNumeric-append (c ∷ s) t h k = (h.0, h.1, IsNumeric-append s t h.2 k)

IsNumeric-print : (fuel n : ℕ) → IsNumeric (print_digits fuel n)
unfolding print_digits
IsNumeric-print zero n = tt
IsNumeric-print (suc fuel) n = elim (Bool-cases (ltb n 10)) [
  | inl e ↦ rw e (let h = ltb→lt n 10 e in (omega arith, omega arith, tt))
  | inr e ↦ rw e (
      IsNumeric-append (print_digits fuel (n / 10)) _ (IsNumeric-print fuel (n / 10))
        (omega arith, omega arith, tt))
]

-- What is read digit by digit may be read in two parts.
decimal-append : (acc : ℕ) (s t : Str) → decimal acc (s ++ t) ≡ (decimal acc s >>= λ v. decimal v t)
unfolding decimal
decimal-append acc [] t = refl
decimal-append acc (c ∷ s) t = elim (Bool-cases (is_digit c)) [
  | inl e ↦ rw e (decimal-append (acc * 10 + (c - 48)) s t)
  | inr e ↦ rw e
]

decimal-digit : (acc d : ℕ) → d < 10 → decimal acc ((48 + d) ∷ []) ≡ some (acc * 10 + d)
unfolding decimal
decimal-digit acc d h = ground arith

decimal-print : (fuel n : ℕ) → n < fuel → decimal 0 (print_digits fuel n) ≡ some n
unfolding print_digits
decimal-print zero n h = absurd (omega arith)
decimal-print (suc fuel) n h = elim (Bool-cases (ltb n 10)) [
  | inl e ↦ rw e (decimal-digit 0 n (ltb→lt n 10 e) ∙ ap some (omega arith))
  | inr e ↦ rw e (
      decimal-append 0 (print_digits fuel (n / 10)) ((48 + n % 10) ∷ [])
      ∙ rw (decimal-print fuel (n / 10) (ground arith))
          (decimal-digit (n / 10) (n % 10) (omega arith) ∙ ap some (omega arith)))
]

is_empty-snoc : (s : Str) (c : ℕ) → is_empty (s ++ (c ∷ [])) ≡ false
is_empty-snoc [] c = refl
is_empty-snoc (d ∷ s) c = refl

is_empty-print : (fuel n : ℕ) → is_empty (print_digits (suc fuel) n) ≡ false
unfolding print_digits
is_empty-print fuel n = elim (Bool-cases (ltb n 10)) [
  | inl e ↦ rw e
  | inr e ↦ rw e (is_empty-snoc (print_digits fuel (n / 10)) (48 + n % 10))
]

IsNumeric-IsSolid : (s : Str) → IsNumeric s → IsSolid s
unfolding is_space
IsNumeric-IsSolid [] h = tt
IsNumeric-IsSolid (c ∷ s) h = (ground arith, IsNumeric-IsSolid s h.2)

-- A number without a sign is read as it is.
atoi-numeric :
    (s : Str) (n : ℕ)
    → IsNumeric s
    → is_empty s ≡ false
    → decimal 0 s ≡ some n
    → n ≤ 9223372036854775807
    → atoi s ≡ some (up n)
unfolding atoi digits in_range
atoi-numeric [] n h e d b = cc e
atoi-numeric (c ∷ s) n h e d b =
    let minus : (c == 45) ≡ false = ground arith in
    let plus : (c == 43) ≡ false = ground arith in
    let small : leb n 9223372036854775807 ≡ true = ground arith in rw (minus, plus, d, small)

-- A printed number is a word, and Atoi reads it back where it is an int64.
pub print-IsSolid : (n : ℕ) → IsSolid (print_signed (up n))
unfolding print_signed
print-IsSolid n = IsNumeric-IsSolid (print_digits (suc n) n) (IsNumeric-print (suc n) n)

pub print-is_empty : (n : ℕ) → is_empty (print_signed (up n)) ≡ false
unfolding print_signed
print-is_empty n = is_empty-print n n

pub atoi-print : (n : ℕ) → n ≤ 9223372036854775807 → atoi (print_signed (up n)) ≡ some (up n)
unfolding print_signed
atoi-print n h =
    atoi-numeric (print_digits (suc n) n) n (IsNumeric-print (suc n) n) (is_empty-print n n)
      (decimal-print (suc n) n (omega arith)) h
