-- ===== src/Prelude/Text/Digits.antt =====
-- Decimal numbers are read back from their digits.
use Prim.Native.Nat.{ℕ, zero, suc, ◌+◌, ◌-◌, ◌*◌, ◌/◌, ◌%◌, ◌^◌, ◌≤◌, ◌<◌, max}
use mathlib.Core.Path.{◌≡◌, refl, sym, ap, ◌∙◌}
use mathlib.Core.Bool.{Bool, true, false}
use mathlib.Core.Logic.{inl, inr}
use mathlib.Core.List.{List, [], ◌∷◌, ◌++◌, reverse, reverse-append, reverse-reverse}
use mathlib.Core.Option.{some}
use native.Mathlib.Omega.{arith}
use cathub.Prelude.Tests.{ltb, leb, Bool-cases}
use cathub.Prelude.Lists.{length, is_empty, All, All-append, length-append}
use cathub.Prelude.Text.{
  value_from, fits, parse_unsigned, digits, digit_count, padded, power10, trim_front, trim,
}

abbrev pub IsDigit : ℕ → Type 0
IsDigit c = (0x30 ≤ c) × (c ≤ 0x39)

pub digits-IsDigit : (w n : ℕ) → All IsDigit (digits w n)
digits-IsDigit zero n = tt
digits-IsDigit (suc w) n =
    All-append IsDigit (digits w (n / 10)) ((0x30 + n % 10) ∷ []) (digits-IsDigit w (n / 10))
      ((omega arith, omega arith), tt)

value_from-concat :
    (m k c : ℕ) (cs : List ℕ)
    → value_from m cs ≡ some k
    → IsDigit c
    → value_from m (cs ++ c ∷ []) ≡ some (k * 10 + (c - 0x30))
value_from-concat m k c [] e d = ground (arith, e, d)
value_from-concat m k c (x ∷ xs) e d =
    ground (arith, e, d, value_from-concat (m * 10 + (x - 0x30)) k c xs)

value_from-digits : (w n : ℕ) → n < power10 w → value_from 0 (digits w n) ≡ some n
value_from-digits zero n h = ap some (omega arith)
value_from-digits (suc w) n h =
    value_from-concat 0 (n / 10) (0x30 + n % 10) (digits w (n / 10))
      (value_from-digits w (n / 10) (omega arith)) (omega arith, omega arith)
    ∙ ap some (omega arith)

power10_mono : (a b n : ℕ) → n < power10 a → a ≤ b → n < power10 b
power10_mono zero zero n h k = h
power10_mono (suc a) zero n h k = absurd (omega arith)
power10_mono a (suc b) n h k = elim (Bool-cases (leb a b)) [
  | inl le ↦ omega (arith, power10_mono a b n h (below le))
  | inr gt ↦ omega (arith, h, ap power10 (equal_to gt))
]
  where
    below : leb a b ≡ true → a ≤ b
    below e = ground (arith, e)

    equal_to : leb a b ≡ false → a ≡ suc b
    equal_to e = ground (arith, e, k)

digit_count-bound : (w n : ℕ) → n < power10 (suc w) → n < power10 (digit_count w n)
digit_count-bound zero n h = h
digit_count-bound (suc w) n h = elim (Bool-cases (ltb n 10)) [
  | inl short ↦ rw short (ground (arith, short))
  | inr long ↦ rw long (omega (arith, digit_count-bound w (n / 10) (omega arith)))
]

first_digit-trim_front :
    (swapped : Bool) (c : ℕ) (cs : List ℕ) → IsDigit c → trim_front swapped (c ∷ cs) ≡ c ∷ cs
unfolding trim_front
first_digit-trim_front swapped c [] d = ground (arith, d)
first_digit-trim_front true c (x ∷ []) d = ground (arith, d)
first_digit-trim_front false c (x ∷ []) d = ground (arith, d)
first_digit-trim_front true c (x ∷ y ∷ cs) d = ground (arith, d)
first_digit-trim_front false c (x ∷ y ∷ cs) d = ground (arith, d)

-- The last of digits is a digit too.
digits-reverse : (xs : List ℕ) (c : ℕ) → reverse (xs ++ c ∷ []) ≡ c ∷ reverse xs
digits-reverse xs c = reverse-append xs (c ∷ [])

pub trim-digits : (w n : ℕ) → 0 < w → trim (digits w n) ≡ digits w n
unfolding trim
trim-digits zero n h = absurd (omega arith)
trim-digits (suc w) n h =
    ap (λ xs. reverse (trim_front true (reverse xs)))
      (front w (n / 10) (0x30 + n % 10) (omega arith, omega arith))
    ∙ ap (λ xs. reverse (trim_front true xs)) (digits-reverse (digits w (n / 10)) (0x30 + n % 10))
    ∙ ap reverse (
        first_digit-trim_front true (0x30 + n % 10) (reverse (digits w (n / 10)))
          (omega arith, omega arith))
    ∙ ap reverse (sym (digits-reverse (digits w (n / 10)) (0x30 + n % 10)))
    ∙ reverse-reverse (digits (suc w) n)
  where
    lead :
        (xs : List ℕ) (c : ℕ)
        → All IsDigit xs
        → IsDigit c
        → trim_front false (xs ++ c ∷ []) ≡ xs ++ c ∷ []
    lead [] c a d = first_digit-trim_front false c [] d
    lead (x ∷ xs) c a d = first_digit-trim_front false x (xs ++ c ∷ []) a.0

    front : (w m c : ℕ) → IsDigit c → trim_front false (digits w m ++ c ∷ []) ≡ digits w m ++ c ∷ []
    front w m c d = lead (digits w m) c (digits-IsDigit w m) d

parse_unsigned-AllDigits :
    (most : ℕ) (x : ℕ) (xs : List ℕ)
    → IsDigit x
    → parse_unsigned most (x ∷ xs) ≡ fits most (value_from 0 (x ∷ xs))
unfolding parse_unsigned
parse_unsigned-AllDigits most x xs d = ground (arith, d)

pub parse_unsigned-digits :
    (most w n : ℕ) → 0 < w → n < power10 w → n ≤ most → parse_unsigned most (digits w n) ≡ some n
parse_unsigned-digits most w n pos h le =
    whole (digits w n) (digits-IsDigit w n) (nonempty w n pos)
    ∙ ap (fits most) (value_from-digits w n h)
    ∙ fitting
  where
    whole :
        (xs : List ℕ)
        → All IsDigit xs
        → is_empty xs ≡ false
        → parse_unsigned most xs ≡ fits most (value_from 0 xs)
    whole [] a e = cc
    whole (x ∷ xs) a e = parse_unsigned-AllDigits most x xs a.0

    nonempty_append : (xs : List ℕ) (c : ℕ) → is_empty (xs ++ c ∷ []) ≡ false
    nonempty_append [] c = refl
    nonempty_append (x ∷ xs) c = refl

    nonempty : (w n : ℕ) → 0 < w → is_empty (digits w n) ≡ false
    nonempty zero n h = absurd (omega arith)
    nonempty (suc w) n h = nonempty_append (digits w (n / 10)) (0x30 + n % 10)

    fitting : fits most (some n) ≡ some n
    fitting = ground (arith, le)

-- A `u64` that is written in decimal, with zeros before it up to a width, is read back.
pub parse_unsigned-padded :
    (width n : ℕ) → n < 2 ^ 64 → parse_unsigned (2 ^ 64 - 1) (trim (padded width n)) ≡ some n
unfolding padded
parse_unsigned-padded width n h =
    let count = digit_count 19 n in
    ap (parse_unsigned (2 ^ 64 - 1)) (trim-digits (max width count) n positive)
    ∙ parse_unsigned-digits (2 ^ 64 - 1) (max width count) n positive
        (power10_mono count (max width count) n (digit_count-bound 19 n (omega (arith, h)))
          (omega arith))
        (omega (arith, h))
  where
    counted : (w m : ℕ) → 0 < digit_count w m
    counted zero m = omega arith
    counted (suc w) m = ground arith

    positive : 0 < max width (digit_count 19 n)
    positive = omega (arith, counted 19 n)

pub length-digits : (w n : ℕ) → length (digits w n) ≡ w
length-digits zero n = refl
length-digits (suc w) n =
    omega
      (arith, length-append (digits w (n / 10)) ((0x30 + n % 10) ∷ []), length-digits w (n / 10))

digit_count-le : (w n : ℕ) → digit_count w n ≤ suc w
digit_count-le zero n = omega arith
digit_count-le (suc w) n = ground (arith, digit_count-le w (n / 10))

pub length-padded-le : (width n : ℕ) → length (padded width n) ≤ max width 20
unfolding padded
length-padded-le width n =
    omega (arith, length-digits (max width (digit_count 19 n)) n, digit_count-le 19 n)

digit_count-below : (v w n : ℕ) → n < power10 (suc w) → digit_count v n ≤ suc w
digit_count-below zero w n h = omega arith
digit_count-below (suc v) zero n h = ground (arith, h)
digit_count-below (suc v) (suc w) n h =
    ground (arith, digit_count-below v w (n / 10) (omega (arith, h)))

-- A number of at most a width of digits is written in that width.
pub padded-digits : (w n : ℕ) → n < power10 (suc w) → padded (suc w) n ≡ digits (suc w) n
unfolding padded
padded-digits w n h =
    let e : max (suc w) (digit_count 19 n) ≡ suc w = omega (arith, digit_count-below 19 w n h) in
    ap (λ k. digits k n) e
