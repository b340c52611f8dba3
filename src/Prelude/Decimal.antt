-- ===== src/Prelude/Decimal.antt =====
-- strconv.Itoa, FormatInt, Atoi and ParseInt in base 10, on 64-bit integers.
use gocache.Prelude.Tests.{ltb, leb, ◌==◌, if◌then◌else◌, lt→ltb, ltb→lt, Bool-cases}
use gocache.Prelude.Lists.{All, All-append, length, length-append}
use gocache.Prelude.Int.{ℤ, pos, negsuc}
use gocache.Prelude.Maps.{Bytes}
use Prim.Native.Nat.{ℕ, zero, suc, ◌+◌, ◌-◌, ◌*◌, ◌/◌, ◌%◌, ◌^◌, ◌≤◌, ◌<◌}
use mathlib.Core.Path.{◌≡◌, refl, sym, ◌∙◌, ap}
use mathlib.Core.Logic.{◌≢◌, inl, inr}
use mathlib.Core.Bool.{Bool, true, false, ◌&&◌}
use mathlib.Core.Option.{Option, none, some}
use mathlib.Core.List.{[], ◌∷◌, ◌++◌}
use native.Mathlib.Omega.{arith}

-- The decimal digits of a number; the fuel is above the number.
unfoldable pub digits : ℕ → ℕ → Bytes
digits zero n = []
digits (suc f) n =
    let front = digits f (n / 10) in if ltb n 10 then (48 + n) ∷ [] else front ++ (48 + n % 10) ∷ []

unfoldable pub format_nat : ℕ → Bytes
unfolding digits
format_nat n = digits (suc n) n

unfoldable pub format_int : ℤ → Bytes
unfolding format_nat
format_int (pos n) = format_nat n
format_int (negsuc n) = 45 ∷ format_nat (suc n)

abbrev pub is_digit : ℕ → Bool
is_digit d = leb 48 d && leb d 57

unfoldable pub parse_digits : ℕ → Bytes → Option ℕ
parse_digits acc [] = some acc
parse_digits acc (d ∷ ds) =
    let rest = parse_digits (acc * 10 + (d - 48)) ds in if is_digit d then rest else none

unsigned : Bytes → Option ℕ
unsigned [] = none
unsigned (d ∷ ds) = parse_digits 0 (d ∷ ds)

-- The range of int64.
in_range : Bool → Option ℕ → Option ℤ
in_range neg none = none
in_range true (some zero) = some (pos zero)
in_range true (some (suc n)) = if leb (suc n) (2 ^ 63) then some (negsuc n) else none
in_range false (some n) = if ltb n (2 ^ 63) then some (pos n) else none

unfoldable pub parse_int : Bytes → Option ℤ
unfolding parse_digits unsigned in_range
parse_int [] = none
parse_int (c ∷ cs) =
    if c == 45
    then in_range true (unsigned cs)
    else if c == 43
    then in_range false (unsigned cs)
    else in_range false (unsigned (c ∷ cs))

parse_digits-snoc :
    (acc d : ℕ) (ds : Bytes) {n : ℕ}
    → parse_digits acc ds ≡ some n
    → is_digit d ≡ true
    → parse_digits acc (ds ++ d ∷ []) ≡ some (n * 10 + (d - 48))
unfolding parse_digits
parse_digits-snoc acc d [] h t = ground arith
parse_digits-snoc acc d (c ∷ ds) h t = elim (Bool-cases (is_digit c)) [
  | inl e ↦ rw e (parse_digits-snoc (acc * 10 + (c - 48)) d ds (ground arith) t)
  | inr e ↦ absurd (ground arith)
]

parse_digits-digits : (f n : ℕ) → n < f → parse_digits 0 (digits f n) ≡ some n
unfolding digits parse_digits
parse_digits-digits zero n h = elim h [ ]
parse_digits-digits (suc f) n h = elim (Bool-cases (ltb n 10)) [
  | inl e ↦ rw e (ground arith)
  | inr e ↦
      let ih = parse_digits-digits f (n / 10) (ground arith) in
      let joined = parse_digits-snoc 0 (48 + n % 10) (digits f (n / 10)) ih (ground arith) in
      rw e (joined ∙ ap some (omega arith))
]

-- The digits are digits, and there is one at least.
digits-cons : (f n : ℕ) → (d : ℕ) × (ds : Bytes) × (digits (suc f) n ≡ d ∷ ds) × (is_digit d ≡ true)
unfolding digits
digits-cons zero n = elim (Bool-cases (ltb n 10)) [
  | inl e ↦ (48 + n, [], rw e refl, ground arith)
  | inr e ↦ (48 + n % 10, [], rw e refl, ground arith)
]
digits-cons (suc f) n = elim (Bool-cases (ltb n 10)) [
  | inl e ↦ (48 + n, [], rw e refl, ground arith)
  | inr e ↦
      let (d, ds, at, t) = digits-cons f (n / 10) in
      (d, ds ++ (48 + n % 10) ∷ [], rw e (ap (λ (x : Bytes). x ++ (48 + n % 10) ∷ []) at), t)
]

-- The integers that an int64 holds.
abbrev pub Fits : ℤ → Type 0
Fits (pos n) = n < 2 ^ 63
Fits (negsuc n) = n < 2 ^ 63

from_digits :
    (d : ℕ) (ds : Bytes) (n : ℕ)
    → is_digit d ≡ true
    → parse_digits 0 (d ∷ ds) ≡ some n
    → n < 2 ^ 63
    → parse_int (d ∷ ds) ≡ some (pos n)
unfolding parse_int
from_digits d ds n t all h =
    let not_minus : (d == 45) ≡ false = ground arith in
    let not_plus : (d == 43) ≡ false = ground arith in rw (not_minus, not_plus, all, lt→ltb _ _ h)

-- ParseInt and Atoi read back what FormatInt and Itoa print.
pub parse_int-format_int : (z : ℤ) → Fits z → parse_int (format_int z) ≡ some z
unfolding parse_int format_int
parse_int-format_int (pos n) h =
    let (d, ds, at, t) = digits-cons n n in
    let all : parse_digits 0 (d ∷ ds) ≡ some n =
      ap (parse_digits 0) (sym at) ∙ parse_digits-digits (suc n) n (omega arith) in
    rw at (from_digits d ds n t all h)
parse_int-format_int (negsuc n) h =
    let (d, ds, at, t) = digits-cons (suc n) (suc n) in
    let all : parse_digits 0 (d ∷ ds) ≡ some (suc n) =
      ap (parse_digits 0) (sym at) ∙ parse_digits-digits (suc (suc n)) (suc n) (omega arith) in
    rw (at, all) (ground arith)

-- No byte of a printed number ends a line.
digits-no_newline : (f n : ℕ) → All (λ b. b ≢ 10) (digits f n)
unfolding digits
digits-no_newline zero n = tt
digits-no_newline (suc f) n = elim (Bool-cases (ltb n 10)) [
  | inl e ↦ rw e (omega arith)
  | inr e ↦ rw e (
      All-append (λ b. b ≢ 10) (digits f (n / 10)) ((48 + n % 10) ∷ [])
        (digits-no_newline f (n / 10)) (omega arith))
]

pub format_int-no_newline : (z : ℤ) → All (λ b. b ≢ 10) (format_int z)
unfolding format_int
format_int-no_newline (pos n) = digits-no_newline (suc n) n
format_int-no_newline (negsuc n) = (omega arith, digits-no_newline (suc (suc n)) (suc n))

digits-no_colon : (f n : ℕ) → All (λ b. b ≢ 58) (digits f n)
unfolding digits
digits-no_colon zero n = tt
digits-no_colon (suc f) n = elim (Bool-cases (ltb n 10)) [
  | inl e ↦ rw e (omega (arith, ltb→lt n 10 e))
  | inr e ↦ rw e (
      All-append (λ b. b ≢ 58) (digits f (n / 10)) ((48 + n % 10) ∷ []) (digits-no_colon f (n / 10))
        (omega arith))
]

-- A printed port has a digit and no colon.
pub format_int-port :
    (n : ℕ)
    → (d : ℕ) × (ds : Bytes) × (format_int (pos n) ≡ d ∷ ds)
      × All (λ b. b ≢ 58) (format_int (pos n))
unfolding format_int
format_int-port n = let (d, ds, at, _) = digits-cons n n in (d, ds, at, digits-no_colon (suc n) n)

length-digits : (f n : ℕ) → length (digits f n) ≤ suc (n / 10)
unfolding digits
length-digits zero n = omega arith
length-digits (suc f) n = elim (Bool-cases (ltb n 10)) [
  | inl t ↦ rw t (omega arith)
  | inr t ↦
      let big : 10 ≤ n = ground arith in
      rw (t, length-append (digits f (n / 10)) ((48 + n % 10) ∷ []))
        (omega (arith, length-digits f (n / 10), big))
]

-- A number of 64 bits is printed in fewer than 2^63 bytes.
pub length-format_int : (z : ℤ) → Fits z → length (format_int z) < 2 ^ 63
unfolding format_int
length-format_int (pos n) h = omega (arith, length-digits (suc n) n)
length-format_int (negsuc n) h = omega (arith, length-digits (suc (suc n)) (suc n))
