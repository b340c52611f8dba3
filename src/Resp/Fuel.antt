-- ===== src/Resp/Fuel.antt =====
-- pkg/protocol/parser.go: the reader ends on every input.
use gocache.Prelude.{
  ℕ, zero, suc, ◌≤◌, ◌<◌, ◌≡◌, inl, inr, Option, none, some, [], ◌∷◌, arith, length, drop, ltb,
  ◌==◌, if◌then◌else◌, true, false, Bool, Bool-cases, Option-cases,
}
use gocache.Prelude.Int.{ℤ, pos, negsuc}
use gocache.Prelude.Maps.{Bytes}
use gocache.Prelude.Decimal.{parse_int}
use gocache.Resp.{
  Value, Parsed, good, bad, crash, starved, ParseError, parse, parse_typed, parse_items,
  parse_integer, parse_bulk_string, bulk_data, expect, parse_simple_string, parse_array, array_data,
  ◌>>=◌, read_line, number, checked_number, bad_integer, bad_bulk_length, bad_array_length,
  expected_cr, expected_lf, str, int, arr, cons, read_full, split_line, strip_cr,
}

-- The fuel did not run out, and no more than `n` bytes are left.
abbrev pub Ends {ℓ} : {A : Type ℓ} → ℕ → Parsed A → Type 0
Ends n (good a rest) = length rest ≤ n
Ends n (bad e rest) = length rest ≤ n
Ends n crash = Unit
Ends n starved = ⊥

Ends-bind {ℓ κ} :
    {A : Type ℓ} {B : Type κ} (n : ℕ) (m : Parsed A) (f : A → Bytes → Parsed B)
    → Ends n m
    → ((a : A) (rest : Bytes) → length rest ≤ n → Ends n (f a rest))
    → Ends n (m >>= f)
Ends-bind n (good a rest) f h k = k a rest h
Ends-bind n (bad e rest) f h k = h
Ends-bind n crash f h k = tt
Ends-bind n starved f h k = h

Ends-weaken {ℓ} : {A : Type ℓ} (k n : ℕ) (m : Parsed A) → k ≤ n → Ends k m → Ends n m
Ends-weaken k n (good a rest) le h = omega arith
Ends-weaken k n (bad e rest) le h = omega arith
Ends-weaken k n crash le h = tt
Ends-weaken k n starved le h = h

split_line-shorter :
    (input line rest : Bytes) → split_line input ≡ some (line, rest) → length rest ≤ length input
unfolding split_line
split_line-shorter [] line rest h = cc
split_line-shorter (b ∷ bs) line rest h = elim (Option-cases (split_line bs)) [
  | inl e ↦ ground (arith, e)
  | inr ((l, r), e) ↦ ground (arith, e, split_line-shorter bs l r e)
]

read_line-Ends : (input : Bytes) → Ends (length input) (read_line input)
unfolding read_line
read_line-Ends input = elim (Option-cases (split_line input)) [
  | inl e ↦ rw e (omega arith)
  | inr ((line, rest), e) ↦
      let short = split_line-shorter input line rest e in
      elim (Option-cases (strip_cr line)) [ inl t ↦ rw (e, t) short | inr (l, t) ↦ rw (e, t) short ]
]

number-Ends :
    (n : ℕ) (e : ParseError) (o : Option ℤ) (rest : Bytes)
    → length rest ≤ n
    → Ends n (checked_number e rest o)
number-Ends n e none rest h = h
number-Ends n e (some z) rest h = h

-- A number on a line, and then something that ends.
header-Ends {ℓ} :
    {A : Type ℓ} (e : ParseError) (k : ℤ → Bytes → Parsed A) (n : ℕ) (input : Bytes)
    → length input ≤ n
    → ((z : ℤ) (rest : Bytes) → length rest ≤ n → Ends n (k z rest))
    → Ends n (read_line input >>= λ line rest. number e line rest >>= λ z rest'. k z rest')
header-Ends e k n input h ends =
    Ends-bind n (read_line input) (λ line rest. number e line rest >>= λ z rest'. k z rest')
      (Ends-weaken (length input) n (read_line input) h (read_line-Ends input))
      (λ line rest le.
        Ends-bind n (number e line rest) (λ z rest'. k z rest')
          (number-Ends n e (parse_int line) rest le) ends)

length-drop-le : (n : ℕ) (xs : Bytes) → length (drop n xs) ≤ length xs
length-drop-le zero xs = omega arith
length-drop-le (suc n) [] = omega arith
length-drop-le (suc n) (x ∷ xs) = omega (arith, length-drop-le n xs)

read_full-Ends : (k n : ℕ) (input : Bytes) → length input ≤ n → Ends n (read_full k input)
unfolding read_full
read_full-Ends zero n input h = h
read_full-Ends (suc k) n [] h = omega arith
read_full-Ends (suc k) n (b ∷ bs) h = elim (Bool-cases (ltb (length bs) k)) [
  | inl t ↦ rw t (omega arith)
  | inr f ↦ rw f (omega (arith, length-drop-le k bs))
]

expect-Ends :
    (c : ℕ) (e : ParseError) (n : ℕ) (input : Bytes) → length input ≤ n → Ends n (expect c e input)
unfolding expect
expect-Ends c e n [] h = omega arith
expect-Ends c e n (b ∷ bs) h = elim (Bool-cases (b == c)) [
  | inl t ↦ rw t (omega arith)
  | inr f ↦ rw f (omega arith)
]

bulk_data-Ends : (n : ℕ) (z : ℤ) (input : Bytes) → length input ≤ n → Ends n (bulk_data z input)
unfolding bulk_data
bulk_data-Ends n (negsuc zero) input h = h
bulk_data-Ends n (negsuc (suc k)) input h = tt
bulk_data-Ends n (pos k) input h =
    Ends-bind n (read_full k input)
      (λ text rest. expect 13 expected_cr rest >>= λ _ rest1.
        expect 10 expected_lf rest1 >>= λ _ rest2. good (str text) rest2)
      (read_full-Ends k n input h)
      (λ text rest le.
        Ends-bind n (expect 13 expected_cr rest)
          (λ _ rest1. expect 10 expected_lf rest1 >>= λ _ rest2. good (str text) rest2)
          (expect-Ends 13 expected_cr n rest le)
          (λ _ rest1 le1.
            Ends-bind n (expect 10 expected_lf rest1) (λ _ rest2. good (str text) rest2)
              (expect-Ends 10 expected_lf n rest1 le1) (λ _ rest2 le2. le2)))

parse_items-Ends :
    (p : Bytes → Parsed Value) (n : ℕ)
    → ((input : Bytes) → length input ≤ n → Ends n (p input))
    → (k : ℕ) (input : Bytes) → length input ≤ n
    → Ends n (parse_items p k input)
unfolding parse_items
parse_items-Ends p n ends zero input h = h
parse_items-Ends p n ends (suc k) input h =
    Ends-bind n (p input) (λ v rest. parse_items p k rest >>= λ vs rest'. good (cons v vs) rest')
      (ends input h)
      (λ v rest le.
        Ends-bind n (parse_items p k rest) (λ vs rest'. good (cons v vs) rest')
          (parse_items-Ends p n ends k rest le) (λ vs rest' le'. le'))

array_data-Ends :
    (p : Bytes → Parsed Value) (n : ℕ)
    → ((input : Bytes) → length input ≤ n → Ends n (p input))
    → (z : ℤ) (input : Bytes) → length input ≤ n
    → Ends n (array_data p z input)
unfolding array_data
array_data-Ends p n ends (negsuc zero) input h = h
array_data-Ends p n ends (negsuc (suc k)) input h = tt
array_data-Ends p n ends (pos k) input h =
    Ends-bind n (parse_items p k input) (λ vs rest. good (arr vs) rest)
      (parse_items-Ends p n ends k input h) (λ vs rest le. le)

Ends-if {ℓ} :
    {A : Type ℓ} (n : ℕ) (t : Bool) (a b : Parsed A)
    → Ends n a
    → Ends n b
    → Ends n (if t then a else b)
Ends-if n true a b x y = x
Ends-if n false a b x y = y

parse_typed-Ends :
    (p : Bytes → Parsed Value) (n : ℕ)
    → ((input : Bytes) → length input ≤ n → Ends n (p input))
    → (first : ℕ) (input : Bytes) → length input ≤ n
    → Ends n (parse_typed p first input)
unfolding parse_typed parse_simple_string parse_integer parse_bulk_string parse_array
parse_typed-Ends p n ends first input h =
    let line : Ends n (read_line input >>= λ l rest. good (str l) rest) =
      Ends-bind n (read_line input) (λ l rest. good (str l) rest)
        (Ends-weaken (length input) n (read_line input) h (read_line-Ends input))
        (λ l rest le. le) in
    let ints = header-Ends bad_integer (λ z rest. good (int z) rest) n input h (λ z rest le. le) in
    let bulks = header-Ends bad_bulk_length bulk_data n input h (bulk_data-Ends n) in
    let arrays = header-Ends bad_array_length (array_data p) n input h (array_data-Ends p n ends) in
    Ends-if n (first == b'+') _ _ line (
      Ends-if n (first == b'-') _ _ line (
        Ends-if n (first == b':') _ _ ints
          (Ends-if n (first == b'$') _ _ bulks (Ends-if n (first == b'*') _ _ arrays h))))

-- With more fuel than bytes Parse ends, with a value, an error or a panic, and leaves no more
-- bytes than it was given, on an error too.
pub parse-Ends : (f : ℕ) (input : Bytes) → length input < f → Ends (length input) (parse f input)
unfolding parse
parse-Ends zero input h = elim h [ ]
parse-Ends (suc f) [] h = omega arith
parse-Ends (suc f) (first ∷ input) h =
    Ends-weaken (length input) (suc (length input)) (parse_typed (parse f) first input)
      (omega arith)
      (parse_typed-Ends (parse f) (length input)
        (λ rest le.
          Ends-weaken (length rest) (length input) (parse f rest) le
            (parse-Ends f rest (omega arith)))
        first input (omega arith))

-- Each call takes at least one byte, if there is one.
pub parse-Ends_cons :
    (f first : ℕ) (input : Bytes)
    → length input < f
    → Ends (length input) (parse (suc f) (first ∷ input))
unfolding parse
parse-Ends_cons f first input h =
    parse_typed-Ends (parse f) (length input)
      (λ rest le.
        Ends-weaken (length rest) (length input) (parse f rest) le
          (parse-Ends f rest (omega arith)))
      first input (omega arith)
