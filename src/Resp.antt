-- ===== src/Resp.antt =====
-- pkg/protocol/parser.go: the RESP reader. The input is the list of the bytes that are still to
-- come, and it ends where the connection does. A slice made with a negative length is a panic.
pub mod Encoder
pub mod Lines
pub mod RoundTrip
pub mod Fuel
pub mod Heads
pub mod Redirect
mod Tests
use gocache.Prelude.{
  ℕ, zero, suc, ◌-◌, Bool, true, false, Option, none, some, List, [], ◌∷◌, length, take, drop, ltb,
  ◌==◌, if◌then◌else◌,
}
use gocache.Prelude.Int.{ℤ, pos, negsuc}
use gocache.Prelude.Maps.{Bytes}
use gocache.Prelude.Decimal.{parse_int}

-- What Parse returns: a string, an int or a slice. A nil slice has no items, like an empty one.
mutual
  pub data Value : Type 0 where
    str : Bytes → Value
    int : ℤ → Value
    arr : Items → Value

  pub data Items : Type 0 where
    nil : Items
    cons : Value → Items → Items

pub data ParseError : Type 0 where
  eof unexpected_eof unknown_type missing_crlf bad_integer bad_bulk_length bad_array_length
        expected_cr expected_lf :
      ParseError

-- A result with the bytes that are left, a panic, or fuel that ran out.
pub data Parsed {ℓ} (A : Type ℓ) : Type ℓ where
  good : A → Bytes → Parsed A
  bad : ParseError → Bytes → Parsed A
  crash : Parsed A
  starved : Parsed A

infixl 5 ◌>>=◌
abbrev pub ◌>>=◌ {ℓ κ} : {A : Type ℓ} {B : Type κ} → Parsed A → (A → Bytes → Parsed B) → Parsed B
good a rest >>= f = f a rest
bad e rest >>= f = bad e rest
crash >>= f = crash
starved >>= f = starved

-- `r.ReadString('\n')`: what stands before the newline, and what comes after it.
unfoldable pub split_line : Bytes → Option (Bytes × Bytes)
split_line [] = none
split_line (b ∷ bs) =
    let further = split_line bs in
    if b == 10
    then some ([], bs)
    else elim further [ none ↦ none | some (line, rest) ↦ some (b ∷ line, rest) ]

-- The line without its '\r', if it ends so.
unfoldable pub strip_cr : Bytes → Option Bytes
strip_cr [] = none
strip_cr (b ∷ []) = if b == 13 then some [] else none
strip_cr (b ∷ c ∷ bs) = elim (strip_cr (c ∷ bs)) [ none ↦ none | some line ↦ some (b ∷ line) ]

checked_line : Bytes → Option Bytes → Parsed Bytes
checked_line rest none = bad missing_crlf rest
checked_line rest (some line) = good line rest

stripped_line : Option (Bytes × Bytes) → Parsed Bytes
unfolding checked_line
stripped_line none = bad eof []
stripped_line (some (line, rest)) = checked_line rest (strip_cr line)

unfoldable pub read_line : Bytes → Parsed Bytes
unfolding stripped_line
read_line input = stripped_line (split_line input)

-- `strconv.Atoi` with the error of the caller
abbrev pub checked_number : ParseError → Bytes → Option ℤ → Parsed ℤ
checked_number e rest none = bad e rest
checked_number e rest (some z) = good z rest

abbrev pub number : ParseError → Bytes → Bytes → Parsed ℤ
number e line rest = checked_number e rest (parse_int line)

unfoldable pub parse_integer : Bytes → Parsed Value
parse_integer input =
    read_line input >>= λ line rest. number bad_integer line rest >>= λ z rest'. good (int z) rest'

-- `io.ReadFull` into a slice of the given length
unfoldable pub read_full : ℕ → Bytes → Parsed Bytes
read_full zero input = good [] input
read_full (suc n) [] = bad eof []
read_full (suc n) (b ∷ bs) =
    if ltb (length bs) n then bad unexpected_eof [] else good (b ∷ take n bs) (drop n bs)

unfoldable pub expect : ℕ → ParseError → Bytes → Parsed (Unit {0})
expect c e [] = bad e []
expect c e (b ∷ bs) = if b == c then good tt bs else bad e bs

unfoldable pub bulk_data : ℤ → Bytes → Parsed Value
unfolding read_full expect
bulk_data (negsuc zero) input = good (str []) input
bulk_data (negsuc (suc n)) input = crash
bulk_data (pos n) input = read_full n input >>= λ text rest.
    expect 13 expected_cr rest >>= λ _ rest1.
    expect 10 expected_lf rest1 >>= λ _ rest2. good (str text) rest2

unfoldable pub parse_bulk_string : Bytes → Parsed Value
parse_bulk_string input = read_line input >>= λ line rest.
    number bad_bulk_length line rest >>= λ z rest'. bulk_data z rest'

-- The loop of parseArray over its element parser.
unfoldable pub parse_items : (Bytes → Parsed Value) → ℕ → Bytes → Parsed Items
parse_items p zero input = good nil input
parse_items p (suc n) input =
    p input >>= λ v rest. parse_items p n rest >>= λ vs rest'. good (cons v vs) rest'

unfoldable pub array_data : (Bytes → Parsed Value) → ℤ → Bytes → Parsed Value
array_data p (negsuc zero) input = good (arr nil) input
array_data p (negsuc (suc n)) input = crash
array_data p (pos n) input = parse_items p n input >>= λ vs rest. good (arr vs) rest

unfoldable pub parse_array : (Bytes → Parsed Value) → Bytes → Parsed Value
parse_array p input = read_line input >>= λ line rest.
    number bad_array_length line rest >>= λ z rest'. array_data p z rest'

unfoldable pub parse_simple_string : Bytes → Parsed Value
parse_simple_string input = read_line input >>= λ line rest. good (str line) rest

-- The switch of Parse on the first byte.
unfoldable pub parse_typed : (Bytes → Parsed Value) → ℕ → Bytes → Parsed Value
parse_typed p first input =
    if first == b'+'
    then parse_simple_string input
    else if first == b'-'
    then parse_simple_string input
    else if first == b':'
    then parse_integer input
    else if first == b'$'
    then parse_bulk_string input
    else if first == b'*'
    then parse_array p input
    else bad unknown_type input

-- `Parse`; the fuel bounds how deep arrays nest.
unfoldable pub parse : ℕ → Bytes → Parsed Value
parse zero input = starved
parse (suc f) [] = bad eof []
parse (suc f) (first ∷ input) = parse_typed (parse f) first input
