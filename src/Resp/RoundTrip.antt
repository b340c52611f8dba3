-- ===== src/Resp/RoundTrip.antt =====
-- pkg/protocol: what the encoder writes, the parser reads back.
use mathlib.Core.List.{append_assoc}
use gocache.Prelude.{
  ℕ, suc, ◌^◌, ◌<◌, ◌≡◌, refl, ◌∙◌, ◌≢◌, [], ◌∷◌, ◌++◌, arith, All, length, false, done,
}
use gocache.Prelude.Int.{ℤ, pos, negsuc}
use gocache.Prelude.Maps.{Bytes}
use gocache.Prelude.Decimal.{format_int, Fits, parse_int-format_int, format_int-no_newline}
use gocache.Resp.{
  Value, Items, str, int, arr, nil, cons, Parsed, ParseError, good, crash, parse, parse_typed,
  parse_items, parse_integer, parse_bulk_string, bulk_data, parse_simple_string, parse_array,
  array_data, ◌>>=◌, read_line, number, bad_integer, bad_bulk_length, bad_array_length,
}
use gocache.Resp.Encoder.{
  crlf, encode_integer, encode_bulk_string, encode_simple_string, encode_error, encode_elements,
  encode_array, encode_element, count,
}
use gocache.Resp.Lines.{read_line-append, read_full-append}

-- A string of fewer than 2^63 bytes, an int64, or a slice of such within the limits of int.
abbrev pub Sendable : Value → Type 0
Sendable (str s) = length s < 2 ^ 63
Sendable (int z) = Fits z
Sendable (arr vs) = ⊥

abbrev pub AllSendable : Items → Type 0
AllSendable nil = Unit
AllSendable (cons v vs) = Sendable v × AllSendable vs

bulk-lem : (s rest : Bytes) → bulk_data (pos (length s)) (s ++ (crlf ++ rest)) ≡ good (str s) rest
unfolding bulk_data
bulk-lem s rest = ground (arith, read_full-append s (crlf ++ rest))

number-lem :
    (z : ℤ) (e : ParseError) (k : ℤ → Bytes → Parsed Value) (rest : Bytes)
    → Fits z
    → (read_line (format_int z ++ (crlf ++ rest)) >>= λ line r. number e line r >>= k) ≡ k z rest
number-lem z e k rest h = ground (
  arith,
  read_line-append (format_int z) rest (format_int-no_newline z),
  parse_int-format_int z h,
)

parse-str :
    (f : ℕ) (s rest : Bytes)
    → length s < 2 ^ 63
    → parse (suc f) (encode_bulk_string s false ++ rest) ≡ good (str s) rest
unfolding parse parse_typed parse_bulk_string encode_bulk_string
parse-str f s rest h = simp append_assoc (
    number-lem (pos (length s)) bad_bulk_length bulk_data (s ++ (crlf ++ rest)) h ∙ bulk-lem s rest)

parse-int :
    (f : ℕ) (z : ℤ) (rest : Bytes)
    → Fits z
    → parse (suc f) (encode_integer z ++ rest) ≡ good (int z) rest
unfolding parse parse_typed parse_integer encode_integer
parse-int f z rest h = simp append_assoc (number-lem z bad_integer (λ z r. good (int z) r) rest h)

-- Each element is written without a panic and read back, whatever follows it.
element-lem :
    (v : Value)
    → Sendable v
    → (bytes : Bytes) × (encode_element v ≡ done bytes)
      × ((f : ℕ) (rest : Bytes) → parse (suc f) (bytes ++ rest) ≡ good v rest)
unfolding encode_element
element-lem (str s) h = (encode_bulk_string s false, refl, λ f rest. parse-str f s rest h)
element-lem (int z) h = (encode_integer z, refl, λ f rest. parse-int f z rest h)
element-lem (arr vs) h = absurd h

elements-lem :
    (vs : Items)
    → AllSendable vs
    → (bytes : Bytes) × (encode_elements vs ≡ done bytes)
      × ((f : ℕ) (rest : Bytes)
          → parse_items (parse (suc f)) (count vs) (bytes ++ rest) ≡ good vs rest)
unfolding encode_elements parse_items
elements-lem nil h = ([], refl, λ f rest. refl)
elements-lem (cons v vs) h =
    let (first, ran, back) = element-lem v h.0 in
    let (rest, rans, backs) = elements-lem vs h.1 in
    (
      first ++ rest,
      ground (arith, ran, rans),
      λ f more. simp append_assoc (ground (arith, back f (rest ++ more), backs f more)),
    )

array-lem :
    (f : ℕ) (vs : Items) (body rest : Bytes)
    → count vs < 2 ^ 63
    → parse_items (parse (suc f)) (count vs) (body ++ rest) ≡ good vs rest
    → parse (suc (suc f)) ((b'*' ∷ format_int (pos (count vs)) ++ (crlf ++ body)) ++ rest)
      ≡ good (arr vs) rest
unfolding parse parse_typed parse_array array_data
array-lem f vs body rest small back = simp append_assoc (
    number-lem (pos (count vs)) bad_array_length (array_data (parse (suc f))) (body ++ rest) small
    ∙ ground (arith, back))

-- For an array with fewer than 2^63 elements, strings shorter than 2^63 and integers of 64 bits,
-- EncodeArray does not panic, and Parse reads back the same array from its output and leaves what
-- follows.
pub parse-encode_array :
    (vs : Items)
    → AllSendable vs
    → count vs < 2 ^ 63
    → (bytes : Bytes) × (encode_array vs ≡ done bytes)
      × ((f : ℕ) (rest : Bytes) → parse (suc (suc f)) (bytes ++ rest) ≡ good (arr vs) rest)
unfolding encode_array
parse-encode_array vs h small =
    let (body, ran, back) = elements-lem vs h in
    (
      b'*' ∷ format_int (pos (count vs)) ++ (crlf ++ body),
      ground (arith, ran),
      λ f rest. array-lem f vs body rest small (back f rest),
    )

-- EncodeSimpleString and EncodeError are read back as the text, if it holds no newline.
pub parse-encode_line :
    (f : ℕ) (s rest : Bytes)
    → All (λ b. b ≢ 10) s
    → (parse (suc f) (encode_simple_string s ++ rest) ≡ good (str s) rest)
      × (parse (suc f) (encode_error s ++ rest) ≡ good (str s) rest)
unfolding parse parse_typed parse_simple_string encode_simple_string encode_error
parse-encode_line f s rest h = (
  simp append_assoc (ground (arith, read_line-append s rest h)),
  simp append_assoc (ground (arith, read_line-append s rest h)),
)

-- Parse panics on an array or a bulk string whose length is between -2 and -2^63, whatever
-- follows.
pub parse-negative_length :
    (f n : ℕ) (rest : Bytes)
    → suc n < 2 ^ 63
    → (parse (suc f) (b'*' ∷ format_int (negsuc (suc n)) ++ (crlf ++ rest)) ≡ crash)
      × (parse (suc f) (b'$' ∷ format_int (negsuc (suc n)) ++ (crlf ++ rest)) ≡ crash)
unfolding parse parse_typed parse_array parse_bulk_string array_data bulk_data
parse-negative_length f n rest h = (
  number-lem (negsuc (suc n)) bad_array_length (array_data (parse f)) rest h,
  number-lem (negsuc (suc n)) bad_bulk_length bulk_data rest h,
)
