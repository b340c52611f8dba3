-- ===== src/Resp/Tests.antt =====
-- The protocol package at concrete texts.
use gocache.Prelude.{ℕ, suc, ◌≡◌, refl, [], ◌∷◌, ◌++◌, arith, length, done}
use gocache.Prelude.Int.{pos, negsuc}
use gocache.Prelude.Maps.{Bytes}
use gocache.Prelude.Decimal.{format_int, parse_int, parse_digits}
use gocache.Resp.{
  Items, str, int, arr, nil, cons, good, bad, crash, parse, parse_typed, parse_items, parse_integer,
  parse_bulk_string, parse_simple_string, parse_array, array_data, bulk_data, read_line, split_line,
  strip_cr, read_full, expect, expected_lf,
}
use gocache.Resp.Encoder.{crlf, encode_array}
use gocache.Resp.RoundTrip.{parse-encode_array, parse-negative_length}
use gocache.Resp.Fuel.{Ends, parse-Ends}
use gocache.Resp.Redirect.{encode_redirect, parse_redirect, ok, parse_redirect-encode_redirect}

program : Unit {0}
unfolding parse parse_typed parse_items parse_integer parse_bulk_string parse_simple_string
    parse_array array_data bulk_data read_line split_line strip_cr read_full expect parse_int
    parse_digits
program = tt

-- "*2\r\n$3\r\nGET\r\n:-7\r\n"
abbrev wire : Bytes
wire =
    b'*' ∷ b'2' ∷ 13 ∷ 10 ∷ b'$' ∷ b'3' ∷ 13 ∷ 10 ∷ b'G' ∷ b'E' ∷ b'T' ∷ 13 ∷ 10 ∷ b':' ∷ b'-'
    ∷ b'7' ∷ 13 ∷ 10 ∷ []

wire_parsed :
    parse 9 wire ≡ good (arr (cons (str (b'G' ∷ b'E' ∷ b'T' ∷ [])) (cons (int (negsuc 6)) nil))) []
unfolding program
wire_parsed = refl

-- A bulk string without its last newline.
parse_cut : parse 9 (b'$' ∷ b'1' ∷ 13 ∷ 10 ∷ b'x' ∷ 13 ∷ 13 ∷ []) ≡ bad expected_lf []
unfolding program
parse_cut = refl

abbrev items : Items
items = cons (str (b'x' ∷ [])) (cons (int (negsuc 6)) nil)

parse-encode_array_example :
    (bytes : Bytes) × (encode_array items ≡ done bytes)
    × ((f : ℕ) (rest : Bytes) → parse (suc (suc f)) (bytes ++ rest) ≡ good (arr items) rest)
parse-encode_array_example = parse-encode_array items (omega arith) (omega arith)

parse-Ends_example : Ends (length wire) (parse 19 wire)
parse-Ends_example = parse-Ends 19 wire (omega arith)

parse-negative_length_example :
    (parse 1 (b'*' ∷ format_int (negsuc 1) ++ (crlf ++ [])) ≡ crash)
    × (parse 1 (b'$' ∷ format_int (negsuc 1) ++ (crlf ++ [])) ≡ crash)
parse-negative_length_example = parse-negative_length 0 0 [] (omega arith)

parse_redirect-encode_redirect_example :
    parse_redirect (encode_redirect (b'h' ∷ []) (pos 7000))
    ≡ ok (record { leader_host = b'h' ∷ []; leader_port = format_int (pos 7000) })
parse_redirect-encode_redirect_example =
    parse_redirect-encode_redirect b'h' [] 7000 (omega arith) (omega arith) (omega arith)
