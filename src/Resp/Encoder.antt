-- ===== src/Resp/Encoder.antt =====
-- pkg/protocol/encoder.go: the RESP writer.
use gocache.Prelude.{ℕ, suc, Bool, true, false, [], ◌∷◌, ◌++◌, length, Outcome, done, panic, ◌>>=◌}
use gocache.Prelude.Int.{ℤ, pos}
use gocache.Prelude.Maps.{Bytes}
use gocache.Prelude.Decimal.{format_nat, format_int}
use gocache.Resp.{Value, Items, str, int, arr, nil, cons}

abbrev pub crlf : Bytes
crlf = 13 ∷ 10 ∷ []

unfoldable pub encode_simple_string : Bytes → Bytes
encode_simple_string s = b'+' ∷ s ++ crlf

unfoldable pub encode_error : Bytes → Bytes
encode_error s = b'-' ∷ s ++ crlf

unfoldable pub encode_integer : ℤ → Bytes
encode_integer n = b':' ∷ format_int n ++ crlf

unfoldable pub encode_bulk_string : Bytes → Bool → Bytes
encode_bulk_string s true = b'$' ∷ b'-' ∷ b'1' ∷ crlf
encode_bulk_string s false = b'$' ∷ format_int (pos (length s)) ++ (crlf ++ (s ++ crlf))

abbrev pub count : Items → ℕ
count nil = 0
count (cons v vs) = suc (count vs)

-- The type switch of EncodeArray: strings, ints and int64s, and a panic on any other type.
unfoldable pub encode_element : Value → Outcome Bytes
encode_element (str s) = done (encode_bulk_string s false)
encode_element (int z) = done (encode_integer z)
encode_element (arr vs) = panic

unfoldable pub encode_elements : Items → Outcome Bytes
unfolding encode_element
encode_elements nil = done []
encode_elements (cons v vs) = do
  first ← encode_element v
  rest ← encode_elements vs
  done (first ++ rest)

unfoldable pub encode_array : Items → Outcome Bytes
unfolding encode_elements
encode_array vs = do
  body ← encode_elements vs
  done (b'*' ∷ format_int (pos (count vs)) ++ (crlf ++ body))

abbrev pub triple : Value → Value → Value → Items
triple a b c = cons a (cons b (cons c nil))

-- "message", "subscribe" and "unsubscribe"
abbrev pub message_word : Bytes
message_word = b'm' ∷ b'e' ∷ b's' ∷ b's' ∷ b'a' ∷ b'g' ∷ b'e' ∷ []

abbrev pub subscribe_word : Bytes
subscribe_word = b's' ∷ b'u' ∷ b'b' ∷ b's' ∷ b'c' ∷ b'r' ∷ b'i' ∷ b'b' ∷ b'e' ∷ []

abbrev pub unsubscribe_word : Bytes
unsubscribe_word = b'u' ∷ b'n' ∷ subscribe_word

unfoldable pub encode_pub_sub_message : Bytes → Bytes → Outcome Bytes
encode_pub_sub_message channel message =
    encode_array (triple (str message_word) (str channel) (str message))

unfoldable pub encode_subscribe_confirmation : Bytes → ℕ → Outcome Bytes
encode_subscribe_confirmation channel n =
    encode_array (triple (str subscribe_word) (str channel) (int (pos n)))

unfoldable pub encode_unsubscribe_confirmation : Bytes → ℕ → Outcome Bytes
encode_unsubscribe_confirmation [] n = done (
    b'*' ∷ b'3' ∷ crlf
    ++ (encode_bulk_string unsubscribe_word false
        ++ (b'$' ∷ b'-' ∷ b'1' ∷ crlf ++ (b':' ∷ format_nat n ++ crlf))))
encode_unsubscribe_confirmation (b ∷ channel) n =
    encode_array (triple (str unsubscribe_word) (str (b ∷ channel)) (int (pos n)))

unfoldable pub encode_publish_response : ℕ → Bytes
encode_publish_response n = encode_integer (pos n)
