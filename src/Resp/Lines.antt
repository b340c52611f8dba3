-- ===== src/Resp/Lines.antt =====
-- The line reader of pkg/protocol/parser.go on what pkg/protocol/encoder.go writes.
use mathlib.Core.List.{append_assoc}
use gocache.Prelude.{
  ◌≡◌, refl, sym, ap, ◌≢◌, some, [], ◌∷◌, ◌++◌, arith, All, length, take, drop, ltb, length-append,
  false,
}
use gocache.Prelude.Int.{ℤ}
use gocache.Prelude.Maps.{Bytes}
use gocache.Prelude.Decimal.{format_int, Fits, parse_int-format_int, format_int-no_newline}
use gocache.Resp.{good, split_line, strip_cr, read_line, read_full, number, ParseError, ◌>>=◌}
use gocache.Resp.Encoder.{crlf}

split_line-append :
    (xs rest : Bytes) → All (λ b. b ≢ 10) xs → split_line (xs ++ 10 ∷ rest) ≡ some (xs, rest)
unfolding split_line
split_line-append [] rest h = refl
split_line-append (b ∷ xs) rest h = ground (arith, split_line-append xs rest h.1)

strip_cr-append : (xs : Bytes) → strip_cr (xs ++ 13 ∷ []) ≡ some xs
unfolding strip_cr
strip_cr-append [] = refl
strip_cr-append (b ∷ []) = refl
strip_cr-append (b ∷ c ∷ xs) = rw (strip_cr-append (c ∷ xs)) refl

no_newline-snoc : (xs : Bytes) → All (λ b. b ≢ 10) xs → All (λ b. b ≢ 10) (xs ++ 13 ∷ [])
no_newline-snoc [] h = omega arith
no_newline-snoc (b ∷ xs) h = (h.0, no_newline-snoc xs h.1)

-- A line without a newline in it is read back, with what follows it.
pub read_line-append :
    (xs rest : Bytes) → All (λ b. b ≢ 10) xs → read_line (xs ++ (crlf ++ rest)) ≡ good xs rest
unfolding read_line
read_line-append xs rest h =
    let whole : xs ++ (crlf ++ rest) ≡ (xs ++ 13 ∷ []) ++ 10 ∷ rest =
      sym (append_assoc xs (13 ∷ []) (10 ∷ rest)) in
    let line = split_line-append (xs ++ 13 ∷ []) rest (no_newline-snoc xs h) in
    rw (whole, line, strip_cr-append xs) refl

-- A printed length or integer, with its type byte gone.
pub read_number :
    (z : ℤ) (e : ParseError) (rest : Bytes)
    → Fits z
    → (read_line (format_int z ++ (crlf ++ rest)) >>= λ line r. number e line r) ≡ good z rest
read_number z e rest h = ground (
  arith,
  read_line-append (format_int z) rest (format_int-no_newline z),
  parse_int-format_int z h,
)

take-length : (xs rest : Bytes) → take (length xs) (xs ++ rest) ≡ xs
take-length [] rest = refl
take-length (x ∷ xs) rest = ap (◌∷◌ x) (take-length xs rest)

drop-length : (xs rest : Bytes) → drop (length xs) (xs ++ rest) ≡ rest
drop-length [] rest = refl
drop-length (x ∷ xs) rest = drop-length xs rest

-- ReadFull takes exactly the bytes of the text.
pub read_full-append : (xs rest : Bytes) → read_full (length xs) (xs ++ rest) ≡ good xs rest
unfolding read_full
read_full-append [] rest = refl
read_full-append (x ∷ xs) rest =
    let enough : ltb (length (xs ++ rest)) (length xs) ≡ false =
      ground (arith, length-append xs rest) in
    rw (enough, take-length xs rest, drop-length xs rest) refl
