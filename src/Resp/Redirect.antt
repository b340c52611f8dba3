-- ===== src/Resp/Redirect.antt =====
-- pkg/protocol/encoder.go: the MOVED redirect, written and read.
use mathlib.Core.List.{append_assoc}
use gocache.Prelude.{
  ℕ, ◌<◌, ◌^◌, ◌≡◌, refl, sym, ap, ◌∙◌, ◌≢◌, Option, none, some, List, [], ◌∷◌, ◌++◌, arith, All,
  length, ◌==◌, ◌||◌, if◌then◌else◌, true, false, Bool, ite, if_pos, if_neg, length-append,
}
use gocache.Prelude.Int.{ℤ, pos}
use gocache.Prelude.Maps.{Bytes, bytes_discrete}
use gocache.Prelude.Decimal.{format_int, parse_int, parse_int-format_int, format_int-port}
use gocache.Resp.Encoder.{crlf}

pub record RedirectResponse : Type 0 where
  pub leader_host : Bytes
  pub leader_port : Bytes

pub data RedirectError : Type 0 where
  not_a_redirect wrong_parts empty_host empty_port bad_port : RedirectError

pub data RedirectResult : Type 0 where
  ok : RedirectResponse → RedirectResult
  err : RedirectError → RedirectResult

-- "MOVED"
abbrev pub moved : Bytes
moved = b'M' ∷ b'O' ∷ b'V' ∷ b'E' ∷ b'D' ∷ []

unfoldable pub encode_redirect : Bytes → ℤ → Bytes
encode_redirect host port = b'-' ∷ moved ++ (b' ' ∷ host ++ (b':' ∷ format_int port ++ crlf))

-- What follows the prefix, if there is one.
unfoldable pub after_prefix : Bytes → Bytes → Option Bytes
after_prefix [] s = some s
after_prefix (p ∷ ps) [] = none
after_prefix (p ∷ ps) (b ∷ bs) = let rest = after_prefix ps bs in if p == b then rest else none

abbrev pub found : Option Bytes → Bool
found none = false
found (some s) = true

abbrev pub or_else : Option Bytes → Bytes → Bytes
or_else none s = s
or_else (some t) s = t

-- `strings.TrimPrefix`
abbrev pub trim_prefix : Bytes → Bytes → Bytes
trim_prefix p s = or_else (after_prefix p s) s

-- `strings.TrimSuffix(s, "\r\n")`
unfoldable pub trim_crlf : Bytes → Bytes
trim_crlf [] = []
trim_crlf (b ∷ bs) = let rest = trim_crlf bs in ite (bytes_discrete (b ∷ bs) crlf) [] (b ∷ rest)

grow_first : ℕ → List Bytes → List Bytes
grow_first b [] = (b ∷ []) ∷ []
grow_first b (p ∷ ps) = (b ∷ p) ∷ ps

-- `strings.Split` by one byte
unfoldable pub split_on : ℕ → Bytes → List Bytes
unfolding grow_first
split_on c [] = [] ∷ []
split_on c (b ∷ bs) = let parts = split_on c bs in if b == c then [] ∷ parts else grow_first b parts

unfoldable pub is_redirect : Bytes → Bool
is_redirect s = found (after_prefix moved s) || found (after_prefix (b'-' ∷ moved) s)

checked_port : Bytes → Bytes → Option ℤ → RedirectResult
checked_port host port none = err bad_port
checked_port host port (some z) = ok (record { leader_host = host; leader_port = port })

unfoldable pub checked_parts : List Bytes → RedirectResult
unfolding checked_port
checked_parts ([] ∷ port ∷ []) = err empty_host
checked_parts ((h ∷ hs) ∷ [] ∷ []) = err empty_port
checked_parts ((h ∷ hs) ∷ (p ∷ ps) ∷ []) = checked_port (h ∷ hs) (p ∷ ps) (parse_int (p ∷ ps))
checked_parts _ = err wrong_parts

unfoldable pub parse_redirect : Bytes → RedirectResult
parse_redirect response =
    if is_redirect response
    then checked_parts (
        split_on b':' (
          trim_crlf
            (trim_prefix (moved ++ b' ' ∷ []) (trim_prefix (b'-' ∷ moved ++ b' ' ∷ []) response))))
    else err not_a_redirect

-- `Address`
abbrev pub address : RedirectResponse → Bytes
address r = r.leader_host ++ (b':' ∷ r.leader_port)

trim_crlf-append : (xs : Bytes) → trim_crlf (xs ++ crlf) ≡ xs
unfolding trim_crlf
trim_crlf-append [] = if_pos (bytes_discrete crlf crlf) refl [] _
trim_crlf-append (x ∷ xs) =
    if_neg (bytes_discrete (x ∷ xs ++ crlf) crlf)
      (λ e. omega (arith, ap (λ (y : Bytes). length y) e, length-append xs crlf)) _ _
    ∙ ap (◌∷◌ x) (trim_crlf-append xs)

split_on-none : (c : ℕ) (xs : Bytes) → All (λ b. b ≢ c) xs → split_on c xs ≡ xs ∷ []
unfolding split_on
split_on-none c [] h = refl
split_on-none c (x ∷ xs) h = ground (arith, split_on-none c xs h.1)

split_on-append :
    (c : ℕ) (xs ys : Bytes)
    → All (λ b. b ≢ c) xs
    → All (λ b. b ≢ c) ys
    → split_on c (xs ++ c ∷ ys) ≡ xs ∷ ys ∷ []
unfolding split_on
split_on-append c [] ys h k = ground (arith, split_on-none c ys k)
split_on-append c (x ∷ xs) ys h k = ground (arith, split_on-append c xs ys h.1 k)

after_prefix-append : (p s : Bytes) → after_prefix p (p ++ s) ≡ some s
unfolding after_prefix
after_prefix-append [] s = refl
after_prefix-append (b ∷ p) s = ground (arith, after_prefix-append p s)

abbrev redirect_text : Bytes → ℤ → Bytes
redirect_text host port = host ++ (b':' ∷ format_int port ++ crlf)

-- A text without a space does not begin with "MOVED ".
no_moved :
    (s : Bytes)
    → after_prefix (moved ++ b' ' ∷ []) s ≡ none
    → trim_prefix (moved ++ b' ' ∷ []) s ≡ s
no_moved s h = ground (arith, h)

after_moved-none :
    (host rest : Bytes)
    → All (λ b. b ≢ b' ') host
    → after_prefix (moved ++ b' ' ∷ []) (host ++ b':' ∷ rest) ≡ none
unfolding after_prefix
after_moved-none [] rest h = refl
after_moved-none (a ∷ []) rest h = ground arith
after_moved-none (a ∷ b ∷ []) rest h = ground arith
after_moved-none (a ∷ b ∷ c ∷ []) rest h = ground arith
after_moved-none (a ∷ b ∷ c ∷ d ∷ []) rest h = ground arith
after_moved-none (a ∷ b ∷ c ∷ d ∷ e ∷ []) rest h = ground arith
after_moved-none (a ∷ b ∷ c ∷ d ∷ e ∷ g ∷ host) rest h = ground (arith, h.1.1.1.1.1.0)

-- ParseRedirect reads back what EncodeRedirect writes, for a nonempty host without a space or a
-- colon and a port that is a natural number below 2^63.
pub parse_redirect-encode_redirect :
    (h : ℕ) (hs : Bytes) (port : ℕ)
    → All (λ b. b ≢ b' ') (h ∷ hs)
    → All (λ b. b ≢ b':') (h ∷ hs)
    → port < 2 ^ 63
    → parse_redirect (encode_redirect (h ∷ hs) (pos port))
      ≡ ok (record { leader_host = h ∷ hs; leader_port = format_int (pos port) })
unfolding parse_redirect encode_redirect is_redirect checked_parts
parse_redirect-encode_redirect h hs port no_space no_colon small =
    let host = h ∷ hs in
    let (d, ds, at, plain) = format_int-port port in
    let text = host ++ (b':' ∷ format_int (pos port) ++ crlf) in
    let first : after_prefix (b'-' ∷ moved ++ b' ' ∷ []) (b'-' ∷ moved ++ (b' ' ∷ text))
        ≡ some text =
      after_prefix-append (b'-' ∷ moved ++ b' ' ∷ []) text in
    let marked : after_prefix (b'-' ∷ moved) (b'-' ∷ moved ++ (b' ' ∷ text)) ≡ some (b' ' ∷ text) =
      after_prefix-append (b'-' ∷ moved) (b' ' ∷ text) in
    let second = after_moved-none host (format_int (pos port) ++ crlf) no_space in
    let whole : text ≡ (host ++ (b':' ∷ format_int (pos port))) ++ crlf =
      sym (append_assoc host (b':' ∷ format_int (pos port)) crlf) in
    let trimmed : trim_crlf text ≡ host ++ (b':' ∷ format_int (pos port)) =
      ap trim_crlf whole ∙ trim_crlf-append (host ++ (b':' ∷ format_int (pos port))) in
    let parts = split_on-append b':' host (format_int (pos port)) no_colon plain in
    ground (arith, first, marked, second, trimmed, parts, at, parse_int-format_int (pos port) small)
