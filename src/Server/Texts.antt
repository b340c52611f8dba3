-- ===== src/Server/Texts.antt =====
-- internal/server/handler.go: the names of the commands and the texts of the replies.
use gocache.Prelude.{[], ◌∷◌}
use gocache.Prelude.Maps.{Bytes}

-- "EX"
abbrev pub ex : Bytes
ex = b'E' ∷ b'X' ∷ []

-- "GET"
abbrev pub get_word : Bytes
get_word = b'G' ∷ b'E' ∷ b'T' ∷ []

-- "DBSIZE"
abbrev pub dbsize_word : Bytes
dbsize_word = b'D' ∷ b'B' ∷ b'S' ∷ b'I' ∷ b'Z' ∷ b'E' ∷ []

-- "PING"
abbrev pub ping_word : Bytes
ping_word = b'P' ∷ b'I' ∷ b'N' ∷ b'G' ∷ []

-- "MULTI"
abbrev pub multi_word : Bytes
multi_word = b'M' ∷ b'U' ∷ b'L' ∷ b'T' ∷ b'I' ∷ []

-- "EXEC"
abbrev pub exec_word : Bytes
exec_word = b'E' ∷ b'X' ∷ b'E' ∷ b'C' ∷ []

-- "DISCARD"
abbrev pub discard_word : Bytes
discard_word = b'D' ∷ b'I' ∷ b'S' ∷ b'C' ∷ b'A' ∷ b'R' ∷ b'D' ∷ []

-- "SUBSCRIBE"
abbrev pub subscribe_command : Bytes
subscribe_command = b'S' ∷ b'U' ∷ b'B' ∷ b'S' ∷ b'C' ∷ b'R' ∷ b'I' ∷ b'B' ∷ b'E' ∷ []

-- "UNSUBSCRIBE"
abbrev pub unsubscribe_command : Bytes
unsubscribe_command =
    b'U' ∷ b'N' ∷ b'S' ∷ b'U' ∷ b'B' ∷ b'S' ∷ b'C' ∷ b'R' ∷ b'I' ∷ b'B' ∷ b'E' ∷ []

-- "PUBLISH"
abbrev pub publish_command : Bytes
publish_command = b'P' ∷ b'U' ∷ b'B' ∷ b'L' ∷ b'I' ∷ b'S' ∷ b'H' ∷ []

-- "PSUBSCRIBE"
abbrev pub psubscribe_command : Bytes
psubscribe_command = b'P' ∷ b'S' ∷ b'U' ∷ b'B' ∷ b'S' ∷ b'C' ∷ b'R' ∷ b'I' ∷ b'B' ∷ b'E' ∷ []

-- "PUNSUBSCRIBE"
abbrev pub punsubscribe_command : Bytes
punsubscribe_command =
    b'P' ∷ b'U' ∷ b'N' ∷ b'S' ∷ b'U' ∷ b'B' ∷ b'S' ∷ b'C' ∷ b'R' ∷ b'I' ∷ b'B' ∷ b'E' ∷ []

-- "CLUSTER"
abbrev pub cluster_command : Bytes
cluster_command = b'C' ∷ b'L' ∷ b'U' ∷ b'S' ∷ b'T' ∷ b'E' ∷ b'R' ∷ []

-- "QUIT"
abbrev pub quit_word : Bytes
quit_word = b'Q' ∷ b'U' ∷ b'I' ∷ b'T' ∷ []

-- "OK"
abbrev pub ok_text : Bytes
ok_text = b'O' ∷ b'K' ∷ []

-- "PONG"
abbrev pub pong : Bytes
pong = b'P' ∷ b'O' ∷ b'N' ∷ b'G' ∷ []

-- "QUEUED"
abbrev pub queued : Bytes
queued = b'Q' ∷ b'U' ∷ b'E' ∷ b'U' ∷ b'E' ∷ b'D' ∷ []

-- "ERR only (P)SUBSCRIBE / (P)UNSUBSCRIBE / PING / QUIT allowed in this context"
abbrev pub subscriber_only : Bytes
subscriber_only =
    b'E' ∷ b'R' ∷ b'R' ∷ b' ' ∷ b'o' ∷ b'n' ∷ b'l' ∷ b'y' ∷ b' ' ∷ b'(' ∷ b'P' ∷ b')' ∷ b'S' ∷ b'U'
    ∷ b'B' ∷ b'S' ∷ b'C' ∷ b'R' ∷ b'I' ∷ b'B' ∷ b'E' ∷ b' ' ∷ b'/' ∷ b' ' ∷ b'(' ∷ b'P' ∷ b')'
    ∷ b'U' ∷ b'N' ∷ b'S' ∷ b'U' ∷ b'B' ∷ b'S' ∷ b'C' ∷ b'R' ∷ b'I' ∷ b'B' ∷ b'E' ∷ b' ' ∷ b'/'
    ∷ b' ' ∷ b'P' ∷ b'I' ∷ b'N' ∷ b'G' ∷ b' ' ∷ b'/' ∷ b' ' ∷ b'Q' ∷ b'U' ∷ b'I' ∷ b'T' ∷ b' '
    ∷ b'a' ∷ b'l' ∷ b'l' ∷ b'o' ∷ b'w' ∷ b'e' ∷ b'd' ∷ b' ' ∷ b'i' ∷ b'n' ∷ b' ' ∷ b't' ∷ b'h'
    ∷ b'i' ∷ b's' ∷ b' ' ∷ b'c' ∷ b'o' ∷ b'n' ∷ b't' ∷ b'e' ∷ b'x' ∷ b't' ∷ []

-- "ERR command '"
abbrev pub err_command : Bytes
err_command =
    b'E' ∷ b'R' ∷ b'R' ∷ b' ' ∷ b'c' ∷ b'o' ∷ b'm' ∷ b'm' ∷ b'a' ∷ b'n' ∷ b'd' ∷ b' ' ∷ 39 ∷ []

-- " cannot be used in a transaction"
abbrev pub not_in_transaction : Bytes
not_in_transaction =
    b' ' ∷ b'c' ∷ b'a' ∷ b'n' ∷ b'n' ∷ b'o' ∷ b't' ∷ b' ' ∷ b'b' ∷ b'e' ∷ b' ' ∷ b'u' ∷ b's' ∷ b'e'
    ∷ b'd' ∷ b' ' ∷ b'i' ∷ b'n' ∷ b' ' ∷ b'a' ∷ b' ' ∷ b't' ∷ b'r' ∷ b'a' ∷ b'n' ∷ b's' ∷ b'a'
    ∷ b'c' ∷ b't' ∷ b'i' ∷ b'o' ∷ b'n' ∷ []

-- "ERR Unknown command '"
abbrev pub unknown_upper : Bytes
unknown_upper =
    b'E' ∷ b'R' ∷ b'R' ∷ b' ' ∷ b'U' ∷ b'n' ∷ b'k' ∷ b'n' ∷ b'o' ∷ b'w' ∷ b'n' ∷ b' ' ∷ b'c' ∷ b'o'
    ∷ b'm' ∷ b'm' ∷ b'a' ∷ b'n' ∷ b'd' ∷ b' ' ∷ 39 ∷ []

-- "ERR unknown command '"
abbrev pub unknown_lower : Bytes
unknown_lower =
    b'E' ∷ b'R' ∷ b'R' ∷ b' ' ∷ b'u' ∷ b'n' ∷ b'k' ∷ b'n' ∷ b'o' ∷ b'w' ∷ b'n' ∷ b' ' ∷ b'c' ∷ b'o'
    ∷ b'm' ∷ b'm' ∷ b'a' ∷ b'n' ∷ b'd' ∷ b' ' ∷ 39 ∷ []

-- "ERR MULTI calls can not be nested"
abbrev pub nested_multi : Bytes
nested_multi =
    b'E' ∷ b'R' ∷ b'R' ∷ b' ' ∷ b'M' ∷ b'U' ∷ b'L' ∷ b'T' ∷ b'I' ∷ b' ' ∷ b'c' ∷ b'a' ∷ b'l' ∷ b'l'
    ∷ b's' ∷ b' ' ∷ b'c' ∷ b'a' ∷ b'n' ∷ b' ' ∷ b'n' ∷ b'o' ∷ b't' ∷ b' ' ∷ b'b' ∷ b'e' ∷ b' '
    ∷ b'n' ∷ b'e' ∷ b's' ∷ b't' ∷ b'e' ∷ b'd' ∷ []

-- "ERR EXEC without MULTI"
abbrev pub exec_without_multi : Bytes
exec_without_multi =
    b'E' ∷ b'R' ∷ b'R' ∷ b' ' ∷ b'E' ∷ b'X' ∷ b'E' ∷ b'C' ∷ b' ' ∷ b'w' ∷ b'i' ∷ b't' ∷ b'h' ∷ b'o'
    ∷ b'u' ∷ b't' ∷ b' ' ∷ b'M' ∷ b'U' ∷ b'L' ∷ b'T' ∷ b'I' ∷ []

-- "ERR DISCARD without MULTI"
abbrev pub discard_without_multi : Bytes
discard_without_multi =
    b'E' ∷ b'R' ∷ b'R' ∷ b' ' ∷ b'D' ∷ b'I' ∷ b'S' ∷ b'C' ∷ b'A' ∷ b'R' ∷ b'D' ∷ b' ' ∷ b'w' ∷ b'i'
    ∷ b't' ∷ b'h' ∷ b'o' ∷ b'u' ∷ b't' ∷ b' ' ∷ b'M' ∷ b'U' ∷ b'L' ∷ b'T' ∷ b'I' ∷ []

-- "EXECABORT Transaction discarded because of previous errors."
abbrev pub exec_abort : Bytes
exec_abort =
    b'E' ∷ b'X' ∷ b'E' ∷ b'C' ∷ b'A' ∷ b'B' ∷ b'O' ∷ b'R' ∷ b'T' ∷ b' ' ∷ b'T' ∷ b'r' ∷ b'a' ∷ b'n'
    ∷ b's' ∷ b'a' ∷ b'c' ∷ b't' ∷ b'i' ∷ b'o' ∷ b'n' ∷ b' ' ∷ b'd' ∷ b'i' ∷ b's' ∷ b'c' ∷ b'a'
    ∷ b'r' ∷ b'd' ∷ b'e' ∷ b'd' ∷ b' ' ∷ b'b' ∷ b'e' ∷ b'c' ∷ b'a' ∷ b'u' ∷ b's' ∷ b'e' ∷ b' '
    ∷ b'o' ∷ b'f' ∷ b' ' ∷ b'p' ∷ b'r' ∷ b'e' ∷ b'v' ∷ b'i' ∷ b'o' ∷ b'u' ∷ b's' ∷ b' ' ∷ b'e'
    ∷ b'r' ∷ b'r' ∷ b'o' ∷ b'r' ∷ b's' ∷ b'.' ∷ []

-- "wrong number of arguments for 'set' command"
abbrev pub wrong_set : Bytes
wrong_set =
    b'w' ∷ b'r' ∷ b'o' ∷ b'n' ∷ b'g' ∷ b' ' ∷ b'n' ∷ b'u' ∷ b'm' ∷ b'b' ∷ b'e' ∷ b'r' ∷ b' ' ∷ b'o'
    ∷ b'f' ∷ b' ' ∷ b'a' ∷ b'r' ∷ b'g' ∷ b'u' ∷ b'm' ∷ b'e' ∷ b'n' ∷ b't' ∷ b's' ∷ b' ' ∷ b'f'
    ∷ b'o' ∷ b'r' ∷ b' ' ∷ 39 ∷ b's' ∷ b'e' ∷ b't' ∷ 39 ∷ b' ' ∷ b'c' ∷ b'o' ∷ b'm' ∷ b'm' ∷ b'a'
    ∷ b'n' ∷ b'd' ∷ []

-- "wrong number of arguments for 'get' command"
abbrev pub wrong_get : Bytes
wrong_get =
    b'w' ∷ b'r' ∷ b'o' ∷ b'n' ∷ b'g' ∷ b' ' ∷ b'n' ∷ b'u' ∷ b'm' ∷ b'b' ∷ b'e' ∷ b'r' ∷ b' ' ∷ b'o'
    ∷ b'f' ∷ b' ' ∷ b'a' ∷ b'r' ∷ b'g' ∷ b'u' ∷ b'm' ∷ b'e' ∷ b'n' ∷ b't' ∷ b's' ∷ b' ' ∷ b'f'
    ∷ b'o' ∷ b'r' ∷ b' ' ∷ 39 ∷ b'g' ∷ b'e' ∷ b't' ∷ 39 ∷ b' ' ∷ b'c' ∷ b'o' ∷ b'm' ∷ b'm' ∷ b'a'
    ∷ b'n' ∷ b'd' ∷ []

-- "wrong number of arguments for 'del' command"
abbrev pub wrong_del : Bytes
wrong_del =
    b'w' ∷ b'r' ∷ b'o' ∷ b'n' ∷ b'g' ∷ b' ' ∷ b'n' ∷ b'u' ∷ b'm' ∷ b'b' ∷ b'e' ∷ b'r' ∷ b' ' ∷ b'o'
    ∷ b'f' ∷ b' ' ∷ b'a' ∷ b'r' ∷ b'g' ∷ b'u' ∷ b'm' ∷ b'e' ∷ b'n' ∷ b't' ∷ b's' ∷ b' ' ∷ b'f'
    ∷ b'o' ∷ b'r' ∷ b' ' ∷ 39 ∷ b'd' ∷ b'e' ∷ b'l' ∷ 39 ∷ b' ' ∷ b'c' ∷ b'o' ∷ b'm' ∷ b'm' ∷ b'a'
    ∷ b'n' ∷ b'd' ∷ []

-- "wrong number of arguments for 'dbsize' command"
abbrev pub wrong_dbsize : Bytes
wrong_dbsize =
    b'w' ∷ b'r' ∷ b'o' ∷ b'n' ∷ b'g' ∷ b' ' ∷ b'n' ∷ b'u' ∷ b'm' ∷ b'b' ∷ b'e' ∷ b'r' ∷ b' ' ∷ b'o'
    ∷ b'f' ∷ b' ' ∷ b'a' ∷ b'r' ∷ b'g' ∷ b'u' ∷ b'm' ∷ b'e' ∷ b'n' ∷ b't' ∷ b's' ∷ b' ' ∷ b'f'
    ∷ b'o' ∷ b'r' ∷ b' ' ∷ 39 ∷ b'd' ∷ b'b' ∷ b's' ∷ b'i' ∷ b'z' ∷ b'e' ∷ 39 ∷ b' ' ∷ b'c' ∷ b'o'
    ∷ b'm' ∷ b'm' ∷ b'a' ∷ b'n' ∷ b'd' ∷ []

-- "wrong number of arguments for 'ping' command"
abbrev pub wrong_ping : Bytes
wrong_ping =
    b'w' ∷ b'r' ∷ b'o' ∷ b'n' ∷ b'g' ∷ b' ' ∷ b'n' ∷ b'u' ∷ b'm' ∷ b'b' ∷ b'e' ∷ b'r' ∷ b' ' ∷ b'o'
    ∷ b'f' ∷ b' ' ∷ b'a' ∷ b'r' ∷ b'g' ∷ b'u' ∷ b'm' ∷ b'e' ∷ b'n' ∷ b't' ∷ b's' ∷ b' ' ∷ b'f'
    ∷ b'o' ∷ b'r' ∷ b' ' ∷ 39 ∷ b'p' ∷ b'i' ∷ b'n' ∷ b'g' ∷ 39 ∷ b' ' ∷ b'c' ∷ b'o' ∷ b'm' ∷ b'm'
    ∷ b'a' ∷ b'n' ∷ b'd' ∷ []

-- "ERR "
abbrev pub err_prefix : Bytes
err_prefix = b'E' ∷ b'R' ∷ b'R' ∷ b' ' ∷ []

-- "ERR syntax error"
abbrev pub syntax_error : Bytes
syntax_error =
    b'E' ∷ b'R' ∷ b'R' ∷ b' ' ∷ b's' ∷ b'y' ∷ b'n' ∷ b't' ∷ b'a' ∷ b'x' ∷ b' ' ∷ b'e' ∷ b'r' ∷ b'r'
    ∷ b'o' ∷ b'r' ∷ []

-- "ERR value is not an integer"
abbrev pub not_an_integer : Bytes
not_an_integer =
    b'E' ∷ b'R' ∷ b'R' ∷ b' ' ∷ b'v' ∷ b'a' ∷ b'l' ∷ b'u' ∷ b'e' ∷ b' ' ∷ b'i' ∷ b's' ∷ b' ' ∷ b'n'
    ∷ b'o' ∷ b't' ∷ b' ' ∷ b'a' ∷ b'n' ∷ b' ' ∷ b'i' ∷ b'n' ∷ b't' ∷ b'e' ∷ b'g' ∷ b'e' ∷ b'r' ∷ []

-- " or out of range"
abbrev pub or_out_of_range : Bytes
or_out_of_range =
    b' ' ∷ b'o' ∷ b'r' ∷ b' ' ∷ b'o' ∷ b'u' ∷ b't' ∷ b' ' ∷ b'o' ∷ b'f' ∷ b' ' ∷ b'r' ∷ b'a' ∷ b'n'
    ∷ b'g' ∷ b'e' ∷ []

-- "Length of command doesn't match"
abbrev pub length_mismatch : Bytes
length_mismatch =
    b'L' ∷ b'e' ∷ b'n' ∷ b'g' ∷ b't' ∷ b'h' ∷ b' ' ∷ b'o' ∷ b'f' ∷ b' ' ∷ b'c' ∷ b'o' ∷ b'm' ∷ b'm'
    ∷ b'a' ∷ b'n' ∷ b'd' ∷ b' ' ∷ b'd' ∷ b'o' ∷ b'e' ∷ b's' ∷ b'n' ∷ 39 ∷ b't' ∷ b' ' ∷ b'm' ∷ b'a'
    ∷ b't' ∷ b'c' ∷ b'h' ∷ []

-- "Couldn't convert seconds to a string"
abbrev pub bad_seconds : Bytes
bad_seconds =
    b'C' ∷ b'o' ∷ b'u' ∷ b'l' ∷ b'd' ∷ b'n' ∷ 39 ∷ b't' ∷ b' ' ∷ b'c' ∷ b'o' ∷ b'n' ∷ b'v' ∷ b'e'
    ∷ b'r' ∷ b't' ∷ b' ' ∷ b's' ∷ b'e' ∷ b'c' ∷ b'o' ∷ b'n' ∷ b'd' ∷ b's' ∷ b' ' ∷ b't' ∷ b'o'
    ∷ b' ' ∷ b'a' ∷ b' ' ∷ b's' ∷ b't' ∷ b'r' ∷ b'i' ∷ b'n' ∷ b'g' ∷ []

-- "ERR READONLY You can't write against a read only replica"
abbrev pub readonly : Bytes
readonly =
    b'E' ∷ b'R' ∷ b'R' ∷ b' ' ∷ b'R' ∷ b'E' ∷ b'A' ∷ b'D' ∷ b'O' ∷ b'N' ∷ b'L' ∷ b'Y' ∷ b' ' ∷ b'Y'
    ∷ b'o' ∷ b'u' ∷ b' ' ∷ b'c' ∷ b'a' ∷ b'n' ∷ 39 ∷ b't' ∷ b' ' ∷ b'w' ∷ b'r' ∷ b'i' ∷ b't' ∷ b'e'
    ∷ b' ' ∷ b'a' ∷ b'g' ∷ b'a' ∷ b'i' ∷ b'n' ∷ b's' ∷ b't' ∷ b' ' ∷ b'a' ∷ b' ' ∷ b'r' ∷ b'e'
    ∷ b'a' ∷ b'd' ∷ b' ' ∷ b'o' ∷ b'n' ∷ b'l' ∷ b'y' ∷ b' ' ∷ b'r' ∷ b'e' ∷ b'p' ∷ b'l' ∷ b'i'
    ∷ b'c' ∷ b'a' ∷ []

-- "ERR wrong number of arguments for 'subscribe' command"
abbrev pub wrong_subscribe : Bytes
wrong_subscribe =
    b'E' ∷ b'R' ∷ b'R' ∷ b' ' ∷ b'w' ∷ b'r' ∷ b'o' ∷ b'n' ∷ b'g' ∷ b' ' ∷ b'n' ∷ b'u' ∷ b'm' ∷ b'b'
    ∷ b'e' ∷ b'r' ∷ b' ' ∷ b'o' ∷ b'f' ∷ b' ' ∷ b'a' ∷ b'r' ∷ b'g' ∷ b'u' ∷ b'm' ∷ b'e' ∷ b'n'
    ∷ b't' ∷ b's' ∷ b' ' ∷ b'f' ∷ b'o' ∷ b'r' ∷ b' ' ∷ 39 ∷ b's' ∷ b'u' ∷ b'b' ∷ b's' ∷ b'c' ∷ b'r'
    ∷ b'i' ∷ b'b' ∷ b'e' ∷ 39 ∷ b' ' ∷ b'c' ∷ b'o' ∷ b'm' ∷ b'm' ∷ b'a' ∷ b'n' ∷ b'd' ∷ []

-- "ERR wrong number of arguments for 'publish' command"
abbrev pub wrong_publish : Bytes
wrong_publish =
    b'E' ∷ b'R' ∷ b'R' ∷ b' ' ∷ b'w' ∷ b'r' ∷ b'o' ∷ b'n' ∷ b'g' ∷ b' ' ∷ b'n' ∷ b'u' ∷ b'm' ∷ b'b'
    ∷ b'e' ∷ b'r' ∷ b' ' ∷ b'o' ∷ b'f' ∷ b' ' ∷ b'a' ∷ b'r' ∷ b'g' ∷ b'u' ∷ b'm' ∷ b'e' ∷ b'n'
    ∷ b't' ∷ b's' ∷ b' ' ∷ b'f' ∷ b'o' ∷ b'r' ∷ b' ' ∷ 39 ∷ b'p' ∷ b'u' ∷ b'b' ∷ b'l' ∷ b'i' ∷ b's'
    ∷ b'h' ∷ 39 ∷ b' ' ∷ b'c' ∷ b'o' ∷ b'm' ∷ b'm' ∷ b'a' ∷ b'n' ∷ b'd' ∷ []

-- "ERR invalid channel"
abbrev pub invalid_channel : Bytes
invalid_channel =
    b'E' ∷ b'R' ∷ b'R' ∷ b' ' ∷ b'i' ∷ b'n' ∷ b'v' ∷ b'a' ∷ b'l' ∷ b'i' ∷ b'd' ∷ b' ' ∷ b'c' ∷ b'h'
    ∷ b'a' ∷ b'n' ∷ b'n' ∷ b'e' ∷ b'l' ∷ []

-- "ERR invalid channel name"
abbrev pub invalid_channel_name : Bytes
invalid_channel_name =
    b'E' ∷ b'R' ∷ b'R' ∷ b' ' ∷ b'i' ∷ b'n' ∷ b'v' ∷ b'a' ∷ b'l' ∷ b'i' ∷ b'd' ∷ b' ' ∷ b'c' ∷ b'h'
    ∷ b'a' ∷ b'n' ∷ b'n' ∷ b'e' ∷ b'l' ∷ b' ' ∷ b'n' ∷ b'a' ∷ b'm' ∷ b'e' ∷ []

-- "ERR invalid message"
abbrev pub invalid_message : Bytes
invalid_message =
    b'E' ∷ b'R' ∷ b'R' ∷ b' ' ∷ b'i' ∷ b'n' ∷ b'v' ∷ b'a' ∷ b'l' ∷ b'i' ∷ b'd' ∷ b' ' ∷ b'm' ∷ b'e'
    ∷ b's' ∷ b's' ∷ b'a' ∷ b'g' ∷ b'e' ∷ []

-- "-MOVED "
abbrev pub moved : Bytes
moved = b'-' ∷ b'M' ∷ b'O' ∷ b'V' ∷ b'E' ∷ b'D' ∷ b' ' ∷ []
