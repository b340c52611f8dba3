-- ===== src/Server/Exec.antt =====
-- internal/server/handler.go: the commands of a transaction and EXEC. `clock i` is the time of the
-- command number `i`.
use gocache.Prelude.{
  ℕ, suc, ◌-◌, Bool, true, false, ◌||◌, not, Option, none, some, List, [], ◌∷◌, ◌++◌, map, length,
  ltb, leb, ◌==◌, ◌&&◌, if◌then◌else◌, Outcome, done, ◌>>=◌,
}
use gocache.Prelude.Int.{ℤ, pos}
use gocache.Prelude.Maps.{Bytes}
use gocache.Prelude.Decimal.{parse_int, format_int}
use gocache.Prelude.Duration.{seconds}
use gocache.Resp.{Items}
use gocache.Resp.Encoder.{crlf, count, encode_error, encode_simple_string, encode_bulk_string}
use gocache.Cache.{Cache, lock, unlock, set_internal, get_internal, delete_internal, get_all_keys}
use gocache.Cache.Writes.{Write, set_write, delete_write}
use gocache.Config.{same_bytes}
use gocache.Persistence.{Aof, set_word, del_word}
use gocache.Persistence.Log.{log_write}
use gocache.Replication.Leader.{Leader}
use gocache.Replication.Writes.{replicate_write}
use gocache.Server.Session.{Session, reply, arg, cleared}
use gocache.Server.Texts.{
  ex, get_word, dbsize_word, ping_word, ok_text, pong, unknown_lower, exec_without_multi,
  exec_abort, wrong_set, wrong_get, wrong_del, err_prefix, syntax_error, not_an_integer,
  or_out_of_range,
}

-- `strings.ToUpper` as far as a comparison with "EX" shows it: no letter outside ASCII has E or X
-- for its upper case.
abbrev pub to_upper : Bytes → Bytes
to_upper = map (λ b. if leb b'a' b && leb b b'z' then b - 32 else b)

-- The lifetime that the arguments of SET ask for, in seconds, or the text of the error.
pub data Lifetime : Type 0 where
  refused : Bytes → Lifetime
  lasting : ℤ → Lifetime

abbrev pub number_or : Bytes → Option ℤ → Lifetime
number_or text none = refused text
number_or text (some z) = lasting z

-- SET key value seconds, and SET key value EX seconds; the texts are those of a bad number.
unfoldable pub lifetime_argument : Bytes → Bytes → Items → Outcome Lifetime
lifetime_argument bad_ex bad_plain vs =
    if count vs == 5
    then (do
      qualifier ← arg 3 vs
      if same_bytes (to_upper qualifier) ex
          then (do text ← arg 4 vs; done (number_or bad_ex (parse_int text)))
          else done (refused syntax_error))
    else if count vs == 4
    then (do text ← arg 3 vs; done (number_or bad_plain (parse_int text)))
    else done (lasting (pos 0))

abbrev pub out_of_range : Bytes
out_of_range = not_an_integer ++ or_out_of_range

abbrev pub set_lasting : ℕ → Bytes → Bytes → Lifetime → Cache → Outcome (Bytes × Cache)
set_lasting now key value (refused text) c = done (encode_error text, c)
set_lasting now key value (lasting z) c = do
  c' ← set_internal key value (seconds z) now c
  done (encode_simple_string ok_text, c')

-- A command with as many arguments as it takes, or the error.
abbrev pub with_count : Bool → Bytes → Cache → Outcome (Bytes × Cache) → Outcome (Bytes × Cache)
with_count false text c run = done (encode_error (err_prefix ++ text), c)
with_count true text c run = run

unfoldable pub execute_set_command : ℕ → Items → Cache → Outcome (Bytes × Cache)
unfolding arg lifetime_argument
execute_set_command now vs c =
    with_count (not (ltb (count vs) 3 || ltb 5 (count vs))) wrong_set c (do
      key ← arg 1 vs
      value ← arg 2 vs
      lifetime ← lifetime_argument out_of_range out_of_range vs
      set_lasting now key value lifetime c)

abbrev pub bulk_or_null : Option Bytes → Bytes
bulk_or_null none = encode_bulk_string [] true
bulk_or_null (some value) = encode_bulk_string value false

unfoldable pub execute_get_command : ℕ → Items → Cache → Outcome (Bytes × Cache)
unfolding arg
execute_get_command now vs c =
    with_count (count vs == 2) wrong_get c
      (do key ← arg 1 vs; (value, c') ← get_internal key now c; done (bulk_or_null value, c'))

-- ":1\r\n"
abbrev pub one_reply : Bytes
one_reply = b':' ∷ b'1' ∷ crlf

unfoldable pub execute_delete_command : Items → Cache → Outcome (Bytes × Cache)
unfolding arg
execute_delete_command vs c =
    with_count (count vs == 2) wrong_del c
      (do key ← arg 1 vs; c' ← delete_internal key c; done (one_reply, c'))

abbrev pub count_reply : List Bytes → Bytes
count_reply keys = b':' ∷ format_int (pos (length keys)) ++ crlf

-- GetAllKeys takes the read lock.
unfoldable pub execute_dbsize_command : Cache → Outcome (Bytes × Cache)
execute_dbsize_command c = do keys ← get_all_keys c; done (count_reply keys, c)

abbrev pub unknown_in_exec : Bytes → Bytes
unknown_in_exec command = encode_error (unknown_lower ++ (command ++ (39 ∷ [])))

-- The switch of EXEC over one command of the queue.
unfoldable pub execute_command : ℕ → Items → Cache → Outcome (Bytes × Cache)
unfolding execute_set_command execute_get_command execute_delete_command execute_dbsize_command
execute_command now vs c = do
  command ← arg 0 vs
  if same_bytes command set_word
      then execute_set_command now vs c
      else if same_bytes command get_word
      then execute_get_command now vs c
      else if same_bytes command del_word
      then execute_delete_command vs c
      else if same_bytes command dbsize_word
      then execute_dbsize_command c
      else if same_bytes command ping_word
      then done (encode_simple_string pong, c)
      else done (unknown_in_exec command, c)

-- All of the queue, in order: the replies one after the other.
unfoldable pub execute_queue : (ℕ → ℕ) → ℕ → List Items → Cache → Outcome (Bytes × Cache)
unfolding execute_command
execute_queue clock i [] c = done ([], c)
execute_queue clock i (vs ∷ queue) c = do
  (first, c1) ← execute_command (clock i) vs c
  (rest, c2) ← execute_queue clock (suc i) queue c1
  done (first ++ rest, c2)

abbrev pub replicate_if : Write → Option Leader → Outcome (Option Leader)
replicate_if w none = done none
replicate_if w (some l) = do (failed, l') ← replicate_write w l; done (some l')

-- `ttlSec, err := strconv.Atoi(...)`, and 0 on an error
abbrev pub seconds_or_zero : Option ℤ → ℤ
seconds_or_zero none = pos 0
seconds_or_zero (some z) = z

unfoldable pub queued_lifetime : Items → Outcome ℤ
unfolding arg
queued_lifetime vs =
    if count vs == 5
    then (do text ← arg 4 vs; done (seconds_or_zero (parse_int text)))
    else if count vs == 4
    then (do text ← arg 3 vs; done (seconds_or_zero (parse_int text)))
    else done (pos 0)

-- The write that a command of the queue is sent on as, if any.
unfoldable pub queued_write : Items → Outcome (Option Write)
unfolding queued_lifetime
queued_write vs = do
  command ← arg 0 vs
  if same_bytes command set_word
      then (do
        key ← arg 1 vs
        value ← arg 2 vs
        ttl ← queued_lifetime vs
        done (some (set_write key value ttl)))
      else if same_bytes command del_word
      then (do key ← arg 1 vs; done (some (delete_write key)))
      else done none

abbrev pub array_reply : ℕ → Bytes → Bytes
array_reply n replies = (b'*' ∷ format_int (pos n) ++ crlf) ++ replies

module _ (exceeds : ℕ → ℕ → ℤ → Bool) where
  -- Replication first, then the log; their errors are only logged.
  abbrev pub send_on : Write → Option Leader × Aof → Outcome (Option Leader × Aof)
  send_on w (l, a) = do l' ← replicate_if w l; a' ← log_write exceeds w a; done (l', a')

  abbrev pub send_on_if : Option Write → Option Leader × Aof → Outcome (Option Leader × Aof)
  send_on_if none la = done la
  send_on_if (some w) la = send_on w la

  unfoldable pub send_on_queue : List Items → Option Leader × Aof → Outcome (Option Leader × Aof)
  unfolding queued_write
  send_on_queue [] la = done la
  send_on_queue (vs ∷ queue) la = do
    w ← queued_write vs
    la' ← send_on_if w la
    send_on_queue queue la'

  -- The transaction itself, under the lock of the cache.
  unfoldable pub run_transaction : (ℕ → ℕ) → List Items → Session → Outcome Session
  unfolding execute_queue send_on_queue lock unlock
  run_transaction clock queue s = do
    c1 ← lock s.cache
    (replies, c2) ← execute_queue clock 0 queue c1
    (leader, aof) ← send_on_queue queue (s.node.leader, s.aof)
    c3 ← unlock c2
    done (
        reply (array_reply (length queue) replies)
          (record s { cache = c3; aof = aof; node = record s.node { leader = leader } }))

  abbrev pub exec_after : Option Bytes → (ℕ → ℕ) → List Items → Session → Outcome Session
  exec_after (some e) clock queue s = done (reply (encode_error exec_abort) s)
  exec_after none clock queue s = run_transaction clock queue s

  -- The state is reset when the rest is done.
  unfoldable pub handle_exec : (ℕ → ℕ) → Session → Outcome Session
  unfolding run_transaction
  handle_exec clock s =
      if s.state.in_transaction
      then (do
        s' ← exec_after s.state.transaction_error clock s.state.command_queue s
        done (record s' { state = cleared s'.state }))
      else done (reply (encode_error exec_without_multi) s)
