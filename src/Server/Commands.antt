-- ===== src/Server/Commands.antt =====
-- internal/server/handler.go: well-formed commands of a client, what they promise, and what EXEC
-- makes of a queue of them.
use gocache.Prelude.{
  ℕ, suc, ◌<◌, ◌^◌, ◌≡◌, refl, ◌∙◌, Option, none, some, List, [], ◌∷◌, ◌++◌, map, All, length, done,
}
use mathlib.Core.Path.{subst}
use gocache.Prelude.Int.{ℤ, pos}
use gocache.Prelude.Maps.{Bytes, bytes_discrete}
use gocache.Prelude.Decimal.{Fits, format_int, parse_int-format_int}
use gocache.Prelude.Duration.{seconds}
use gocache.Resp.{Items, str, nil, cons}
use gocache.Resp.Encoder.{encode_simple_string}
use gocache.Cache.{Cache, expiry}
use gocache.Cache.Spec.{Entry, spec_set, spec_get, spec_delete}
use gocache.Cache.Steps.{Refines, set_internal-Becomes}
use gocache.Cache.Reads.{Replies, get_internal-Replies, delete_internal-Becomes}
use gocache.Cache.Writes.{Write, set_write, delete_write}
use gocache.Persistence.{set_word, del_word}
use gocache.Server.Session.{arg}
use gocache.Server.Exec.{
  lifetime_argument, execute_set_command, execute_get_command, execute_delete_command,
  execute_command, execute_queue, bulk_or_null, one_reply, queued_lifetime, queued_write,
}
use gocache.Server.Texts.{ex, get_word, ping_word, ok_text, pong}

-- SET key value, SET key value EX seconds, GET key, DEL key and PING.
pub data Command : Type 0 where
  plain_set : Bytes → Bytes → Command
  set_ex : Bytes → Bytes → ℤ → Command
  get_one del_one : Bytes → Command
  ping : Command

abbrev pub command_items : Command → Items
command_items (plain_set key value) = cons (str set_word) (cons (str key) (cons (str value) nil))
command_items (set_ex key value z) =
    cons (str set_word)
      (cons (str key) (cons (str value) (cons (str ex) (cons (str (format_int z)) nil))))
command_items (get_one key) = cons (str get_word) (cons (str key) nil)
command_items (del_one key) = cons (str del_word) (cons (str key) nil)
command_items ping = cons (str ping_word) nil

-- Strings shorter than 2^63 bytes, and a lifetime of 64 bits.
abbrev pub IsCommand : Command → Type 0
IsCommand (plain_set key value) = (length key < 2 ^ 63) × (length value < 2 ^ 63)
IsCommand (set_ex key value z) = (length key < 2 ^ 63) × (length value < 2 ^ 63) × Fits z
IsCommand (get_one key) = length key < 2 ^ 63
IsCommand (del_one key) = length key < 2 ^ 63
IsCommand ping = Unit

-- The write of a command, if it is one.
abbrev pub command_write : Command → Option Write
command_write (plain_set key value) = some (set_write key value (pos 0))
command_write (set_ex key value z) = some (set_write key value z)
command_write (get_one key) = none
command_write (del_one key) = some (delete_write key)
command_write ping = none

-- The reply that a command promises, and the entries after it.
abbrev pub spec_command : ℕ → ℕ → Command → List Entry → Bytes × List Entry
spec_command cap now (plain_set key value) es =
    (encode_simple_string ok_text, spec_set cap key value none es)
spec_command cap now (set_ex key value z) es =
    (encode_simple_string ok_text, spec_set cap key value (expiry (seconds z) now) es)
spec_command cap now (get_one key) es =
    (bulk_or_null (spec_get key now es).0, (spec_get key now es).1)
spec_command cap now (del_one key) es = (one_reply, spec_delete key es)
spec_command cap now ping es = (encode_simple_string pong, es)

unfoldable pub spec_commands : ℕ → (ℕ → ℕ) → ℕ → List Command → List Entry → Bytes × List Entry
spec_commands cap clock i [] es = ([], es)
spec_commands cap clock i (c ∷ cs) es =
    let first = spec_command cap (clock i) c es in
    let rest = spec_commands cap clock (suc i) cs first.1 in (first.0 ++ rest.0, rest.1)

program : Unit {0}
unfolding execute_command execute_set_command execute_get_command execute_delete_command
    lifetime_argument arg bytes_discrete seconds
program = tt

execute_command-Replies :
    (now : ℕ) (command : Command) (c : Cache) (es : List Entry)
    → IsCommand command
    → Refines c es
    → Replies
        (execute_command now (command_items command) c)
        c
        (spec_command c.max_size now command es)
unfolding program
execute_command-Replies now (plain_set key value) c es h r =
    let (c', ran, r', size, lock) = set_internal-Becomes c es key value (pos 0) now r in
    (c', rw ran refl, r', size, lock)
execute_command-Replies now (set_ex key value z) c es h r =
    let (c', ran, r', size, lock) = set_internal-Becomes c es key value (seconds z) now r in
    (c', rw (parse_int-format_int z h.2, ran) refl, r', size, lock)
execute_command-Replies now (get_one key) c es h r =
    let (c', ran, r', size, lock) = get_internal-Replies c es key now r in
    (c', rw ran refl, r', size, lock)
execute_command-Replies now (del_one key) c es h r =
    let (c', ran, r', size, lock) = delete_internal-Becomes c es key r in
    (c', rw ran refl, r', size, lock)
execute_command-Replies now ping c es h r = (c, refl, r, refl, refl)

pub execute_queue-Replies :
    (clock : ℕ → ℕ) (i cap : ℕ) (cs : List Command) (c : Cache) (es : List Entry)
    → All IsCommand cs
    → c.max_size ≡ cap
    → Refines c es
    → Replies (execute_queue clock i (map command_items cs) c) c (spec_commands cap clock i cs es)
unfolding execute_queue spec_commands
execute_queue-Replies clock i cap [] c es h at r = (c, refl, r, refl, refl)
execute_queue-Replies clock i cap (command ∷ cs) c es h at r =
    let step =
      subst
        (λ k.
          Replies (execute_command (clock i) (command_items command) c) c
            (spec_command k (clock i) command es))
        at (execute_command-Replies (clock i) command c es h.0 r) in
    let (c1, ran1, r1, size1, lock1) = step in
    let (c2, ran2, r2, size2, lock2) =
      execute_queue-Replies clock (suc i) cap cs c1 (spec_command cap (clock i) command es).1 h.1
        (size1 ∙ at) r1 in
    (c2, rw (ran1, ran2) refl, r2, size2 ∙ size1, lock2 ∙ lock1)

pub queued_write-command_write :
    (command : Command)
    → IsCommand command
    → queued_write (command_items command) ≡ done (command_write command)
unfolding queued_write queued_lifetime arg bytes_discrete
queued_write-command_write (plain_set key value) h = refl
queued_write-command_write (set_ex key value z) h = rw (parse_int-format_int z h.2) refl
queued_write-command_write (get_one key) h = refl
queued_write-command_write (del_one key) h = refl
queued_write-command_write ping h = refl
