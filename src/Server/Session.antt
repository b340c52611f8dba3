-- ===== src/Server/Session.antt =====
-- internal/server/handler.go: a connection, with all that its commands read and change, and the
-- commands that open, fill and drop a transaction. `out` is what was written to the connection.
use gocache.Prelude.{
  ℕ, zero, suc, Bool, true, false, ◌&&◌, ◌||◌, not, Option, none, some, List, [], ◌∷◌, ◌++◌, ltb,
  ◌==◌, if◌then◌else◌, Outcome, done, panic, ◌>>=◌,
}
use gocache.Prelude.Maps.{Bytes}
use gocache.Resp.{Items, str, int, arr, nil, cons}
use gocache.Resp.Encoder.{count, encode_error, encode_simple_string}
use gocache.Cache.{Cache}
use gocache.PubSub.{PubSub}
use gocache.Config.{same_bytes}
use gocache.Persistence.{Aof, set_word, del_word}
use gocache.Server.State.{NodeState}
use gocache.Server.Texts.{
  get_word, dbsize_word, ping_word, multi_word, exec_word, discard_word, subscribe_command,
  unsubscribe_command, publish_command, psubscribe_command, punsubscribe_command, cluster_command,
  ok_text, queued, nested_multi, discard_without_multi, wrong_set, wrong_get, wrong_del,
  wrong_dbsize, wrong_ping,
}

pub record ConnectionState : Type 0 where
  pub subscriber_mode : Bool
  pub in_transaction : Bool
  pub command_queue : List Items
  pub transaction_error : Option Bytes

abbrev pub new_connection_state : ConnectionState
new_connection_state = record {
  subscriber_mode = false;
  in_transaction = false;
  command_queue = [];
  transaction_error = none;
}

pub record Session : Type 0 where
  pub cache : Cache
  pub aof : Aof
  pub node : NodeState
  pub pub_sub : PubSub
  pub conn : ℕ
  pub state : ConnectionState
  pub out : Bytes

-- `conn.Write`
abbrev pub reply : Bytes → Session → Session
reply bytes s = record s { out = s.out ++ bytes }

-- `args[i].(string)`, a panic on a missing argument and on one of another type
unfoldable pub arg : ℕ → Items → Outcome Bytes
arg i nil = panic
arg zero (cons (str s) vs) = done s
arg zero (cons (int z) vs) = panic
arg zero (cons (arr us) vs) = panic
arg (suc i) (cons v vs) = arg i vs

abbrev pub requires_leader : Bytes → Bool
requires_leader operation =
    if same_bytes operation set_word || same_bytes operation del_word
    then true
    else not (same_bytes operation get_word)

unfoldable pub can_queue_command : Bytes → Bool
can_queue_command command =
    not (
      same_bytes command multi_word
      || (same_bytes command exec_word || same_bytes command discard_word))
    && (not (
          same_bytes command subscribe_command
          || (same_bytes command unsubscribe_command
              || (same_bytes command publish_command
                  || (same_bytes command psubscribe_command
                      || same_bytes command punsubscribe_command))))
        && not (same_bytes command cluster_command))

-- The switch on the command, with the number of its arguments.
unfoldable pub validation_error : Bytes → ℕ → Option Bytes
validation_error command n =
    if same_bytes command set_word
    then (if ltb n 3 || ltb 5 n then some wrong_set else none)
    else if same_bytes command get_word
    then (if n == 2 then none else some wrong_get)
    else if same_bytes command del_word
    then (if n == 2 then none else some wrong_del)
    else if same_bytes command dbsize_word
    then (if n == 1 then none else some wrong_dbsize)
    else if same_bytes command ping_word
    then (if ltb 2 n then some wrong_ping else none)
    else none

abbrev pub queue_checked : Option Bytes → Items → Session → Session
queue_checked (some e) vs s =
    reply (encode_error e) (record s { state = record s.state { transaction_error = some e } })
queue_checked none vs s =
    reply (encode_simple_string queued)
      (record s { state = record s.state { command_queue = s.state.command_queue ++ (vs ∷ []) } })

abbrev pub queue_after : Option Bytes → Items → Session → Outcome Session
queue_after (some e) vs s = done (reply (encode_simple_string queued) s)
queue_after none vs s = do
  command ← arg 0 vs
  done (queue_checked (validation_error command (count vs)) vs s)

-- queueCommandForTransaction
unfoldable pub queue_command : Items → Session → Outcome Session
unfolding arg validation_error
queue_command vs s = queue_after s.state.transaction_error vs s

abbrev pub started : ConnectionState → ConnectionState
started c = record c { in_transaction = true; command_queue = []; transaction_error = none }

-- The transaction is over.
abbrev pub cleared : ConnectionState → ConnectionState
cleared c = record c { in_transaction = false; command_queue = []; transaction_error = none }

unfoldable pub handle_multi : Session → Session
handle_multi s =
    if s.state.in_transaction
    then reply (encode_error nested_multi) s
    else reply (encode_simple_string ok_text) (record s { state = started s.state })

unfoldable pub handle_discard : Session → Session
handle_discard s =
    if s.state.in_transaction
    then reply (encode_simple_string ok_text) (record s { state = cleared s.state })
    else reply (encode_error discard_without_multi) s
