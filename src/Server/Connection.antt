-- ===== src/Server/Connection.antt =====
-- internal/server/handler.go: the loop over the commands of a connection. The CLUSTER command is
-- handed on: cluster_commands.go is not modelled. The record of the time that a command took is
-- left out.
use gocache.Prelude.{
  ℕ, zero, suc, Bool, false, ◌||◌, ◌&&◌, not, Option, none, some, [], ◌∷◌, ◌++◌, ltb, if◌then◌else◌,
  Outcome, done, panic, blocked, length, ◌>>=◌,
}
use gocache.Prelude.Int.{ℤ}
use gocache.Prelude.Maps.{Bytes}
use gocache.Resp.{Value, Items, str, int, arr, nil, cons, good, bad, crash, starved, parse}
use gocache.Resp.Encoder.{crlf, count, encode_error}
use gocache.Config.{same_bytes, is_nonempty}
use gocache.PubSub.{remove_connection}
use gocache.Persistence.{set_word, del_word}
use gocache.Server.State.{is_cluster_mode, should_forward_request}
use gocache.Server.Session.{
  Session, reply, arg, can_queue_command, queue_command, handle_multi, handle_discard,
}
use gocache.Server.Exec.{handle_exec}
use gocache.Server.Handlers.{
  handle_set, handle_get, handle_delete, handle_dbsize, handle_ping, handle_subscribe,
  handle_unsubscribe, handle_publish,
}
use gocache.Server.Texts.{
  get_word, dbsize_word, ping_word, multi_word, exec_word, discard_word, subscribe_command,
  unsubscribe_command, publish_command, psubscribe_command, punsubscribe_command, cluster_command,
  quit_word, subscriber_only, err_command, not_in_transaction, unknown_upper, moved,
}

-- What becomes of a command: it has been handled, or it is for handleClusterCommand.
pub data Handled : Type 0 where
  handled : Session → Handled
  for_cluster : Items → Session → Handled

abbrev pub finished : Outcome Session → Outcome Handled
finished o = o >>= λ s. done (handled s)

-- A command that is no string equals no word.
abbrev pub is_command : Bytes → Value → Bool
is_command word (str s) = same_bytes s word
is_command word (int z) = false
is_command word (arr us) = false

unfoldable pub allowed_in_subscriber_mode : Value → Bool
allowed_in_subscriber_mode v =
    is_command subscribe_command v
    || (is_command unsubscribe_command v
        || (is_command psubscribe_command v
            || (is_command punsubscribe_command v
                || (is_command ping_word v || is_command quit_word v))))

-- `if len(resultSlice) >= 2 { key = resultSlice[1].(string) }`
abbrev pub key_of : Items → Outcome Bytes
key_of vs = if ltb (count vs) 2 then done [] else arg 1 vs

abbrev pub moved_reply : Bytes × Bytes → Bytes
moved_reply (id, address) = moved ++ (id ++ (b' ' ∷ (address ++ crlf)))

abbrev pub unknown_reply : Bytes → Bytes
unknown_reply command = encode_error (unknown_upper ++ (command ++ (39 ∷ [])))

module _ (exceeds : ℕ → ℕ → ℤ → Bool) (whole : ℤ → ℤ) (hash : Bytes → ℕ) (clock : ℕ → ℕ) where
  -- The last switch, but for its CLUSTER case, which is never reached; `clock 0` is the time of a
  -- command outside a transaction.
  unfoldable pub perform_command : Value → Items → Session → Outcome Session
  unfolding arg handle_multi handle_discard handle_get handle_dbsize
  perform_command command vs s =
      if is_command set_word command
      then handle_set exceeds whole (clock 0) vs s
      else if is_command get_word command
      then handle_get (clock 0) vs s
      else if is_command del_word command
      then handle_delete exceeds vs s
      else if is_command dbsize_word command
      then handle_dbsize s
      else if is_command ping_word command
      then done (handle_ping s)
      else if is_command multi_word command
      then done (handle_multi s)
      else if is_command exec_word command
      then handle_exec exceeds clock s
      else if is_command discard_word command
      then done (handle_discard s)
      else (do text ← arg 0 vs; done (reply (unknown_reply text) s))

  abbrev pub forward_or : Option (Bytes × Bytes) → Outcome Session → Session → Outcome Session
  forward_or none run s = run
  forward_or (some target) run s = done (reply (moved_reply target) s)

  -- A key that belongs elsewhere is answered with MOVED.
  unfoldable pub route_command : Value → Items → Session → Outcome Session
  unfolding perform_command
  route_command command vs s = do
    key ← key_of vs
    if is_cluster_mode s.node && is_nonempty key
        then (let target =
              should_forward_request hash key
                (is_command set_word command || is_command del_word command) s.node in
            forward_or target (perform_command command vs s) s)
        else perform_command command vs s

  unfoldable pub dispatch : Value → Items → Session → Outcome Handled
  unfolding route_command
  dispatch command vs s =
      if is_command subscribe_command command
      then finished (handle_subscribe vs s)
      else if is_command unsubscribe_command command
      then finished (handle_unsubscribe vs s)
      else if is_command publish_command command
      then finished (handle_publish vs s)
      else if is_command cluster_command command
      then done (for_cluster vs s)
      else finished (route_command command vs s)

  -- In a transaction a command is queued, or refused, unless it ends the transaction.
  abbrev pub transact : Value → Items → Session → Outcome Handled
  transact (int z) vs s = dispatch (int z) vs s
  transact (arr us) vs s = dispatch (arr us) vs s
  transact (str command) vs s =
      if same_bytes command exec_word || same_bytes command discard_word
      then dispatch (str command) vs s
      else if can_queue_command command
      then finished (queue_command vs s)
      else done (handled (reply (encode_error (err_command ++ (command ++ not_in_transaction))) s))

  unfoldable pub handle_value : Value → Items → Session → Outcome Handled
  unfolding dispatch queue_command
  handle_value command vs s =
      if s.state.subscriber_mode && not (allowed_in_subscriber_mode command)
      then done (handled (reply (encode_error subscriber_only) s))
      else if s.state.in_transaction
      then transact command vs s
      else dispatch command vs s

  -- One round of the loop on what Parse read; an empty array panics.
  unfoldable pub handle_command : Items → Session → Outcome Handled
  unfolding handle_value
  handle_command nil s = panic
  handle_command (cons command vs) s = handle_value command (cons command vs) s

-- The deferred RemoveConnection.
abbrev pub close_connection : Session → Outcome Session
close_connection s = do ps ← remove_connection s.conn s.pub_sub; done (record s { pub_sub = ps })

-- The loop of handleConnection over the bytes of the client ends with the connection closed, or at
-- a CLUSTER command, with the bytes after it.
pub data Served : Type 0 where
  closed : Session → Served
  at_cluster : Items → Bytes → Session → Served

abbrev pub closing : Outcome Session → Outcome Served
closing o = o >>= λ s. done (closed s)

module _ (exceeds : ℕ → ℕ → ℤ → Bool) (whole : ℤ → ℤ) (hash : Bytes → ℕ) where
  -- `clock i j` is the time in round `i`, for the command `j` of a transaction. With more fuel than
  -- bytes the first clause is not met.
  unfoldable pub handle_connection : (ℕ → ℕ → ℕ) → ℕ → ℕ → Bytes → Session → Outcome Served
  unfolding handle_command
  handle_connection clock zero i input s = blocked
  handle_connection clock (suc n) i input s = elim (parse (suc (length input)) input) [
    | bad e rest ↦ closing (close_connection s)
    | crash ↦ panic
    | starved ↦ blocked
    | good v rest ↦ elim v [
      | str text ↦ closing (close_connection s)
      | int z ↦ closing (close_connection s)
      | arr vs ↦ handle_command exceeds whole hash (clock i) vs s >>= λ h. elim h [
        | handled s' ↦ handle_connection clock n (suc i) rest s'
        | for_cluster ws s' ↦ done (at_cluster ws rest s')
      ]
    ]
  ]
