-- ===== src/Server/Handlers.antt =====
-- internal/server/handler.go: the commands outside a transaction. `whole` is `int64(ttl.Seconds())`.
use gocache.Prelude.{
  ℕ, Bool, true, false, ◌||◌, List, [], ◌∷◌, length, ltb, ◌==◌, if◌then◌else◌, Outcome, done, ◌>>=◌,
}
use gocache.Prelude.Int.{ℤ}
use gocache.Prelude.Maps.{Bytes}
use gocache.Prelude.Duration.{seconds}
use gocache.Resp.{Value, Items, str, int, arr, nil, cons}
use gocache.Resp.Encoder.{
  count, encode_error, encode_simple_string, encode_subscribe_confirmation,
  encode_unsubscribe_confirmation, encode_publish_response,
}
use gocache.Cache.{Cache, set, get_value, delete_key, get_all_keys}
use gocache.Cache.Writes.{Write, set_write, delete_write}
use gocache.PubSub.{subscribe, unsubscribe, publish, get_subscribed_channels}
use gocache.Config.{same_bytes, follower_role}
use gocache.Server.Session.{Session, reply, arg}
use gocache.Server.Exec.{
  Lifetime, refused, lasting, lifetime_argument, bulk_or_null, one_reply, count_reply, send_on,
}
use gocache.Server.Texts.{
  ok_text, pong, not_an_integer, length_mismatch, bad_seconds, readonly, wrong_subscribe,
  wrong_publish, invalid_channel, invalid_channel_name, invalid_message,
}

-- A write that the cache has taken goes to the followers and the log, and is answered.
module _ (exceeds : ℕ → ℕ → ℤ → Bool) where
  abbrev pub finish_write : Write → Bytes → Cache → Session → Outcome Session
  finish_write w answer c s = do
    (leader, aof) ← send_on exceeds w (s.node.leader, s.aof)
    done
        (reply answer (record s { cache = c; aof = aof; node = record s.node { leader = leader } }))

  module _ (whole : ℤ → ℤ) where
    abbrev pub set_for : ℕ → Bytes → Bytes → Lifetime → Session → Outcome Session
    set_for now key value (refused text) s = done (reply (encode_error text) s)
    set_for now key value (lasting z) s = do
      c ← set key value (seconds z) now s.cache
      finish_write (set_write key value (whole (seconds z))) (encode_simple_string ok_text) c s

    unfoldable pub handle_set : ℕ → Items → Session → Outcome Session
    unfolding arg lifetime_argument
    handle_set now vs s =
        if same_bytes s.node.role follower_role
        then done (reply (encode_error readonly) s)
        else if ltb (count vs) 3 || ltb 5 (count vs)
        then done (reply (encode_error length_mismatch) s)
        else (do
          key ← arg 1 vs
          value ← arg 2 vs
          lifetime ← lifetime_argument not_an_integer bad_seconds vs
          set_for now key value lifetime s)

  unfoldable pub handle_delete : Items → Session → Outcome Session
  unfolding arg
  handle_delete vs s =
      if same_bytes s.node.role follower_role
      then done (reply (encode_error readonly) s)
      else if count vs == 2
      then (do
        key ← arg 1 vs
        c ← delete_key key s.cache
        finish_write (delete_write key) one_reply c s)
      else done (reply (encode_error length_mismatch) s)

unfoldable pub handle_get : ℕ → Items → Session → Outcome Session
unfolding arg
handle_get now vs s =
    if count vs == 2
    then (do
      key ← arg 1 vs
      (value, c) ← get_value key now s.cache
      done (reply (bulk_or_null value) (record s { cache = c })))
    else done (reply (encode_error length_mismatch) s)

unfoldable pub handle_dbsize : Session → Outcome Session
handle_dbsize s = do keys ← get_all_keys s.cache; done (reply (count_reply keys) s)

abbrev pub handle_ping : Session → Session
handle_ping s = reply (encode_simple_string pong) s

-- How many channels the connection is subscribed to.
abbrev pub subscriptions_of : Session → ℕ
subscriptions_of s = length (get_subscribed_channels s.conn s.pub_sub)

abbrev pub set_subscriber_mode : Bool → Session → Session
set_subscriber_mode mode s = record s { state = record s.state { subscriber_mode = mode } }

-- The loop over the channels: an argument that is no string ends the command.
unfoldable pub subscribe_each : Items → Session → Outcome Session
subscribe_each nil s = done (set_subscriber_mode true s)
subscribe_each (cons (int z) vs) s = done (reply (encode_error invalid_channel) s)
subscribe_each (cons (arr us) vs) s = done (reply (encode_error invalid_channel) s)
subscribe_each (cons (str channel) vs) s = do
  ps ← subscribe s.conn channel s.pub_sub
  let s1 = record s { pub_sub = ps }
  confirmation ← encode_subscribe_confirmation channel (subscriptions_of s1)
  subscribe_each vs (reply confirmation s1)

abbrev pub rest_of : Items → Items
rest_of nil = nil
rest_of (cons v vs) = vs

unfoldable pub handle_subscribe : Items → Session → Outcome Session
unfolding subscribe_each
handle_subscribe vs s =
    if ltb (count vs) 2
    then done (reply (encode_error wrong_subscribe) s)
    else subscribe_each (rest_of vs) s

-- One channel: the error of Unsubscribe is only logged.
unfoldable pub unsubscribe_one : Bytes → Session → Outcome Session
unsubscribe_one channel s = do
  (failed, ps) ← unsubscribe s.conn channel s.pub_sub
  let s1 = record s { pub_sub = ps }
  confirmation ← encode_unsubscribe_confirmation channel (subscriptions_of s1)
  done (reply confirmation s1)

unfoldable pub unsubscribe_all : List Bytes → Session → Outcome Session
unfolding unsubscribe_one
unsubscribe_all [] s = done (set_subscriber_mode false s)
unsubscribe_all (channel ∷ channels) s = do
  s1 ← unsubscribe_one channel s
  unsubscribe_all channels s1

unfoldable pub unsubscribe_each : Items → Session → Outcome Session
unfolding unsubscribe_one
unsubscribe_each nil s =
    if subscriptions_of s == 0 then done (set_subscriber_mode false s) else done s
unsubscribe_each (cons (int z) vs) s = done (reply (encode_error invalid_channel_name) s)
unsubscribe_each (cons (arr us) vs) s = done (reply (encode_error invalid_channel_name) s)
unsubscribe_each (cons (str channel) vs) s = do
  s1 ← unsubscribe_one channel s
  unsubscribe_each vs s1

unfoldable pub handle_unsubscribe : Items → Session → Outcome Session
unfolding unsubscribe_all unsubscribe_each
handle_unsubscribe vs s =
    if count vs == 1
    then unsubscribe_all (get_subscribed_channels s.conn s.pub_sub) s
    else unsubscribe_each (rest_of vs) s

-- The channel and the message, by their types.
abbrev pub publish_values : Value → Value → Session → Outcome Session
publish_values (str channel) (str message) s = do
  (n, ps) ← publish channel message s.pub_sub
  done (reply (encode_publish_response n) (record s { pub_sub = ps }))
publish_values (str channel) (int z) s = done (reply (encode_error invalid_message) s)
publish_values (str channel) (arr us) s = done (reply (encode_error invalid_message) s)
publish_values (int z) v s = done (reply (encode_error invalid_channel_name) s)
publish_values (arr us) v s = done (reply (encode_error invalid_channel_name) s)

unfoldable pub handle_publish : Items → Session → Outcome Session
handle_publish nil s = done (reply (encode_error wrong_publish) s)
handle_publish (cons command nil) s = done (reply (encode_error wrong_publish) s)
handle_publish (cons command (cons channel nil)) s = done (reply (encode_error wrong_publish) s)
handle_publish (cons command (cons channel (cons message nil))) s = publish_values channel message s
handle_publish (cons command (cons channel (cons message (cons v vs)))) s =
    done (reply (encode_error wrong_publish) s)
