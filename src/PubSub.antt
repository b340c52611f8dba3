-- ===== src/PubSub.antt =====
-- internal/pubsub/pubsub.go: channels, subscribers and their queues. A connection is a number, and
-- an address of the heap stands for a *Subscriber. A call holds the mutex from start to end.
pub mod Members
pub mod Queues
pub mod Laws
pub mod Leaving
pub mod Joining
pub mod Delivery
pub mod Runs
mod Tests
use gocache.Prelude.{
  ℕ, suc, ◌+◌, Bool, true, false, ◌&&◌, not, Option, none, some, List, [], ◌∷◌, ◌++◌, length, ltb,
  if◌then◌else◌, Outcome, done, panic, ◌>>=◌,
}
use gocache.Prelude.Maps.{Bytes, get, put, delete, keys, nat_key, bytes_key}

pub record Message : Type 0 where
  pub channel : Bytes
  pub content : Bytes

pub record Subscriber : Type 0 where
  pub conn : ℕ
  pub messages : List Message
  pub messages_closed : Bool
  pub done_closed : Bool

pub record PubSub : Type 0 where
  pub connection_to_subscriber : List (ℕ × ℕ)
  pub subscribers : List (Bytes × List (ℕ × ℕ))
  pub subscriptions : List (ℕ × List (Bytes × Bool))
  pub heap : List (ℕ × Subscriber)
  pub next : ℕ

pub data PubSubError : Type 0 where
  no_subscriptions not_subscribed : PubSubError

abbrev pub new_pub_sub : PubSub
new_pub_sub = record {
  connection_to_subscriber = [];
  subscribers = [];
  subscriptions = [];
  heap = [];
  next = 0;
}

abbrev pub new_subscriber : ℕ → Subscriber
new_subscriber conn = record {
  conn = conn;
  messages = [];
  messages_closed = false;
  done_closed = false;
}

-- A missing key of a Go map reads as an empty map, and as `false`.
abbrev pub or_empty {ℓ} : {A : Type ℓ} → Option (List A) → List A
or_empty none = []
or_empty (some m) = m

abbrev pub or_false : Option Bool → Bool
or_false none = false
or_false (some b) = b

-- `ps.subscriptions[conn][channel]`
unfoldable pub wants : ℕ → Bytes → PubSub → Bool
wants conn channel ps = or_false (get channel (or_empty (get conn ps.subscriptions)))

-- `ps.subscriptions[conn][channel] = true`; a write to a nil map panics.
unfoldable pub want : Bytes → Option (List (Bytes × Bool)) → Outcome (List (Bytes × Bool))
want channel none = panic
want channel (some set) = done (put channel true set)

unfoldable pub add_channel : ℕ → Bytes → ℕ → PubSub → Outcome PubSub
unfolding want
add_channel conn channel a ps = do
  set ← want channel (get conn ps.subscriptions)
  done (record ps {
    subscriptions = put conn set ps.subscriptions;
    subscribers = put channel (put conn a (or_empty (get channel ps.subscribers))) ps.subscribers;
  })

unfoldable pub new_connection : ℕ → PubSub → PubSub
new_connection conn ps = record ps {
  connection_to_subscriber = put conn ps.next ps.connection_to_subscriber;
  subscriptions = put conn [] ps.subscriptions;
  heap = put ps.next (new_subscriber conn) ps.heap;
  next = suc ps.next;
}

unfoldable pub subscribe_as : ℕ → Bytes → Option ℕ → PubSub → Outcome PubSub
unfolding new_connection
subscribe_as conn channel none ps = add_channel conn channel ps.next (new_connection conn ps)
subscribe_as conn channel (some a) ps =
    if wants conn channel ps then done ps else add_channel conn channel a ps

unfoldable pub subscribe : ℕ → Bytes → PubSub → Outcome PubSub
unfolding subscribe_as
subscribe conn channel ps = subscribe_as conn channel (get conn ps.connection_to_subscriber) ps

-- `select { case s.messages <- msg: … default: }`: a full queue drops the message, and a send on a
-- closed channel panics. The queue holds 100 messages.
unfoldable pub offer : Message → Option Subscriber → Outcome (Bool × Subscriber)
offer msg none = panic
offer msg (some s) =
    if s.messages_closed
    then panic
    else if ltb (length s.messages) 100
    then done (true, record s { messages = s.messages ++ (msg ∷ []) })
    else done (false, s)

unfoldable pub send_all :
    Message → List (ℕ × ℕ) → List (ℕ × Subscriber) → Outcome (ℕ × List (ℕ × Subscriber))
unfolding offer
send_all msg [] heap = done (0, heap)
send_all msg ((conn, a) ∷ m) heap = do
  (sent, s) ← offer msg (get a heap)
  (count, rest) ← send_all msg m (put a s heap)
  done ((if sent then suc count else count), rest)

unfoldable pub publish : Bytes → Bytes → PubSub → Outcome (ℕ × PubSub)
unfolding send_all
publish channel content ps = do
  (count, h) ←
      send_all (record { channel = channel; content = content })
        (or_empty (get channel ps.subscribers)) ps.heap
  done (count, record ps { heap = h })

-- `close(subscriber.messages); close(subscriber.done)`
unfoldable pub close_subscriber : Option Subscriber → Outcome Subscriber
close_subscriber none = panic
close_subscriber (some s) =
    if s.messages_closed
    then panic
    else if s.done_closed
    then panic
    else done (record s { messages_closed = true; done_closed = true })

-- The two closes and the deletions from the tracking maps.
unfoldable pub forget : ℕ → ℕ → PubSub → Outcome PubSub
unfolding close_subscriber
forget conn a ps = do
  s ← close_subscriber (get a ps.heap)
  done (record ps {
    heap = put a s ps.heap;
    subscriptions = delete conn ps.subscriptions;
    connection_to_subscriber = delete conn ps.connection_to_subscriber;
  })

unfoldable pub cleanup_as : ℕ → Option ℕ → PubSub → Outcome PubSub
cleanup_as conn none ps = done ps
cleanup_as conn (some a) ps = forget conn a ps

abbrev pub cleanup_connection : ℕ → PubSub → Outcome PubSub
cleanup_connection conn ps = cleanup_as conn (get conn ps.connection_to_subscriber) ps

-- `delete(subscribers, conn)`, and the channel too when nobody is left.
abbrev pub put_or_delete :
    Bytes → List (ℕ × ℕ) → List (Bytes × List (ℕ × ℕ)) → List (Bytes × List (ℕ × ℕ))
put_or_delete channel [] all = delete channel all
put_or_delete channel (e ∷ m) all = put channel (e ∷ m) all

unfoldable pub leave :
    ℕ → Bytes → Option (List (ℕ × ℕ)) → List (Bytes × List (ℕ × ℕ)) → List (Bytes × List (ℕ × ℕ))
leave conn channel none all = all
leave conn channel (some m) all = put_or_delete channel (delete conn m) all

unfoldable pub leave_channel : ℕ → Bytes → List (Bytes × List (ℕ × ℕ)) → List (Bytes × List (ℕ × ℕ))
unfolding leave
leave_channel conn channel all = leave conn channel (get channel all) all

abbrev pub cleanup_if_empty : ℕ → List (Bytes × Bool) → PubSub → Outcome PubSub
cleanup_if_empty conn [] ps = cleanup_connection conn ps
cleanup_if_empty conn (c ∷ set) ps = done ps

unfoldable pub unsubscribe_from :
    ℕ → Bytes → Option (List (Bytes × Bool)) → PubSub → Outcome (Option PubSubError × PubSub)
unfolding leave_channel cleanup_as
unsubscribe_from conn channel none ps = done (some no_subscriptions, ps)
unsubscribe_from conn channel (some set) ps =
    if or_false (get channel set)
    then (do
      let left = delete channel set
      ps' ← cleanup_if_empty conn left (record ps {
        subscriptions = put conn left ps.subscriptions;
        subscribers = leave_channel conn channel ps.subscribers;
      })
      done (none, ps'))
    else done (some not_subscribed, ps)

unfoldable pub unsubscribe : ℕ → Bytes → PubSub → Outcome (Option PubSubError × PubSub)
unfolding unsubscribe_from
unsubscribe conn channel ps = unsubscribe_from conn channel (get conn ps.subscriptions) ps

unfoldable pub leave_all :
    ℕ → List (Bytes × Bool) → List (Bytes × List (ℕ × ℕ)) → List (Bytes × List (ℕ × ℕ))
unfolding leave_channel
leave_all conn [] all = all
leave_all conn ((channel, b) ∷ set) all = leave_all conn set (leave_channel conn channel all)

unfoldable pub remove_as : ℕ → Option ℕ → Option (List (Bytes × Bool)) → PubSub → Outcome PubSub
unfolding leave_all forget
remove_as conn none set ps = done ps
remove_as conn (some a) none ps =
    done (record ps { connection_to_subscriber = delete conn ps.connection_to_subscriber })
remove_as conn (some a) (some set) ps =
    forget conn a (record ps { subscribers = leave_all conn set ps.subscribers })

unfoldable pub remove_connection : ℕ → PubSub → Outcome PubSub
unfolding remove_as
remove_connection conn ps =
    remove_as conn (get conn ps.connection_to_subscriber) (get conn ps.subscriptions) ps

abbrev pub get_subscriber_count : Bytes → PubSub → ℕ
get_subscriber_count channel ps = length (or_empty (get channel ps.subscribers))

abbrev pub get_channels : PubSub → List Bytes
get_channels ps = keys ps.subscribers

abbrev pub get_subscribed_channels : ℕ → PubSub → List Bytes
get_subscribed_channels conn ps = keys (or_empty (get conn ps.subscriptions))
