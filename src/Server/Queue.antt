-- ===== src/Server/Queue.antt =====
-- internal/server/handler.go: the transaction of a connection under the handlers.
use gocache.Prelude.{
  ℕ, ◌≡◌, refl, Bool, true, false, ◌||◌, Option, none, List, [], ◌∷◌, All, if◌then◌else◌, Outcome,
  done, panic, blocked, ◌>>=◌, ltb, ◌==◌,
}
use gocache.Prelude.Int.{ℤ}
use gocache.Prelude.Maps.{Bytes}
use gocache.Prelude.Duration.{seconds}
use gocache.Resp.{Value, Items, str, int, arr, nil, cons}
use gocache.Resp.Encoder.{count, encode_subscribe_confirmation, encode_unsubscribe_confirmation}
use gocache.Cache.{set, get_value, delete_key, get_all_keys}
use gocache.PubSub.{subscribe, unsubscribe, publish}
use gocache.Config.{same_bytes, follower_role}
use gocache.Server.Session.{Session, arg, can_queue_command, validation_error}
use gocache.Server.Exec.{
  Lifetime, refused, lasting, lifetime_argument, send_on, exec_after, handle_exec,
}
use gocache.Server.Handlers.{
  set_for, handle_set, handle_get, handle_delete, handle_dbsize, handle_publish, subscribe_each,
  unsubscribe_one, unsubscribe_all, unsubscribe_each, publish_values, subscriptions_of,
}
use gocache.Server.Texts.{not_an_integer, bad_seconds}
use gocache.Cache.Writes.{set_write, delete_write}
use gocache.Server.Connection.{Handled, handled, for_cluster, finished}

-- A command that may stand in a queue, with a valid number of arguments.
abbrev pub IsQueued : Items → Type 0
IsQueued vs =
    (command : Bytes) × (arg 0 vs ≡ done command)
    × (can_queue_command command ≡ true)
    × (validation_error command (count vs) ≡ none)

-- By whether a transaction runs: its queue is checked, or there is neither a queue nor an error.
abbrev pub QueueIs : Bool → List Items → Option Bytes → Type 0
QueueIs true queue error = All IsQueued queue
QueueIs false queue error = (queue ≡ []) × (error ≡ none)

abbrev pub HasValidQueue : Session → Type 0
HasValidQueue s = QueueIs s.state.in_transaction s.state.command_queue s.state.transaction_error

-- What holds of the session if there is one after all.
abbrev Holds : Outcome Session → Type 0
Holds (done s) = HasValidQueue s
Holds panic = Unit
Holds blocked = Unit

abbrev pub HoldsHandled : Outcome Handled → Type 0
HoldsHandled (done (handled s)) = HasValidQueue s
HoldsHandled (done (for_cluster vs s)) = HasValidQueue s
HoldsHandled panic = Unit
HoldsHandled blocked = Unit

pub record After (o : Outcome Session) : Type 0 where
  pub holds : Holds o

pub record AfterHandled (o : Outcome Handled) : Type 0 where
  pub holds_handled : HoldsHandled o

pub kept : (s : Session) → HasValidQueue s → After (done s)
kept s h = record { holds = h }

pub After-bind :
    {A : Type 0} (m : Outcome A) (k : A → Outcome Session)
    → ((a : A) → After (k a))
    → After (m >>= k)
After-bind (done a) k h = h a
After-bind panic k h = record { holds = tt }
After-bind blocked k h = record { holds = tt }

pub After-if : (b : Bool) (x y : Outcome Session) → After x → After y → After (if b then x else y)
After-if true x y hx hy = hx
After-if false x y hx hy = hy

pub AfterHandled-if :
    (b : Bool) (x y : Outcome Handled)
    → AfterHandled x
    → AfterHandled y
    → AfterHandled (if b then x else y)
AfterHandled-if true x y hx hy = hx
AfterHandled-if false x y hx hy = hy

pub finished-AfterHandled : (o : Outcome Session) → After o → AfterHandled (finished o)
finished-AfterHandled (done s) h = record { holds_handled = h.holds }
finished-AfterHandled panic h = record { holds_handled = tt }
finished-AfterHandled blocked h = record { holds_handled = tt }

pub handle_get-After :
    (now : ℕ) (vs : Items) (s : Session) → HasValidQueue s → After (handle_get now vs s)
unfolding handle_get
handle_get-After now vs s h =
    After-if (count vs == 2) _ _
      (After-bind (arg 1 vs) _ (λ key. After-bind (get_value key now s.cache) _ (λ r. kept _ h)))
      (kept _ h)

pub handle_dbsize-After : (s : Session) → HasValidQueue s → After (handle_dbsize s)
unfolding handle_dbsize
handle_dbsize-After s h = After-bind (get_all_keys s.cache) _ (λ keys. kept _ h)

pub subscribe_each-After :
    (vs : Items) (s : Session) → HasValidQueue s → After (subscribe_each vs s)
unfolding subscribe_each
subscribe_each-After nil s h = kept _ h
subscribe_each-After (cons (int z) vs) s h = kept _ h
subscribe_each-After (cons (arr us) vs) s h = kept _ h
subscribe_each-After (cons (str channel) vs) s h =
    After-bind (subscribe s.conn channel s.pub_sub) _ (λ ps.
      After-bind
        (encode_subscribe_confirmation channel (subscriptions_of (record s { pub_sub = ps }))) _
        (λ confirmation. subscribe_each-After vs _ h))

After-next :
    (o : Outcome Session) (k : Session → Outcome Session)
    → After o
    → ((s : Session) → HasValidQueue s → After (k s))
    → After (o >>= k)
After-next (done s) k h next = next s h.holds
After-next panic k h next = record { holds = tt }
After-next blocked k h next = record { holds = tt }

unsubscribe_one-After :
    (channel : Bytes) (s : Session) → HasValidQueue s → After (unsubscribe_one channel s)
unfolding unsubscribe_one
unsubscribe_one-After channel s h = After-bind (unsubscribe s.conn channel s.pub_sub) _ (λ r.
    After-bind
      (encode_unsubscribe_confirmation channel (subscriptions_of (record s { pub_sub = r.1 }))) _
      (λ confirmation. kept _ h))

pub unsubscribe_all-After :
    (channels : List Bytes) (s : Session) → HasValidQueue s → After (unsubscribe_all channels s)
unfolding unsubscribe_all
unsubscribe_all-After [] s h = kept _ h
unsubscribe_all-After (channel ∷ channels) s h =
    After-next (unsubscribe_one channel s) (unsubscribe_all channels)
      (unsubscribe_one-After channel s h) (unsubscribe_all-After channels)

pub unsubscribe_each-After :
    (vs : Items) (s : Session) → HasValidQueue s → After (unsubscribe_each vs s)
unfolding unsubscribe_each
unsubscribe_each-After nil s h = After-if (subscriptions_of s == 0) _ _ (kept _ h) (kept _ h)
unsubscribe_each-After (cons (int z) vs) s h = kept _ h
unsubscribe_each-After (cons (arr us) vs) s h = kept _ h
unsubscribe_each-After (cons (str channel) vs) s h =
    After-next (unsubscribe_one channel s) (unsubscribe_each vs) (unsubscribe_one-After channel s h)
      (unsubscribe_each-After vs)

publish_values-After : (u v : Value) (s : Session) → HasValidQueue s → After (publish_values u v s)
publish_values-After (str channel) (str message) s h =
    After-bind (publish channel message s.pub_sub) _ (λ r. kept _ h)
publish_values-After (str channel) (int z) s h = kept _ h
publish_values-After (str channel) (arr us) s h = kept _ h
publish_values-After (int z) v s h = kept _ h
publish_values-After (arr us) v s h = kept _ h

pub handle_publish-After :
    (vs : Items) (s : Session) → HasValidQueue s → After (handle_publish vs s)
unfolding handle_publish
handle_publish-After nil s h = kept _ h
handle_publish-After (cons command nil) s h = kept _ h
handle_publish-After (cons command (cons channel nil)) s h = kept _ h
handle_publish-After (cons command (cons channel (cons message nil))) s h =
    publish_values-After channel message s h
handle_publish-After (cons command (cons channel (cons message (cons v vs)))) s h = kept _ h

module _ (exceeds : ℕ → ℕ → ℤ → Bool) (whole : ℤ → ℤ) where
  set_for-After :
      (now : ℕ) (key value : Bytes) (l : Lifetime) (s : Session)
      → HasValidQueue s
      → After (set_for exceeds whole now key value l s)
  set_for-After now key value (refused text) s h = kept _ h
  set_for-After now key value (lasting z) s h =
      After-bind (set key value (seconds z) now s.cache) _ (λ c.
        After-bind
          (send_on exceeds (set_write key value (whole (seconds z))) (s.node.leader, s.aof)) _
          (λ r. kept _ h))

  pub handle_set-After :
      (now : ℕ) (vs : Items) (s : Session)
      → HasValidQueue s
      → After (handle_set exceeds whole now vs s)
  unfolding handle_set
  handle_set-After now vs s h = After-if (same_bytes s.node.role follower_role) _ _ (kept _ h) (
      After-if (ltb (count vs) 3 || ltb 5 (count vs)) _ _ (kept _ h) (
        After-bind (arg 1 vs) _ (λ key. After-bind (arg 2 vs) _ (λ value.
          After-bind (lifetime_argument not_an_integer bad_seconds vs) _
            (λ l. set_for-After now key value l s h)))))

  pub handle_delete-After :
      (vs : Items) (s : Session) → HasValidQueue s → After (handle_delete exceeds vs s)
  unfolding handle_delete
  handle_delete-After vs s h = After-if (same_bytes s.node.role follower_role) _ _ (kept _ h) (
      After-if (count vs == 2) _ _
        (After-bind (arg 1 vs) _ (λ key. After-bind (delete_key key s.cache) _ (λ c.
          After-bind (send_on exceeds (delete_write key) (s.node.leader, s.aof)) _
            (λ r. kept _ h))))
        (kept _ h))

  pub handle_exec-After :
      (clock : ℕ → ℕ) (s : Session) → HasValidQueue s → After (handle_exec exceeds clock s)
  unfolding handle_exec
  handle_exec-After clock s h =
      After-if s.state.in_transaction _ _
        (After-bind (exec_after exceeds s.state.transaction_error clock s.state.command_queue s) _
          (λ s'. kept _ (refl, refl)))
        (kept _ h)
