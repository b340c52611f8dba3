-- ===== src/Server/Dispatch.antt =====
-- internal/server/handler.go: the transaction of a connection under every command.
use gocache.Prelude.{
  ℕ, ◌≡◌, refl, Bool, true, false, ◌||◌, ◌&&◌, not, Option, none, some, List, [], ◌∷◌, ◌++◌, All,
  All-append, if◌then◌else◌, Outcome, done, ltb, ◌==◌,
}
use gocache.Prelude.Int.{ℤ}
use gocache.Prelude.Maps.{Bytes}
use gocache.Resp.{Value, Items, str, int, arr, nil, cons}
use gocache.Resp.Encoder.{count}
use gocache.PubSub.{get_subscribed_channels}
use gocache.Config.{same_bytes}
use gocache.Server.Session.{
  Session, reply, arg, can_queue_command, validation_error, queue_checked, queue_after,
  queue_command, handle_multi, handle_discard,
}
use gocache.Server.Handlers.{handle_subscribe, handle_unsubscribe, rest_of}
use gocache.Server.State.{is_cluster_mode}
use gocache.Config.{is_nonempty}
use gocache.Persistence.{set_word, del_word}
use gocache.Resp.Encoder.{encode_error}
use gocache.Server.Texts.{
  get_word, dbsize_word, ping_word, multi_word, exec_word, discard_word, subscribe_command,
  unsubscribe_command, publish_command, cluster_command, err_command, not_in_transaction,
}
use gocache.Server.Connection.{
  handled, finished, is_command, key_of, allowed_in_subscriber_mode, perform_command, route_command,
  forward_or, dispatch, transact, handle_value, handle_command,
}
use gocache.Server.Queue.{
  IsQueued, QueueIs, HasValidQueue, HoldsHandled, After, AfterHandled, kept, After-bind, After-if,
  AfterHandled-if, finished-AfterHandled, handle_get-After, handle_dbsize-After,
  handle_publish-After, handle_set-After, handle_delete-After, handle_exec-After,
  subscribe_each-After, unsubscribe_all-After, unsubscribe_each-After,
}

After-either :
    (b : Bool) (x y : Session) → After (done x) → After (done y) → After (done (if b then x else y))
After-either true x y hx hy = hx
After-either false x y hx hy = hy

handle_multi-After : (s : Session) → HasValidQueue s → After (done (handle_multi s))
unfolding handle_multi
handle_multi-After s h = After-either s.state.in_transaction _ _ (kept _ h) (kept _ tt)

handle_discard-After : (s : Session) → HasValidQueue s → After (done (handle_discard s))
unfolding handle_discard
handle_discard-After s h = After-either s.state.in_transaction _ _ (kept _ (refl, refl)) (kept _ h)

queue_while_running :
    (b : Bool) (queue : List Items) (error : Option Bytes)
    → b ≡ true
    → All IsQueued queue
    → QueueIs b queue error
queue_while_running true queue error t h = h
queue_while_running false queue error t h = absurd (cc t)

running_queue :
    (b : Bool) (queue : List Items) (error : Option Bytes)
    → b ≡ true
    → QueueIs b queue error
    → All IsQueued queue
running_queue true queue error t h = h
running_queue false queue error t h = absurd (cc t)

queue_checked-After :
    (command : Bytes) (us : Items) (s : Session) (o : Option Bytes)
    → validation_error command (count (cons (str command) us)) ≡ o
    → can_queue_command command ≡ true
    → s.state.in_transaction ≡ true
    → All IsQueued s.state.command_queue
    → After (done (queue_checked o (cons (str command) us) s))
unfolding arg
queue_checked-After command us s (some e) checked can running h =
    kept _ (queue_while_running s.state.in_transaction s.state.command_queue (some e) running h)
queue_checked-After command us s none checked can running h = kept _ (
    queue_while_running s.state.in_transaction
      (s.state.command_queue ++ (cons (str command) us ∷ [])) s.state.transaction_error running
      (All-append IsQueued s.state.command_queue (cons (str command) us ∷ []) h
        ((command, refl, can, checked), tt)))

queue_command-After :
    (command : Bytes) (us : Items) (s : Session)
    → can_queue_command command ≡ true
    → s.state.in_transaction ≡ true
    → HasValidQueue s
    → After (queue_command (cons (str command) us) s)
unfolding queue_command arg
queue_command-After command us s can running h = after s.state.transaction_error
  where
    after : (error : Option Bytes) → After (queue_after error (cons (str command) us) s)
    after (some e) = kept _ h
    after none =
        queue_checked-After command us s (validation_error command (count (cons (str command) us)))
          refl can running
          (running_queue s.state.in_transaction s.state.command_queue s.state.transaction_error
            running h)

handle_unsubscribe-After :
    (vs : Items) (s : Session) → HasValidQueue s → After (handle_unsubscribe vs s)
unfolding handle_unsubscribe
handle_unsubscribe-After vs s h =
    After-if (count vs == 1) _ _
      (unsubscribe_all-After (get_subscribed_channels s.conn s.pub_sub) s h)
      (unsubscribe_each-After (rest_of vs) s h)

handle_subscribe-After :
    (vs : Items) (s : Session) → HasValidQueue s → After (handle_subscribe vs s)
unfolding handle_subscribe
handle_subscribe-After vs s h =
    After-if (ltb (count vs) 2) _ _ (kept _ h) (subscribe_each-After (rest_of vs) s h)

module _ (exceeds : ℕ → ℕ → ℤ → Bool) (whole : ℤ → ℤ) (hash : Bytes → ℕ) (clock : ℕ → ℕ) where
  perform_command-After :
      (command : Value) (vs : Items) (s : Session)
      → HasValidQueue s
      → After (perform_command exceeds whole hash clock command vs s)
  unfolding perform_command
  perform_command-After command vs s h =
      After-if (is_command set_word command) _ _ (handle_set-After exceeds whole (clock 0) vs s h) (
        After-if (is_command get_word command) _ _ (handle_get-After (clock 0) vs s h) (
          After-if (is_command del_word command) _ _ (handle_delete-After exceeds whole vs s h) (
            After-if (is_command dbsize_word command) _ _ (handle_dbsize-After s h) (
              After-if (is_command ping_word command) _ _ (kept _ h) (
                After-if (is_command multi_word command) _ _ (handle_multi-After s h) (
                  After-if (is_command exec_word command) _ _
                    (handle_exec-After exceeds whole clock s h)
                    (After-if (is_command discard_word command) _ _ (handle_discard-After s h)
                      (After-bind (arg 0 vs) _ (λ text. kept _ h)))))))))

  forward_or-After :
      (target : Option (Bytes × Bytes)) (run : Outcome Session) (s : Session)
      → HasValidQueue s
      → After run
      → After (forward_or exceeds whole hash clock target run s)
  forward_or-After none run s h ran = ran
  forward_or-After (some target) run s h ran = kept _ h

  route_command-After :
      (command : Value) (vs : Items) (s : Session)
      → HasValidQueue s
      → After (route_command exceeds whole hash clock command vs s)
  unfolding route_command
  route_command-After command vs s h =
      let run = perform_command-After command vs s h in
      After-bind (key_of vs) _ (λ key.
        After-if (is_cluster_mode s.node && is_nonempty key) _ _ (forward_or-After _ _ s h run) run)

  dispatch-AfterHandled :
      (command : Value) (vs : Items) (s : Session)
      → HasValidQueue s
      → AfterHandled (dispatch exceeds whole hash clock command vs s)
  unfolding dispatch
  dispatch-AfterHandled command vs s h =
      AfterHandled-if (is_command subscribe_command command) _ _
        (finished-AfterHandled _ (handle_subscribe-After vs s h))
        (AfterHandled-if (is_command unsubscribe_command command) _ _
          (finished-AfterHandled _ (handle_unsubscribe-After vs s h))
          (AfterHandled-if (is_command publish_command command) _ _
            (finished-AfterHandled _ (handle_publish-After vs s h))
            (AfterHandled-if (is_command cluster_command command) _ _ (record { holds_handled = h })
              (finished-AfterHandled _ (route_command-After command vs s h)))))

  transact-AfterHandled :
      (command : Value) (us : Items) (s : Session)
      → s.state.in_transaction ≡ true
      → HasValidQueue s
      → AfterHandled (transact exceeds whole hash clock command (cons command us) s)
  transact-AfterHandled (int z) us s running h = dispatch-AfterHandled (int z) (cons (int z) us) s h
  transact-AfterHandled (arr ws) us s running h =
      dispatch-AfterHandled (arr ws) (cons (arr ws) us) s h
  transact-AfterHandled (str command) us s running h =
      AfterHandled-if (same_bytes command exec_word || same_bytes command discard_word) _ _
        (dispatch-AfterHandled (str command) (cons (str command) us) s h)
        (queued (can_queue_command command) refl)
    where
      queued :
          (b : Bool)
          → can_queue_command command ≡ b
          → AfterHandled (
              if b
              then finished (queue_command (cons (str command) us) s)
              else done (
                  handled
                    (reply (encode_error (err_command ++ (command ++ not_in_transaction))) s)))
      queued true can = finished-AfterHandled _ (queue_command-After command us s can running h)
      queued false can = record { holds_handled = h }

  handle_value-AfterHandled :
      (command : Value) (us : Items) (s : Session)
      → HasValidQueue s
      → AfterHandled (handle_value exceeds whole hash clock command (cons command us) s)
  unfolding handle_value
  handle_value-AfterHandled command us s h =
      AfterHandled-if (s.state.subscriber_mode && not (allowed_in_subscriber_mode command)) _ _
        (record { holds_handled = h }) (in_transaction s.state.in_transaction refl)
    where
      in_transaction :
          (b : Bool)
          → s.state.in_transaction ≡ b
          → AfterHandled (
              if b
              then transact exceeds whole hash clock command (cons command us) s
              else dispatch exceeds whole hash clock command (cons command us) s)
      in_transaction true running = transact-AfterHandled command us s running h
      in_transaction false running = dispatch-AfterHandled command (cons command us) s h

  -- Whatever command a client sends, and however it ends: if outside a transaction the queue is empty
  -- and without an error, and in one the queue holds only commands that may be queued, with a valid
  -- number of arguments, then it is so again after the command.
  pub handle_command-HoldsHandled :
      (vs : Items) (s : Session)
      → HasValidQueue s
      → HoldsHandled (handle_command exceeds whole hash clock vs s)
  unfolding handle_command
  handle_command-HoldsHandled nil s h = tt
  handle_command-HoldsHandled (cons command us) s h =
      (handle_value-AfterHandled command us s h).holds_handled
