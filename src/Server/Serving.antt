-- ===== src/Server/Serving.antt =====
-- internal/server/handler.go: one command of a client on a node that stands alone or leads.
use gocache.Prelude.{
  ℕ, suc, ◌<◌, ◌^◌, ◌≡◌, refl, ap, ◌∙◌, Bool, false, List, [], ◌∷◌, ◌++◌, length, ◌&&◌,
  if◌then◌else◌, done, ◌>>=◌,
}
use gocache.Prelude.Int.{ℤ, pos}
use gocache.Prelude.Maps.{Bytes, bytes_discrete}
use gocache.Prelude.Decimal.{parse_int-format_int}
use gocache.Prelude.Duration.{seconds, IsWhole}
use gocache.Resp.{str}
use gocache.Resp.Encoder.{encode_simple_string}
use gocache.Cache.{expiry}
use gocache.Cache.Spec.{Entry, spec_set, spec_get}
use gocache.Cache.Steps.{Refines}
use gocache.Cache.Runs.{set-Becomes, get_value-Replies, delete_key-Becomes}
use gocache.Cache.Writes.{set_write, delete_write}
use gocache.Server.Session.{Session, arg}
use gocache.Server.Exec.{lifetime_argument, lasting, number_or, bulk_or_null, one_reply}
use gocache.Server.Texts.{get_word, ping_word, ok_text, pong, not_an_integer}
use gocache.Persistence.{set_word, del_word}
use gocache.Server.Handlers.{finish_write, set_for, handle_set, handle_get, handle_delete}
use gocache.Server.Connection.{
  handled, finished, handle_command, handle_value, dispatch, route_command, perform_command,
}
use gocache.Server.Commands.{
  Command, plain_set, set_ex, get_one, del_one, ping, command_items, IsCommand, spec_command,
}
use gocache.Server.Transactions.{HasRoom, HasRoom-suc}
use gocache.Server.Passing.{Standalone, logged_write, Passed, Passed-same, finish_write-Passed}

-- Tests that fail.
skip {ℓ} : {A : Type ℓ} (b : Bool) (x y : A) → b ≡ false → (if b then x else y) ≡ y
skip b x y h = rw h refl

skip_both {ℓ} : {A : Type ℓ} (b c : Bool) (x y : A) → b ≡ false → (if b && c then x else y) ≡ y
skip_both b c x y h = rw h refl

module _ (exceeds : ℕ → ℕ → ℤ → Bool) (whole : ℤ → ℤ) (hash : Bytes → ℕ) where
  abbrev command_word : Command → Bytes
  command_word (plain_set key value) = set_word
  command_word (set_ex key value z) = set_word
  command_word (get_one key) = get_word
  command_word (del_one key) = del_word
  command_word ping = ping_word

  -- The command reaches the last switch.
  handle_command-perform_command :
      (clock : ℕ → ℕ) (c : Command) (s : Session)
      → Standalone s
      → handle_command exceeds whole hash clock (command_items c) s
        ≡ finished
            (perform_command exceeds whole hash clock (str (command_word c)) (command_items c) s)
  unfolding handle_command handle_value dispatch route_command bytes_discrete arg
  handle_command-perform_command clock (plain_set key value) s alone =
      skip_both _ _ _ _ alone.no_subscriber
      ∙ skip _ _ _ alone.no_transaction
      ∙ ap finished (skip_both _ _ _ _ alone.no_cluster)
  handle_command-perform_command clock (set_ex key value z) s alone =
      skip_both _ _ _ _ alone.no_subscriber
      ∙ skip _ _ _ alone.no_transaction
      ∙ ap finished (skip_both _ _ _ _ alone.no_cluster)
  handle_command-perform_command clock (get_one key) s alone =
      skip_both _ _ _ _ alone.no_subscriber
      ∙ skip _ _ _ alone.no_transaction
      ∙ ap finished (skip_both _ _ _ _ alone.no_cluster)
  handle_command-perform_command clock (del_one key) s alone =
      skip_both _ _ _ _ alone.no_subscriber
      ∙ skip _ _ _ alone.no_transaction
      ∙ ap finished (skip_both _ _ _ _ alone.no_cluster)
  handle_command-perform_command clock ping s alone =
      skip_both _ _ _ _ alone.no_subscriber
      ∙ skip _ _ _ alone.no_transaction
      ∙ ap finished (skip_both _ _ _ _ alone.no_cluster)

  -- What a command does: the reply, the entries, and the writes that are sent on.
  abbrev pub Serves : (ℕ → ℕ) → ℕ → Command → Session → List Entry → Type 0
  Serves clock n c s es =
      (s' : Session) × (handle_command exceeds whole hash clock (command_items c) s
        ≡ done (handled s'))
      × Refines s'.cache (spec_command s.cache.max_size (clock 0) c es).1
      × (s'.cache.max_size ≡ s.cache.max_size)
      × (s'.cache.held ≡ false)
      × (s'.out ≡ s.out ++ (spec_command s.cache.max_size (clock 0) c es).0)
      × Passed n (logged_write whole c) s s'

  -- A SET that is not refused, and a DEL.
  handle_set-runs :
      (clock : ℕ → ℕ) (n : ℕ) (key value : Bytes) (z : ℤ) (s : Session) (es : List Entry)
      → IsWhole whole
      → (length key < 2 ^ 63) × (length value < 2 ^ 63)
      → Standalone s
      → HasRoom s.node.leader (suc n)
      → s.cache.held ≡ false
      → Refines s.cache es
      → (s' : Session) × (set_for exceeds whole (clock 0) key value (lasting z) s ≡ done s')
        × Refines s'.cache (spec_set s.cache.max_size key value (expiry (seconds z) (clock 0)) es)
        × (s'.cache.max_size ≡ s.cache.max_size)
        × (s'.cache.held ≡ false)
        × (s'.out ≡ s.out ++ encode_simple_string ok_text)
        × Passed n (set_write key value (whole (seconds z)) ∷ []) s s'
  handle_set-runs clock n key value z s es w short alone room free r =
      let (c', ran, r', size, lock) =
        set-Becomes s.cache es free r key value (seconds z) (clock 0) in
      let (s', ran', cache, out, passed) =
        finish_write-Passed exceeds n (set_write key value (whole (seconds z)))
          (encode_simple_string ok_text) c' s alone room (short.0, short.1, w.fits (seconds z)) in
      (s', rw ran ran', rw cache r', rw cache size, rw cache (lock ∙ free), out, passed)

  pub handle_command-Serves :
      (clock : ℕ → ℕ) (n : ℕ) (c : Command) (s : Session) (es : List Entry)
      → IsWhole whole
      → IsCommand c
      → Standalone s
      → HasRoom s.node.leader (suc n)
      → s.cache.held ≡ false
      → Refines s.cache es
      → Serves clock n c s es
  unfolding perform_command handle_set handle_get handle_delete lifetime_argument arg bytes_discrete
      seconds
  handle_command-Serves clock n (plain_set key value) s es w h alone room free r =
      let (s', ran, r', size, lock, out, passed) =
        handle_set-runs clock n key value (pos 0) s es w h alone room free r in
      (
        s',
        handle_command-perform_command clock (plain_set key value) s alone
            ∙ ap finished (skip _ _ _ alone.no_follower ∙ ran),
        r',
        size,
        lock,
        out,
        passed,
      )
  handle_command-Serves clock n (set_ex key value z) s es w h alone room free r =
      let (s', ran, r', size, lock, out, passed) =
        handle_set-runs clock n key value z s es w (h.0, h.1) alone room free r in
      (
        s',
        handle_command-perform_command clock (set_ex key value z) s alone
            ∙ ap finished (
                skip _ _ _ alone.no_follower
                ∙ ap (λ t. set_for exceeds whole (clock 0) key value (number_or not_an_integer t) s)
                    (parse_int-format_int z h.2)
                ∙ ran),
        r',
        size,
        lock,
        out,
        passed,
      )
  handle_command-Serves clock n (get_one key) s es w h alone room free r =
      let (c', ran, r', size, lock) = get_value-Replies s.cache es free r key (clock 0) in
      let out = s.out ++ bulk_or_null (spec_get key (clock 0) es).0 in
      (
        record s { cache = c'; out = out },
        handle_command-perform_command clock (get_one key) s alone ∙ rw ran refl,
        r',
        size,
        lock ∙ free,
        refl,
        Passed-same n s c' out alone (HasRoom-suc n s.node.leader room),
      )
  handle_command-Serves clock n (del_one key) s es w h alone room free r =
      let (c', ran, r', size, lock) = delete_key-Becomes s.cache es free r key in
      let (s', ran', cache, out, passed) =
        finish_write-Passed exceeds n (delete_write key) one_reply c' s alone room h in
      (
        s',
        handle_command-perform_command clock (del_one key) s alone
            ∙ ap finished (
                skip _ _ _ alone.no_follower
                ∙ ap (λ o. o >>= λ k. finish_write exceeds (delete_write key) one_reply k s) ran
                ∙ ran'),
        rw cache r',
        rw cache size,
        rw cache (lock ∙ free),
        out,
        passed,
      )
  handle_command-Serves clock n ping s es w h alone room free r =
      let out = s.out ++ encode_simple_string pong in
      (
        record s { out = out },
        handle_command-perform_command clock ping s alone,
        r,
        refl,
        free,
        refl,
        Passed-same n s s.cache out alone (HasRoom-suc n s.node.leader room),
      )
