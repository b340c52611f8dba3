-- ===== src/Server/Aborts.antt =====
-- internal/server/handler.go: transactions that do not do what they say.
use gocache.Prelude.{
  ℕ, suc, ◌<◌, ◌^◌, ◌≡◌, refl, ap, ◌∙◌, Bool, true, false, none, List, [], ◌∷◌, ◌++◌, map, arith,
  All, length, done, blocked, ◌>>=◌, >>=-eq-done,
}
use gocache.Prelude.Int.{ℤ, pos}
use gocache.Prelude.Maps.{Bytes, bytes_discrete}
use gocache.Prelude.Decimal.{parse_int}
use gocache.Resp.{Items, str, nil, cons}
use gocache.Resp.Encoder.{encode_error}
use gocache.Cache.{Cache, lock, unlock, read_lock, get_all_keys}
use gocache.Cache.Spec.{Entry}
use gocache.Cache.Steps.{Refines}
use gocache.Cache.Runs.{Refines-held}
use gocache.Cache.Writes.{set_write}
use gocache.Persistence.{set_word}
use gocache.Persistence.Log.{IsLog}
use gocache.Server.Session.{Session, arg, cleared}
use gocache.Server.Exec.{
  execute_command, execute_set_command, execute_dbsize_command, lifetime_argument, queued_lifetime,
  queued_write, out_of_range, replicate_if, execute_queue, send_on_queue, array_reply,
  run_transaction, handle_exec,
}
use gocache.Server.Texts.{dbsize_word}
use gocache.Server.Commands.{
  Command, command_items, IsCommand, spec_commands, execute_queue-Replies,
}
use gocache.Server.Transactions.{HasRoom, send_on-ends}

-- The queue runs the commands before DBSIZE, and is stuck there.
execute_queue-blocked :
    (clock : ℕ → ℕ) (i : ℕ) (queue more : List Items) (c c' : Cache) (replies : Bytes)
    → execute_queue clock i queue c ≡ done (replies, c')
    → c'.held ≡ true
    → execute_queue clock i (queue ++ (cons (str dbsize_word) nil ∷ more)) c ≡ blocked
unfolding execute_queue execute_command execute_dbsize_command arg bytes_discrete get_all_keys
    read_lock
execute_queue-blocked clock i [] more c c' replies ran held =
    let same : c ≡ c' = cc ran in
    let held' : c.held ≡ true = ap (λ (k : Cache). k.held) same ∙ held in rw held' refl
execute_queue-blocked clock i (vs ∷ queue) more c c' replies ran held =
    let (first, ran1, ran2) =
      >>=-eq-done (execute_command (clock i) vs c)
        (λ r. execute_queue clock (suc i) queue r.1 >>= λ t. done (r.0 ++ t.0, t.1)) ran in
    let (rest, ran3, ran4) =
      >>=-eq-done (execute_queue clock (suc i) queue first.1) (λ t. done (first.0 ++ t.0, t.1))
        ran2 in
    let last : rest.1 ≡ c' = cc ran4 in
    rw
      (
        ran1,
        execute_queue-blocked clock (suc i) queue more first.1 rest.1 rest.0 ran3
            (ap (λ (k : Cache). k.held) last ∙ held),
      )
      refl

module _ (exceeds : ℕ → ℕ → ℤ → Bool) where
  -- EXEC with DBSIZE in the queue, after any well-formed SET, GET, DEL and PING commands and before
  -- any commands, waits for ever on a free cache that holds some entries: GetAllKeys asks for the
  -- lock that EXEC itself holds.
  pub handle_exec-blocked :
      (clock : ℕ → ℕ) (cs : List Command) (more : List Items) (s : Session) (es : List Entry)
      → s.state.in_transaction ≡ true
      → s.state.transaction_error ≡ none
      → s.state.command_queue ≡ map command_items cs ++ (cons (str dbsize_word) nil ∷ more)
      → All IsCommand cs
      → s.cache.held ≡ false
      → Refines s.cache es
      → handle_exec exceeds clock s ≡ blocked
  unfolding handle_exec run_transaction lock
  handle_exec-blocked clock cs more s es running fine at h free r =
      let spec = spec_commands s.cache.max_size clock 0 cs es in
      let (c', ran, r', size, held) =
        execute_queue-Replies clock 0 s.cache.max_size cs (record s.cache { held = true }) es h refl
          (Refines-held s.cache es true r) in
      let stuck =
        execute_queue-blocked clock 0 (map command_items cs) more (record s.cache { held = true })
          c' spec.0 ran held in
      rw (running, fine, at, free, stuck) refl

  -- A queued SET with a lifetime that is no number is answered with an error and leaves the entries
  -- of the cache, yet EXEC sends the followers and appends to the log a SET without a lifetime.
  pub handle_exec-refused_set :
      (clock : ℕ → ℕ) (key value text : Bytes) (s : Session) (es : List Entry)
      → s.state.in_transaction ≡ true
      → s.state.transaction_error ≡ none
      → s.state.command_queue
        ≡ cons (str set_word) (cons (str key) (cons (str value) (cons (str text) nil))) ∷ []
      → parse_int text ≡ none
      → (length key < 2 ^ 63) × (length value < 2 ^ 63)
      → HasRoom s.node.leader 1
      → s.cache.held ≡ false
      → Refines s.cache es
      → (s' : Session) × (bytes : Bytes) × (handle_exec exceeds clock s ≡ done s')
        × Refines s'.cache es
        × (s'.out ≡ s.out ++ array_reply 1 (encode_error out_of_range ++ []))
        × (replicate_if (set_write key value (pos 0)) s.node.leader ≡ done s'.node.leader)
        × (s'.aof.file ≡ s.aof.file ++ bytes)
        × IsLog (set_write key value (pos 0) ∷ []) bytes
  unfolding handle_exec run_transaction lock unlock execute_queue execute_command
      execute_set_command lifetime_argument send_on_queue queued_write queued_lifetime arg
      bytes_discrete
  handle_exec-refused_set clock key value text s es running fine at bad short room free r =
      let (leader', a', bytes, ran, sent, file, _, is_log, _, _) =
        send_on-ends exceeds 0 (set_write key value (pos 0)) s.node.leader s.aof room
          (short.0, short.1, omega arith) in
      (
        record s {
          cache = record s.cache { held = false };
          aof = a';
          node = record s.node { leader = leader' };
          state = cleared s.state;
          out = s.out ++ array_reply 1 (encode_error out_of_range ++ []);
        },
        bytes,
        rw (running, fine, at, free, bad, ran) refl,
        Refines-held s.cache es false r,
        refl,
        sent,
        file,
        is_log,
      )
