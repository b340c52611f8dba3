-- ===== src/Server/Transactions.antt =====
-- internal/server/handler.go: what EXEC does with the cache, the followers and the log.
use mathlib.Core.List.{append_assoc, append-nil}
use gocache.Prelude.{
  ℕ, suc, ◌+◌, ◌<◌, ◌^◌, ◌≡◌, refl, sym, ap, ◌∙◌, Bool, true, false, Option, none, some, List, [],
  ◌∷◌, ◌++◌, map, arith, All, length, length-map, Outcome, done, ◌>>=◌,
}
use gocache.Prelude.Int.{ℤ}
use gocache.Prelude.Maps.{Bytes}
use gocache.Cache.{lock, unlock}
use gocache.Cache.Spec.{Entry}
use gocache.Cache.Steps.{Refines}
use gocache.Cache.Runs.{Refines-held}
use gocache.Cache.Writes.{Write, IsWrite}
use gocache.Persistence.{Aof, append}
use gocache.Persistence.Log.{IsLog, IsLog-append, encode_array-IsLog, append-file}
use gocache.Replication.Leader.{Leader}
use gocache.Replication.Writes.{replicate_writes, replicate_write_ends}
use gocache.Server.Session.{Session, cleared}
use gocache.Server.Exec.{
  replicate_if, send_on, send_on_if, send_on_queue, array_reply, run_transaction, handle_exec,
}
use gocache.Server.Commands.{
  Command, plain_set, set_ex, get_one, del_one, ping, command_items, IsCommand, command_write,
  spec_commands, execute_queue-Replies, queued_write-command_write,
}

-- The writes among the commands.
abbrev pub write_or : Option Write → List Write → List Write
write_or none ws = ws
write_or (some w) ws = w ∷ ws

abbrev pub writes_of : List Command → List Write
writes_of [] = []
writes_of (c ∷ cs) = write_or (command_write c) (writes_of cs)

-- The calls of Replicate for several writes, if the node is a leader.
abbrev pub replicate_all : List Write → Option Leader → Outcome (Option Leader)
replicate_all ws none = done none
replicate_all ws (some l) = replicate_writes ws l >>= λ l'. done (some l')

-- The numbers of the leader, if there is one, do not run out.
abbrev pub HasRoom : Option Leader → ℕ → Type 0
HasRoom none n = Unit
HasRoom (some l) n = l.seq_num + n < 2 ^ 63

replicate_if_ends :
    (n : ℕ) (w : Write) (leader : Option Leader)
    → HasRoom leader (suc n)
    → IsWrite w
    → (leader' : Option Leader) × (replicate_if w leader ≡ done leader')
      × HasRoom leader' n
      × ((ws : List Write) → replicate_all (w ∷ ws) leader ≡ replicate_all ws leader')
unfolding replicate_writes
replicate_if_ends n w none room h = (none, refl, tt, λ ws. refl)
replicate_if_ends n w (some l) room h =
    let (r, ran, num) = replicate_write_ends w l (omega (arith, room)) h in
    (some r.1, rw ran refl, omega (arith, room, num), λ ws. rw ran refl)

pub HasRoom-suc : (n : ℕ) (leader : Option Leader) → HasRoom leader (suc n) → HasRoom leader n
HasRoom-suc n none room = tt
HasRoom-suc n (some l) room = omega (arith, room)

IsWrite-command_write : (c : Command) → IsCommand c → All IsWrite (write_or (command_write c) [])
IsWrite-command_write (plain_set key value) h = ((h.0, h.1, omega arith), tt)
IsWrite-command_write (set_ex key value z) h = (h, tt)
IsWrite-command_write (get_one key) h = tt
IsWrite-command_write (del_one key) h = (h, tt)
IsWrite-command_write ping h = tt

pub nothing_sent : (leader : Option Leader) → replicate_all [] leader ≡ done leader
unfolding replicate_writes
nothing_sent none = refl
nothing_sent (some l) = refl

module _ (exceeds : ℕ → ℕ → ℤ → Bool) where
  -- A write is sent to the followers and appended to the log.
  pub send_on-ends :
      (n : ℕ) (w : Write) (leader : Option Leader) (a : Aof)
      → HasRoom leader (suc n)
      → IsWrite w
      → (leader' : Option Leader) × (a' : Aof) × (bytes : Bytes) × (send_on exceeds w (leader, a)
          ≡ done (leader', a'))
        × (replicate_if w leader ≡ done leader')
        × (a'.file ≡ a.file ++ bytes)
        × (a'.snapshot_file ≡ a.snapshot_file)
        × IsLog (w ∷ []) bytes
        × HasRoom leader' n
        × ((ws : List Write) → replicate_all (w ∷ ws) leader ≡ replicate_all ws leader')
  send_on-ends n w leader a room h =
      let (leader', ran, room', all) = replicate_if_ends n w leader room h in
      let (bytes, ran', is_log) = encode_array-IsLog w h in
      (
        leader',
        append exceeds bytes a,
        bytes,
        rw (ran, ran') refl,
        ran,
        (append-file exceeds bytes a).0,
        (append-file exceeds bytes a).1,
        is_log,
        room',
        all,
      )

  -- What the sends of some writes leave: the leader after its calls of Replicate, and the log with
  -- the records of the writes.
  abbrev pub Sent : Outcome (Option Leader × Aof) → List Write → Option Leader → Aof → Type 0
  Sent o ws leader a =
      (leader' : Option Leader) × (a' : Aof) × (bytes : Bytes) × (o ≡ done (leader', a'))
      × (replicate_all ws leader ≡ done leader')
      × (a'.file ≡ a.file ++ bytes)
      × IsLog ws bytes

  send_on-Sent :
      (n : ℕ) (w : Write) (ws : List Write) (leader : Option Leader) (a : Aof)
      (k : Option Leader × Aof → Outcome (Option Leader × Aof))
      → HasRoom leader (suc n)
      → IsWrite w
      → ((leader' : Option Leader) (a' : Aof)
          → HasRoom leader' n
          → Sent (k (leader', a')) ws leader' a')
      → Sent (send_on exceeds w (leader, a) >>= k) (w ∷ ws) leader a
  send_on-Sent n w ws leader a k room h then =
      let (leader1, a1, bytes1, ran1, _, file1, _, is_log1, room1, all) =
        send_on-ends n w leader a room h in
      let (leader2, a2, bytes2, ran2, sent2, file2, is_log2) = then leader1 a1 room1 in
      (
        leader2,
        a2,
        bytes1 ++ bytes2,
        rw ran1 ran2,
        all ws ∙ sent2,
        file2 ∙ ap (λ (f : Bytes). f ++ bytes2) file1 ∙ append_assoc a.file bytes1 bytes2,
        IsLog-append (w ∷ []) ws bytes1 bytes2 is_log1 is_log2,
      )

  send_on_if-Sent :
      (n : ℕ) (w : Option Write) (ws : List Write) (leader : Option Leader) (a : Aof)
      (k : Option Leader × Aof → Outcome (Option Leader × Aof))
      → HasRoom leader (suc n)
      → All IsWrite (write_or w [])
      → ((leader' : Option Leader) (a' : Aof)
          → HasRoom leader' n
          → Sent (k (leader', a')) ws leader' a')
      → Sent (send_on_if exceeds w (leader, a) >>= k) (write_or w ws) leader a
  send_on_if-Sent n none ws leader a k room h then = then leader a (HasRoom-suc n leader room)
  send_on_if-Sent n (some w) ws leader a k room h then =
      send_on-Sent n w ws leader a k room h.0 then

  send_on_queue-Sent :
      (cs : List Command) (leader : Option Leader) (a : Aof)
      → All IsCommand cs
      → HasRoom leader (length cs)
      → Sent (send_on_queue exceeds (map command_items cs) (leader, a)) (writes_of cs) leader a
  unfolding send_on_queue replicate_writes
  send_on_queue-Sent [] leader a h room =
      (leader, a, [], refl, nothing_sent leader, sym (append-nil a.file), refl)
  send_on_queue-Sent (c ∷ cs) leader a h room = rw (queued_write-command_write c h.0) (
      send_on_if-Sent (length cs) (command_write c) (writes_of cs) leader a
        (send_on_queue exceeds (map command_items cs)) room (IsWrite-command_write c h.0)
        (λ leader' a' room'. send_on_queue-Sent cs leader' a' h.1 room'))

  -- EXEC with a queue of well-formed SET, GET, DEL and PING commands and no error, on a free cache
  -- that holds some entries, in a leader whose numbers do not run out or in no leader: it ends, the
  -- cache holds what the commands make of the entries one after the other and is free again, the
  -- client gets the array of their replies (DEL answers :1 for every key, also for one that is not
  -- there), the followers are sent and the log is given exactly the writes, in order, and the
  -- transaction is over.
  pub handle_exec-spec_commands :
      (clock : ℕ → ℕ) (cs : List Command) (s : Session) (es : List Entry)
      → s.state.in_transaction ≡ true
      → s.state.transaction_error ≡ none
      → s.state.command_queue ≡ map command_items cs
      → All IsCommand cs
      → HasRoom s.node.leader (length cs)
      → s.cache.held ≡ false
      → Refines s.cache es
      → (s' : Session) × (bytes : Bytes) × (handle_exec exceeds clock s ≡ done s')
        × Refines s'.cache (spec_commands s.cache.max_size clock 0 cs es).1
        × (s'.cache.held ≡ false)
        × (s'.out
            ≡ s.out ++ array_reply (length cs) (spec_commands s.cache.max_size clock 0 cs es).0)
        × (replicate_all (writes_of cs) s.node.leader ≡ done s'.node.leader)
        × (s'.aof.file ≡ s.aof.file ++ bytes)
        × IsLog (writes_of cs) bytes
        × (s'.state ≡ cleared s.state)
  unfolding handle_exec run_transaction lock unlock
  handle_exec-spec_commands clock cs s es running fine at h room free r =
      let spec = spec_commands s.cache.max_size clock 0 cs es in
      let (c', ran, r', size, held) =
        execute_queue-Replies clock 0 s.cache.max_size cs (record s.cache { held = true }) es h refl
          (Refines-held s.cache es true r) in
      let (leader', a', bytes, ran', sent, file, is_log) =
        send_on_queue-Sent cs s.node.leader s.aof h room in
      (
        record s {
          cache = record c' { held = false };
          aof = a';
          node = record s.node { leader = leader' };
          state = cleared s.state;
          out = s.out ++ array_reply (length cs) spec.0;
        },
        bytes,
        rw (running, fine, at, free, ran, ran', length-map command_items cs) refl,
        Refines-held c' spec.1 false r',
        refl,
        refl,
        sent,
        file,
        is_log,
        refl,
      )
