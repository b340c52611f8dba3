-- ===== src/Server/Logs.antt =====
-- internal/server/handler.go with internal/persistence: what the log of a connection gives back.
use mathlib.Core.Path.{subst}
use gocache.Prelude.{
  ℕ, suc, ◌≡◌, refl, sym, ◌∙◌, Bool, false, Bool-cases, inl, inr, if◌then◌else◌, none, List, [],
  ◌∷◌, ◌++◌, arith, All, All-append, length, done,
}
use gocache.Prelude.Int.{ℤ, pos}
use gocache.Prelude.Maps.{Bytes}
use gocache.Prelude.Duration.{seconds, IsWhole}
use gocache.Cache.{Cache, lock, snapshot, snapshot_entries}
use gocache.Cache.Spec.{Entry}
use gocache.Cache.Steps.{Refines, Becomes}
use gocache.Cache.Writes.{Write, IsWrite, spec_writes, apply_writes-Becomes}
use gocache.PubSub.Laws.{IsConsistent}
use gocache.Persistence.{Aof, rewrite_aof, run_launched_rewrite}
use gocache.Persistence.Contents.{snapshot_writes, write_entries-IsLog}
use gocache.Persistence.Log.{IsLog, IsLog-append}
use gocache.Persistence.Recovery.{recover_aof}
use gocache.Persistence.Replay.{read_operations-IsLog, apply_operations-map}
use gocache.Server.Session.{Session}
use gocache.Server.Connection.{closed, handle_connection}
use gocache.Server.Commands.{
  Command, plain_set, set_ex, get_one, del_one, ping, IsCommand, spec_commands,
}
use gocache.Server.Lengths.{IsShort, All-spec_commands, Refines-IsItem}
use gocache.Server.Transactions.{HasRoom}
use gocache.Server.Passing.{Standalone, logged_write}
use gocache.Server.Runs.{encode_requests, logged_writes, handle_connection-spec_commands}

All-logged_write :
    (whole : ℤ → ℤ) (c : Command) → IsWhole whole → IsCommand c → All IsWrite (logged_write whole c)
All-logged_write whole (plain_set key value) w h = ((h.0, h.1, w.fits (pos 0)), tt)
All-logged_write whole (set_ex key value z) w h = ((h.0, h.1, w.fits (seconds z)), tt)
All-logged_write whole (get_one key) w h = tt
All-logged_write whole (del_one key) w h = (h, tt)
All-logged_write whole ping w h = tt

All-logged_writes :
    (whole : ℤ → ℤ) (cs : List Command)
    → IsWhole whole
    → All IsCommand cs
    → All IsWrite (logged_writes whole cs)
All-logged_writes whole [] w h = tt
All-logged_writes whole (c ∷ cs) w h =
    All-append IsWrite (logged_write whole c) (logged_writes whole cs)
      (All-logged_write whole c w h.0) (All-logged_writes whole cs w h.1)

-- A log that holds some writes is recovered as the writes, in order.
recover_aof-IsLog :
    (clock1 clock2 : ℕ → ℕ) (ws : List Write) (a : Aof) (c : Cache) (es : List Entry)
    → a.snapshot_file ≡ none
    → All IsWrite ws
    → IsLog ws a.file
    → c.held ≡ false
    → Refines c es
    → Becomes (recover_aof clock1 clock2 a c) c (spec_writes c.max_size clock2 0 ws es)
unfolding recover_aof
recover_aof-IsLog clock1 clock2 ws a c es no_snapshot writes is_log free r =
    let (c', ran, r', size, lock) = apply_writes-Becomes clock2 0 c.max_size ws c es refl free r in
    (
      c',
      rw
          (
            no_snapshot,
            read_operations-IsLog ws a.file (suc (length a.file)) writes is_log (omega arith),
            apply_operations-map clock2 0 ws c,
          )
          ran,
      r',
      size,
      lock,
    )

-- The writes in the log at the end: after a rewrite those of a snapshot of the cache, and otherwise
-- the old ones and those of the commands.
abbrev pub kept_writes : (ℤ → ℤ) → (ℕ → ℕ) → List Write → List Command → Session → List Write
kept_writes whole clock ws cs s =
    if s.aof.rewriting
    then snapshot_writes whole clock 0 (snapshot_entries s.cache.entries)
    else ws ++ logged_writes whole cs

-- What the goroutine leaves in the files.
abbrev pub Keeps : (ℤ → ℤ) → (ℕ → ℕ) → List Write → Session → Type 0
Keeps whole clock ws s =
    (a : Aof) × (run_launched_rewrite whole clock s.cache s.aof ≡ done a)
    × All IsWrite ws
    × IsLog ws a.file
    × (a.snapshot_file ≡ s.aof.snapshot_file)

run_launched_rewrite-Keeps :
    (whole : ℤ → ℤ) (clock : ℕ → ℕ) (ws : List Write) (cs : List Command) (s : Session)
    (es : List Entry)
    → IsWhole whole
    → All IsWrite ws
    → All IsCommand cs
    → All IsShort es
    → s.cache.held ≡ false
    → Refines s.cache es
    → IsLog (ws ++ logged_writes whole cs) s.aof.file
    → Keeps whole clock (kept_writes whole clock ws cs s) s
unfolding run_launched_rewrite rewrite_aof snapshot lock
run_launched_rewrite-Keeps whole clock ws cs s es w before h short free r is_log =
    elim (Bool-cases s.aof.rewriting) [
      | inl launched ↦
          let (bytes, ran, is_dump, writes, _) =
            write_entries-IsLog whole clock 0 (snapshot_entries s.cache.entries) w
              (Refines-IsItem s.cache es r short) in
          rw launched (
            record s.aof {
              file = bytes;
              last_rewrite_size = length bytes;
              rewriting = false;
              synced = length bytes;
            },
            rw (free, ran) refl,
            writes,
            is_dump,
            refl,
          )
      | inr idle ↦ simp idle (
        s.aof,
        refl,
        All-append IsWrite ws (logged_writes whole cs) before (All-logged_writes whole cs w h),
        is_log,
        refl,
      )
    ]

-- Well-formed commands that are sent over a connection to a node that is no follower and in no
-- cluster, with a free cache that holds some entries whose keys and values are shorter than 2^63
-- bytes, a consistent pub/sub manager, a leader, if any, whose numbers do not run out, a log that
-- holds some writes and no snapshot: the connection is closed at their end, with the cache that the
-- commands make. A rewrite of the log that was launched then runs, before any other call, and does
-- not panic. The log holds, if no rewrite was launched, the writes from before and those of the
-- client, and otherwise a SET, with the whole seconds left, for every item of the cache that has not
-- expired; and a recovery from the files, into any free cache that holds some entries, makes of those
-- entries what these writes make of them, with the lifetimes counted from the times of the recovery.
pub recover_aof-handle_connection :
    (exceeds : ℕ → ℕ → ℤ → Bool) (whole : ℤ → ℤ) (hash : Bytes → ℕ) (clock : ℕ → ℕ → ℕ)
    (clock1 clock2 clock3 : ℕ → ℕ) (ws : List Write) (cs : List Command) (s : Session) (c : Cache)
    (es es' : List Entry)
    → IsWhole whole
    → All IsWrite ws
    → All IsCommand cs
    → All IsShort es
    → Standalone s
    → IsConsistent s.pub_sub
    → HasRoom s.node.leader (length cs)
    → s.cache.held ≡ false
    → Refines s.cache es
    → IsLog ws s.aof.file
    → s.aof.snapshot_file ≡ none
    → c.held ≡ false
    → Refines c es'
    → (input : Bytes) × (s' : Session) × (a' : Aof) × (encode_requests cs ≡ done input)
      × (handle_connection exceeds whole hash clock (suc (length input)) 0 input s
          ≡ done (closed s'))
      × Refines s'.cache (spec_commands s.cache.max_size (λ j. clock j 0) 0 cs es).1
      × (run_launched_rewrite whole clock3 s'.cache s'.aof ≡ done a')
      × IsLog (kept_writes whole clock3 ws cs s') a'.file
      × Becomes
          (recover_aof clock1 clock2 a' c)
          c
          (spec_writes c.max_size clock2 0 (kept_writes whole clock3 ws cs s') es')
recover_aof-handle_connection exceeds whole hash clock clock1 clock2 clock3 ws cs s c es es' w
      before h short alone consistent room free r old no_snapshot free' r' =
    let (input, ran, (s', bytes, ran', at_end, free_end, _, _, file, snapshot, is_log)) =
      handle_connection-spec_commands exceeds whole hash clock cs s es w h alone consistent room
        free r in
    let all_log : IsLog (ws ++ logged_writes whole cs) s'.aof.file =
      subst (IsLog (ws ++ logged_writes whole cs)) (sym file)
        (IsLog-append ws (logged_writes whole cs) s.aof.file bytes old is_log) in
    let (a', ran_a, writes, log_a, snapshot_a) =
      run_launched_rewrite-Keeps whole clock3 ws cs s'
        (spec_commands s.cache.max_size (λ j. clock j 0) 0 cs es).1 w before h
        (All-spec_commands s.cache.max_size (λ j. clock j 0) 0 cs es h short) free_end at_end
        all_log in
    (
      input,
      s',
      a',
      ran,
      ran',
      at_end,
      ran_a,
      log_a,
      recover_aof-IsLog clock1 clock2 (kept_writes whole clock3 ws cs s') a' c es'
          (snapshot_a ∙ snapshot ∙ no_snapshot) writes log_a free' r',
    )
