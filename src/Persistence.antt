-- ===== src/Persistence.antt =====
-- internal/persistence/aof.go and snapshot.go: the append-only file and the snapshot, as lists of
-- bytes. File operations succeed. A trigger sets the flag of a rewrite, which is a step of its own.
pub mod Reading
pub mod Recovery
pub mod Log
pub mod Replay
pub mod Contents
pub mod Safety
mod Tests
use gocache.Prelude.{
  ℕ, zero, suc, Bool, true, false, ◌&&◌, not, Option, none, some, List, [], ◌∷◌, ◌++◌, length, ◌==◌,
  if◌then◌else◌, Outcome, done, ◌>>=◌,
}
use gocache.Prelude.Int.{ℤ, pos}
use gocache.Prelude.Maps.{Bytes}
use gocache.Prelude.Decimal.{format_int}
use gocache.Prelude.Duration.{remaining}
use gocache.Resp.{Items, str, nil, cons}
use gocache.Resp.Encoder.{encode_array}
use gocache.Cache.{Cache, SnapshotEntry, snapshot}

pub data SyncPolicy : Type 0 where
  sync_always sync_every_second sync_no : SyncPolicy

-- `synced` is how many bytes of the file are known to be on disk.
pub record Aof : Type 0 where
  pub file : Bytes
  pub snapshot_file : Option Bytes
  pub policy : SyncPolicy
  pub growth_factor : ℤ
  pub last_rewrite_size : ℕ
  pub rewriting : Bool
  pub synced : ℕ

-- The file is opened for appending, or made.
abbrev pub opened : Option Bytes → Bytes
opened none = []
opened (some bytes) = bytes

abbrev pub new_aof : Option Bytes → Option Bytes → SyncPolicy → ℤ → Aof
new_aof file snapshot_file policy growth_factor = record {
  file = opened file;
  snapshot_file = snapshot_file;
  policy = policy;
  growth_factor = growth_factor;
  last_rewrite_size = 0;
  rewriting = false;
  synced = length (opened file);
}

abbrev pub sync : Aof → Aof
sync a = record a { synced = length a.file }

abbrev pub sync_after_write : SyncPolicy → Aof → Aof
sync_after_write sync_always a = sync a
sync_after_write sync_every_second a = a
sync_after_write sync_no a = a

-- "SET" and "DEL"
abbrev pub set_word : Bytes
set_word = b'S' ∷ b'E' ∷ b'T' ∷ []

abbrev pub del_word : Bytes
del_word = b'D' ∷ b'E' ∷ b'L' ∷ []

abbrev pub set_record : Bytes → Bytes → ℤ → Items
set_record key value ttl =
    cons (str set_word) (cons (str key) (cons (str value) (cons (str (format_int ttl)) nil)))

abbrev pub del_record : Bytes → Items
del_record key = cons (str del_word) (cons (str key) nil)

-- `float64(size) / float64(baseline) > float64(factor)` is the parameter; the division of floating
-- point numbers is not modelled.
module _ (exceeds : ℕ → ℕ → ℤ → Bool) where
  unfoldable pub check_rewrite_trigger : Aof → Aof
  check_rewrite_trigger a =
      if a.rewriting
      then a
      else if a.last_rewrite_size == 0
      then record a { last_rewrite_size = length a.file }
      else if exceeds (length a.file) a.last_rewrite_size a.growth_factor
      then record a { rewriting = true }
      else a

  unfoldable pub append : Bytes → Aof → Aof
  unfolding check_rewrite_trigger
  append text a =
      check_rewrite_trigger (sync_after_write a.policy (record a { file = a.file ++ text }))

-- The loop of rewriteAOF and CreateSnapshot over the snapshot of the cache, with
-- `int(ttl.Seconds())` as the parameter; `clock i` is the time at item `i`.
module _ (whole : ℤ → ℤ) where
  abbrev pub write_entry : Bytes → Bytes → Option ℤ → Outcome Bytes
  write_entry key value none = done []
  write_entry key value (some ttl) = encode_array (set_record key value (whole ttl))

  unfoldable pub write_entries : (ℕ → ℕ) → ℕ → List (Bytes × SnapshotEntry) → Outcome Bytes
  write_entries clock i [] = done []
  write_entries clock i ((key, entry) ∷ m) = do
    first ← write_entry key entry.value (remaining (clock i) entry.expires_at)
    rest ← write_entries clock (suc i) m
    done (first ++ rest)

  unfoldable pub rewrite_aof : (ℕ → ℕ) → List (Bytes × SnapshotEntry) → Aof → Outcome Aof
  unfolding write_entries
  rewrite_aof clock m a = do
    bytes ← write_entries clock 0 m
    done (record a {
      file = bytes;
      last_rewrite_size = length bytes;
      rewriting = false;
      synced = length bytes;
    })

  -- What the goroutine does that a trigger has launched.
  unfoldable pub run_launched_rewrite : (ℕ → ℕ) → Cache → Aof → Outcome Aof
  unfolding rewrite_aof
  run_launched_rewrite clock c a =
      if a.rewriting then (do m ← snapshot c; rewrite_aof clock m a) else done a

  unfoldable pub create_snapshot : (ℕ → ℕ) → List (Bytes × SnapshotEntry) → Aof → Outcome Aof
  unfolding write_entries
  create_snapshot clock m a = do
    bytes ← write_entries clock 0 m
    done (record a { file = []; snapshot_file = some bytes; synced = 0 })
