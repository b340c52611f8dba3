-- ===== src/Persistence/Tests.antt =====
-- Snapshots, logs and recoveries at concrete caches.
use gocache.Prelude.{ℕ, ◌≡◌, refl, Bool, false, none, some, List, [], ◌∷◌, arith, done}
use gocache.Prelude.Int.{ℤ, pos}
use gocache.Prelude.Maps.{Bytes, bytes_discrete, get, delete}
use gocache.Prelude.Duration.{seconds, whole_seconds, whole_seconds-IsWhole}
use gocache.Cache.{SnapshotEntry, new_cache}
use gocache.Cache.Spec.{spec_set}
use gocache.Cache.Steps.{Becomes}
use gocache.Cache.Runs.{Refines-new}
use gocache.Cache.Writes.{Write, set_write, delete_write, spec_writes}
use gocache.Persistence.{Aof, new_aof, sync_always, create_snapshot}
use gocache.Persistence.Recovery.{recover_aof}
use gocache.Persistence.Log.{log_writes}
use gocache.Persistence.Contents.{
  snapshot_writes, recover_aof-create_snapshot, recover_aof-below_second,
}

abbrev a : Bytes
a = b'a' ∷ []

abbrev b : Bytes
b = b'b' ∷ []

-- One item for ever, one that has three and a half seconds left at the time 0.
abbrev items : List (Bytes × SnapshotEntry)
items =
    (a, record { value = b; expires_at = none })
    ∷ (b, record { value = a; expires_at = some 3500000000 })
    ∷ []

abbrev writes : List Write
writes = delete_write a ∷ set_write b b (pos 7) ∷ []

abbrev log : Aof
log = new_aof none none sync_always (pos 2)

abbrev no_rewrites : ℕ → ℕ → ℤ → Bool
no_rewrites size baseline factor = false

abbrev start : ℕ → ℕ
start i = 0

recover_aof-create_snapshot_example :
    (a1 : Aof) × (a2 : Aof) × (create_snapshot whole_seconds start items log ≡ done a1)
    × (log_writes no_rewrites writes a1 ≡ done a2)
    × Becomes (recover_aof start start a2 (new_cache 2)) (new_cache 2) (
        spec_writes 2 start 0 writes
          (spec_writes 2 start 0 (snapshot_writes whole_seconds start 0 items) []))
recover_aof-create_snapshot_example =
    recover_aof-create_snapshot no_rewrites whole_seconds start start start items writes log
      (new_cache 2) [] whole_seconds-IsWhole
      ((omega arith, omega arith), ((omega arith, omega arith), tt))
      (omega arith, ((omega arith, omega arith, omega arith), tt)) refl
      (Refines-new 2 (omega arith))

-- What is in the cache after that run.
left :
    spec_writes 2 start 0 writes
      (spec_writes 2 start 0 (snapshot_writes whole_seconds start 0 items) [])
    ≡ (b, (b, some 7000000000)) ∷ []
unfolding spec_writes snapshot_writes bytes_discrete seconds get delete
left = refl

recover_aof-below_second_example :
    (a1 : Aof) × (create_snapshot whole_seconds start
        ((a, record { value = b; expires_at = some 999999999 }) ∷ [])
        log
      ≡ done a1)
    × Becomes (recover_aof start start a1 (new_cache 2)) (new_cache 2) (spec_set 2 a b none [])
recover_aof-below_second_example =
    recover_aof-below_second whole_seconds start start start a b 999999999 log (new_cache 2) []
      whole_seconds-IsWhole (omega arith, omega arith) (omega arith) (omega arith) refl
      (Refines-new 2 (omega arith))

-- An append-only file that is not RESP, and a snapshot that breaks off.
abbrev damaged : Aof
damaged =
    new_aof (some (b'?' ∷ b'*' ∷ b'2' ∷ [])) (some (b'*' ∷ b'1' ∷ 13 ∷ [])) sync_always (pos 2)
