-- ===== src/Persistence/Contents.antt =====
-- internal/persistence: what is recovered from the files that a snapshot and the appends after it
-- leave, and from files of any contents.
use mathlib.Core.Path.{subst}
use gocache.Prelude.{
  ℕ, suc, ◌+◌, ◌-◌, ◌≤◌, ◌<◌, ◌^◌, ◌≡◌, refl, sym, ◌∙◌, Bool, false, Option, none, some, ltb, List,
  [], ◌∷◌, ◌++◌, arith, All, All-append, length, done,
}
use gocache.Prelude.Int.{ℤ, pos}
use gocache.Prelude.Maps.{Bytes}
use gocache.Prelude.Duration.{second, seconds, IsWhole, remaining}
use gocache.Cache.{Cache, SnapshotEntry}
use gocache.Cache.Spec.{Entry, spec_set}
use gocache.Cache.Steps.{Refines, Becomes}
use gocache.Cache.Writes.{Write, set_write, IsWrite, apply_writes-Becomes, spec_writes}
use gocache.Persistence.{Aof, write_entry, write_entries, create_snapshot}
use gocache.Persistence.Recovery.{recover_aof}
use gocache.Persistence.Log.{IsLog, IsLog-append, encode_array-IsLog, log_writes, log_writes-IsLog}
use gocache.Persistence.Replay.{
  NoDeletion, read_operations-IsLog, apply_operations-map, load_snapshot-IsLog,
}

-- Keys and values of a snapshot shorter than 2^63 bytes.
abbrev pub IsItem : Bytes × SnapshotEntry → Type 0
IsItem (key, entry) = (length key < 2 ^ 63) × (length entry.value < 2 ^ 63)

-- The writes that a snapshot stands for, with the lifetimes that were left when it was written.
module _ (whole : ℤ → ℤ) where
  abbrev pub item_writes : Bytes → Bytes → Option ℤ → List Write
  item_writes key value none = []
  item_writes key value (some ttl) = set_write key value (whole ttl) ∷ []

  unfoldable pub snapshot_writes : (ℕ → ℕ) → ℕ → List (Bytes × SnapshotEntry) → List Write
  snapshot_writes clock i [] = []
  snapshot_writes clock i ((key, entry) ∷ m) =
      item_writes key entry.value (remaining (clock i) entry.expires_at)
      ++ snapshot_writes clock (suc i) m

All-item_writes :
    (whole : ℤ → ℤ) (key value : Bytes) (left : Option ℤ)
    → IsWhole whole
    → (length key < 2 ^ 63) × (length value < 2 ^ 63)
    → (bytes : Bytes) × (write_entry whole key value left ≡ done bytes)
      × IsLog (item_writes whole key value left) bytes
      × All IsWrite (item_writes whole key value left)
      × All NoDeletion (item_writes whole key value left)
All-item_writes whole key value none w h = ([], refl, refl, tt, tt)
All-item_writes whole key value (some ttl) w h =
    let is_write : IsWrite (set_write key value (whole ttl)) = (h.0, h.1, w.fits ttl) in
    let (bytes, ran, is_log) = encode_array-IsLog (set_write key value (whole ttl)) is_write in
    (bytes, ran, is_log, (is_write, tt), (tt, tt))

pub write_entries-IsLog :
    (whole : ℤ → ℤ) (clock : ℕ → ℕ) (i : ℕ) (m : List (Bytes × SnapshotEntry))
    → IsWhole whole
    → All IsItem m
    → (bytes : Bytes) × (write_entries whole clock i m ≡ done bytes)
      × IsLog (snapshot_writes whole clock i m) bytes
      × All IsWrite (snapshot_writes whole clock i m)
      × All NoDeletion (snapshot_writes whole clock i m)
unfolding write_entries snapshot_writes
write_entries-IsLog whole clock i [] w h = ([], refl, refl, tt, tt)
write_entries-IsLog whole clock i ((key, entry) ∷ m) w h =
    let left = remaining (clock i) entry.expires_at in
    let (bytes, ran, is_log, writes, sets) = All-item_writes whole key entry.value left w h.0 in
    let (bytes', ran', is_log', writes', sets') = write_entries-IsLog whole clock (suc i) m w h.1 in
    let now = item_writes whole key entry.value left in
    let later = snapshot_writes whole clock (suc i) m in
    (
      bytes ++ bytes',
      rw (ran, ran') refl,
      IsLog-append now later bytes bytes' is_log is_log',
      All-append IsWrite now later writes writes',
      All-append NoDeletion now later sets sets',
    )

-- A snapshot that is written, appends of writes after it, and a recovery into a cache with a free
-- lock that holds some entries: with keys and values shorter than 2^63 bytes and lifetimes of 64
-- bits nothing panics, and the cache then holds what Set makes of the entries for every item of the
-- snapshot that had not expired, with the whole seconds it had left when it was written, and after
-- that the writes, in order.
pub recover_aof-create_snapshot :
    (exceeds : ℕ → ℕ → ℤ → Bool) (whole : ℤ → ℤ) (clock clock1 clock2 : ℕ → ℕ)
    (m : List (Bytes × SnapshotEntry)) (ws : List Write) (a : Aof) (c : Cache) (es : List Entry)
    → IsWhole whole
    → All IsItem m
    → All IsWrite ws
    → c.held ≡ false
    → Refines c es
    → (a1 : Aof) × (a2 : Aof) × (create_snapshot whole clock m a ≡ done a1)
      × (log_writes exceeds ws a1 ≡ done a2)
      × Becomes (recover_aof clock1 clock2 a2 c) c (
          spec_writes c.max_size clock2 0 ws
            (spec_writes c.max_size clock1 0 (snapshot_writes whole clock 0 m) es))
unfolding create_snapshot recover_aof
recover_aof-create_snapshot exceeds whole clock clock1 clock2 m ws a c es w items writes free r =
    let (bytes, ran, is_log, are_writes, are_sets) = write_entries-IsLog whole clock 0 m w items in
    let a1 = record a { file = []; snapshot_file = some bytes; synced = 0 } in
    let (text, a2, ran', file, same, is_log') = log_writes-IsLog exceeds ws a1 writes in
    let (c1, run1, r1, size1, lock1) =
      apply_writes-Becomes clock1 0 c.max_size (snapshot_writes whole clock 0 m) c es refl free r in
    let (c2, run2, r2, size2, lock2) =
      apply_writes-Becomes clock2 0 c.max_size ws c1
        (spec_writes c.max_size clock1 0 (snapshot_writes whole clock 0 m) es) size1 (lock1 ∙ free)
        r1 in
    let loaded =
      load_snapshot-IsLog clock1 (suc (length bytes)) 0 (snapshot_writes whole clock 0 m) bytes c
        are_writes are_sets is_log (omega arith) in
    let read = read_operations-IsLog ws text (suc (length text)) writes is_log' (omega arith) in
    (
      a1,
      a2,
      rw ran refl,
      ran',
      (
        c2,
        rw (same, file, loaded, run1, read, apply_operations-map clock2 0 ws c1) run2,
        r2,
        size2 ∙ size1,
        lock2 ∙ lock1,
      ),
    )

-- An item that had less than a second left when the snapshot was written is recovered without an
-- expiry time: it is set for ever in the cache that held some entries.
pub recover_aof-below_second :
    (whole : ℤ → ℤ) (clock clock1 clock2 : ℕ → ℕ) (key value : Bytes) (t : ℕ) (a : Aof) (c : Cache)
    (es : List Entry)
    → IsWhole whole
    → (length key < 2 ^ 63) × (length value < 2 ^ 63)
    → clock 0 ≤ t
    → t < clock 0 + second
    → c.held ≡ false
    → Refines c es
    → (a1 : Aof) × (create_snapshot whole clock
          ((key, record { value = value; expires_at = some t }) ∷ [])
          a
        ≡ done a1)
      × Becomes (recover_aof clock1 clock2 a1 c) c (spec_set c.max_size key value none es)
unfolding snapshot_writes spec_writes log_writes seconds
recover_aof-below_second whole clock clock1 clock2 key value t a c es w short due soon free r =
    let entry : SnapshotEntry = record { value = value; expires_at = some t } in
    let (a1, a2, ran, ran', becomes) =
      recover_aof-create_snapshot (λ _ _ _. false) whole clock clock1 clock2 ((key, entry) ∷ []) []
        a c es w (short, tt) tt free r in
    let not_due : ltb t (clock 0) ≡ false = ground arith in
    let none_left : whole (pos (t - clock 0)) ≡ pos 0 =
      w.below (t - clock 0) (omega (arith, soon, due)) in
    let written : snapshot_writes whole clock 0 ((key, entry) ∷ [])
        ≡ set_write key value (pos 0) ∷ [] =
      rw (not_due, none_left) refl in
    let same_aof : a1 ≡ a2 = cc ran' in
    (
      a1,
      ran,
      subst (λ k. Becomes (recover_aof clock1 clock2 k c) c (spec_set c.max_size key value none es))
          (sym same_aof)
          (subst
            (λ (k : List Write).
              Becomes (recover_aof clock1 clock2 a2 c) c (spec_writes c.max_size clock1 0 k es))
            written becomes),
    )
