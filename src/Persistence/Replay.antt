-- ===== src/Persistence/Replay.antt =====
-- internal/persistence: what the readers make of a log of writes.
use mathlib.Core.Path.{fun_ext}
use gocache.Prelude.{
  ℕ, zero, suc, ◌<◌, ◌≡◌, refl, ap, List, [], ◌∷◌, ◌++◌, map, arith, All, length, done, ◌>>=◌,
}
use gocache.Prelude.Int.{pos}
use gocache.Prelude.Maps.{Bytes, bytes_discrete}
use gocache.Prelude.Decimal.{parse_int-format_int}
use gocache.Resp.{Value, arr, good, parse}
use gocache.Resp.Heads.{parse-head}
use gocache.Cache.{Cache}
use gocache.Cache.Writes.{Write, set_write, delete_write, IsWrite, apply_write, apply_writes}
use gocache.Persistence.{set_word, del_word}
use gocache.Persistence.Reading.{
  Operation, as_parts, operation_of, entry_operations, read_operations,
}
use gocache.Persistence.Recovery.{load_entry, load_snapshot, apply_operation, apply_operations}
use gocache.Persistence.Log.{record_items, IsLog}

-- The operation that a write is read back as.
abbrev pub written_operation : Write → Operation
written_operation (set_write key value ttl) = record {
  kind = set_word;
  key = key;
  value = value;
  ttl = ttl;
}
written_operation (delete_write key) = record {
  kind = del_word;
  key = key;
  value = [];
  ttl = pos 0;
}

entry_operations-record_items :
    (w : Write) → IsWrite w → entry_operations (arr (record_items w)) ≡ written_operation w ∷ []
unfolding entry_operations as_parts operation_of bytes_discrete
entry_operations-record_items (set_write key value ttl) h = rw (parse_int-format_int ttl h.2) refl
entry_operations-record_items (delete_write key) h = refl

apply_operation-written_operation :
    (now : ℕ) (w : Write) (c : Cache)
    → apply_operation now (written_operation w) c ≡ apply_write now w c
unfolding apply_operation apply_write bytes_discrete
apply_operation-written_operation now (set_write key value ttl) c = refl
apply_operation-written_operation now (delete_write key) c = refl

read_operations-good :
    (n : ℕ) (input rest : Bytes) (v : Value)
    → parse (suc (length input)) input ≡ good v rest
    → read_operations (suc n) input
      ≡ (read_operations n rest >>= λ ops. done (entry_operations v ++ ops))
unfolding read_operations
read_operations-good n input rest v read = rw (read, read_operations) refl

pub read_operations-IsLog :
    (ws : List Write) (bytes : Bytes) (n : ℕ)
    → All IsWrite ws
    → IsLog ws bytes
    → length bytes < n
    → read_operations n bytes ≡ done (map written_operation ws)
unfolding read_operations parse
read_operations-IsLog ws bytes zero h is_log fuel = absurd (omega (arith, fuel))
read_operations-IsLog [] bytes (suc n) h is_log fuel = rw is_log refl
read_operations-IsLog (w ∷ ws) bytes (suc n) h (first, rest, at, back, is_log) fuel =
    let (read, shorter) = parse-head (record_items w) first rest back in
    let ih = read_operations-IsLog ws rest n h.1 is_log (omega (arith, fuel, ap length at)) in
    rw
      (
        at,
        read_operations-good n (first ++ rest) rest (arr (record_items w)) read,
        ih,
        entry_operations-record_items w h.0,
      )
      refl

pub apply_operations-map :
    (clock : ℕ → ℕ) (i : ℕ) (ws : List Write) (c : Cache)
    → apply_operations clock i (map written_operation ws) c ≡ apply_writes clock i ws c
unfolding apply_operations apply_writes
apply_operations-map clock i [] c = refl
apply_operations-map clock i (w ∷ ws) c = rw (apply_operation-written_operation (clock i) w c) (
    ap (λ k. apply_write (clock i) w c >>= k)
      (fun_ext (λ c'. apply_operations-map clock (suc i) ws c')))

-- A snapshot holds no deletions.
abbrev pub NoDeletion : Write → Type 0
NoDeletion (set_write key value ttl) = Unit
NoDeletion (delete_write key) = ⊥

load_entry-record_items :
    (now : ℕ) (w : Write) (c : Cache)
    → IsWrite w
    → NoDeletion w
    → load_entry now (arr (record_items w)) c ≡ apply_write now w c
unfolding load_entry apply_write as_parts bytes_discrete
load_entry-record_items now (set_write key value ttl) c h s = rw (parse_int-format_int ttl h.2) refl
load_entry-record_items now (delete_write key) c h s = absurd s

load_snapshot-good :
    (clock : ℕ → ℕ) (n i : ℕ) (input rest : Bytes) (v : Value) (c : Cache)
    → parse (suc (length input)) input ≡ good v rest
    → load_snapshot clock (suc n) i input c
      ≡ (load_entry (clock i) v c >>= λ c'. load_snapshot clock n (suc i) rest c')
unfolding load_snapshot
load_snapshot-good clock n i input rest v c read = rw (read, load_snapshot) refl

pub load_snapshot-IsLog :
    (clock : ℕ → ℕ) (n i : ℕ) (ws : List Write) (bytes : Bytes) (c : Cache)
    → All IsWrite ws
    → All NoDeletion ws
    → IsLog ws bytes
    → length bytes < n
    → load_snapshot clock n i bytes c ≡ apply_writes clock i ws c
unfolding load_snapshot apply_writes parse
load_snapshot-IsLog clock zero i ws bytes c h sets is_log fuel = absurd (omega (arith, fuel))
load_snapshot-IsLog clock (suc n) i [] bytes c h sets is_log fuel = rw is_log refl
load_snapshot-IsLog clock (suc n) i (w ∷ ws) bytes c h sets (first, rest, at, back, is_log) fuel =
    let (read, shorter) = parse-head (record_items w) first rest back in
    rw
      (
        at,
        load_snapshot-good clock n i (first ++ rest) rest (arr (record_items w)) c read,
        load_entry-record_items (clock i) w c h.0 sets.0,
      )
      (ap (λ k. apply_write (clock i) w c >>= k)
        (fun_ext (λ c'.
          load_snapshot-IsLog clock n (suc i) ws rest c' h.1 sets.1 is_log
            (omega (arith, fuel, ap length at)))))
