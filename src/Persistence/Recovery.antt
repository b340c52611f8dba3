-- ===== src/Persistence/Recovery.antt =====
-- internal/persistence/recovery.go and LoadSnapshot of snapshot.go.
use gocache.Prelude.{
  ℕ, zero, suc, true, false, Option, none, some, List, [], ◌∷◌, length, ite, Outcome, done, panic,
  blocked, ◌>>=◌,
}
use gocache.Prelude.Maps.{Bytes, bytes_discrete}
use gocache.Prelude.Duration.{seconds}
use gocache.Resp.{Value, str, int, arr, good, bad, crash, starved, parse}
use gocache.Cache.{Cache, set, delete_key}
use gocache.Persistence.{Aof, set_word, del_word}
use gocache.Persistence.Reading.{Operation, as_parts, ttl_of, is_eof, read_operations}

-- A record of a snapshot, by its parts: only a SET with a key and a value counts.
abbrev pub load_fields : ℕ → List Bytes → Cache → Outcome Cache
load_fields now [] c = done c
load_fields now (key ∷ []) c = done c
load_fields now (key ∷ value ∷ ps) c = set key value (seconds (ttl_of ps)) now c

abbrev pub load_parts : ℕ → List Bytes → Cache → Outcome Cache
load_parts now [] c = done c
load_parts now (kind ∷ ps) c = ite (bytes_discrete kind set_word) (load_fields now ps c) (done c)

unfoldable pub load_entry : ℕ → Value → Cache → Outcome Cache
unfolding as_parts
load_entry now (str s) c = done c
load_entry now (int z) c = done c
load_entry now (arr vs) c = load_parts now (as_parts vs) c

-- LoadSnapshot; `clock i` is the time of round `i`.
unfoldable pub load_snapshot : (ℕ → ℕ) → ℕ → ℕ → Bytes → Cache → Outcome Cache
unfolding load_entry
load_snapshot clock zero i input c = blocked
load_snapshot clock (suc n) i input c = elim (parse (suc (length input)) input) [
  | bad e rest ↦ elim (is_eof e) [ true ↦ done c | false ↦ load_snapshot clock n (suc i) rest c ]
  | crash ↦ panic
  | starved ↦ blocked
  | good v rest ↦ load_entry (clock i) v c >>= λ c'. load_snapshot clock n (suc i) rest c'
]

-- An operation of any other type changes nothing.
unfoldable pub apply_operation : ℕ → Operation → Cache → Outcome Cache
apply_operation now op c =
    ite (bytes_discrete op.kind set_word) (set op.key op.value (seconds op.ttl) now c)
      (ite (bytes_discrete op.kind del_word) (delete_key op.key c) (done c))

unfoldable pub apply_operations : (ℕ → ℕ) → ℕ → List Operation → Cache → Outcome Cache
unfolding apply_operation
apply_operations clock i [] c = done c
apply_operations clock i (op ∷ ops) c = do
  c' ← apply_operation (clock i) op c
  apply_operations clock (suc i) ops c'

-- LoadSnapshot, if there is a snapshot.
abbrev pub load_if_present : (ℕ → ℕ) → Option Bytes → Cache → Outcome Cache
load_if_present clock none c = done c
load_if_present clock (some bytes) c = load_snapshot clock (suc (length bytes)) 0 bytes c

-- RecoverAOF; NewAOF has made the file, so it exists. `clock` is read while the snapshot is loaded,
-- and `clock'` while the operations are applied.
unfoldable pub recover_aof : (ℕ → ℕ) → (ℕ → ℕ) → Aof → Cache → Outcome Cache
unfolding load_snapshot read_operations apply_operations
recover_aof clock clock' a c = do
  c1 ← load_if_present clock a.snapshot_file c
  ops ← read_operations (suc (length a.file)) a.file
  apply_operations clock' 0 ops c1
