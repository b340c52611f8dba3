-- ===== src/Persistence/Log.antt =====
-- internal/persistence: the records that the handlers append for the writes, and what the readers
-- make of them.
use mathlib.Core.List.{append_assoc, append-nil}
use gocache.Prelude.{
  ℕ, ◌≡◌, refl, sym, ap, ◌∙◌, Bool, List, [], ◌∷◌, ◌++◌, arith, All, Outcome, done, ◌>>=◌,
}
use gocache.Prelude.Int.{ℤ}
use gocache.Prelude.Maps.{Bytes}
use gocache.Prelude.Decimal.{length-format_int}
use gocache.Resp.{Items}
use gocache.Resp.Encoder.{encode_array}
use gocache.Resp.RoundTrip.{parse-encode_array}
use gocache.Resp.Heads.{Reads}
use gocache.Cache.Writes.{Write, set_write, delete_write, IsWrite}
use gocache.Persistence.{
  Aof, SyncPolicy, sync_always, sync_every_second, sync_no, sync_after_write, set_record,
  del_record, append, check_rewrite_trigger,
}

abbrev pub record_items : Write → Items
record_items (set_write key value ttl) = set_record key value ttl
record_items (delete_write key) = del_record key

-- The calls of Append that the handlers make for a write, and for several.
module _ (exceeds : ℕ → ℕ → ℤ → Bool) where
  abbrev pub log_write : Write → Aof → Outcome Aof
  log_write w a = do bytes ← encode_array (record_items w); done (append exceeds bytes a)

  unfoldable pub log_writes : List Write → Aof → Outcome Aof
  log_writes [] a = done a
  log_writes (w ∷ ws) a = log_write w a >>= λ a'. log_writes ws a'

-- Bytes that Parse reads as the records of the writes, one after the other.
abbrev pub IsLog : List Write → Bytes → Type 0
IsLog [] bytes = bytes ≡ []
IsLog (w ∷ ws) bytes =
    (first : Bytes) × (rest : Bytes) × (bytes ≡ first ++ rest)
    × Reads first (record_items w)
    × IsLog ws rest

pub IsLog-append :
    (vs ws : List Write) (a b : Bytes) → IsLog vs a → IsLog ws b → IsLog (vs ++ ws) (a ++ b)
IsLog-append [] ws a b ha hb = rw ha hb
IsLog-append (v ∷ vs) ws a b (first, rest, at, back, h) hb = (
  first,
  rest ++ b,
  ap (λ (c : Bytes). c ++ b) at ∙ append_assoc first rest b,
  back,
  IsLog-append vs ws rest b h hb,
)

-- A write is encoded without a panic, as a log of one record.
pub encode_array-IsLog :
    (w : Write)
    → IsWrite w
    → (bytes : Bytes) × (encode_array (record_items w) ≡ done bytes) × IsLog (w ∷ []) bytes
encode_array-IsLog (set_write key value ttl) h =
    let (bytes, ran, back) =
      parse-encode_array (set_record key value ttl)
        (omega arith, (h.0, (h.1, (length-format_int ttl h.2, tt)))) (omega arith) in
    (bytes, ran, (bytes, [], sym (append-nil bytes), back, refl))
encode_array-IsLog (delete_write key) h =
    let (bytes, ran, back) =
      parse-encode_array (del_record key) (omega arith, (h, tt)) (omega arith) in
    (bytes, ran, (bytes, [], sym (append-nil bytes), back, refl))

sync_after_write-file : (p : SyncPolicy) (a : Aof) → (sync_after_write p a).file ≡ a.file
sync_after_write-file sync_always a = refl
sync_after_write-file sync_every_second a = refl
sync_after_write-file sync_no a = refl

sync_after_write-snapshot_file :
    (p : SyncPolicy) (a : Aof) → (sync_after_write p a).snapshot_file ≡ a.snapshot_file
sync_after_write-snapshot_file sync_always a = refl
sync_after_write-snapshot_file sync_every_second a = refl
sync_after_write-snapshot_file sync_no a = refl

module _ (exceeds : ℕ → ℕ → ℤ → Bool) where
  check_rewrite_trigger-files :
      (a : Aof)
      → ((check_rewrite_trigger exceeds a).file ≡ a.file)
        × ((check_rewrite_trigger exceeds a).snapshot_file ≡ a.snapshot_file)
  unfolding check_rewrite_trigger
  check_rewrite_trigger-files a = ground arith

  pub append-file :
      (bytes : Bytes) (a : Aof)
      → ((append exceeds bytes a).file ≡ a.file ++ bytes)
        × ((append exceeds bytes a).snapshot_file ≡ a.snapshot_file)
  unfolding append
  append-file bytes a =
      let after = record a { file = a.file ++ bytes } in
      let same = check_rewrite_trigger-files (sync_after_write a.policy after) in
      (
        same.0 ∙ sync_after_write-file a.policy after,
        same.1 ∙ sync_after_write-snapshot_file a.policy after,
      )

  pub log_writes-IsLog :
      (ws : List Write) (a : Aof)
      → All IsWrite ws
      → (bytes : Bytes) × (a' : Aof) × (log_writes exceeds ws a ≡ done a')
        × (a'.file ≡ a.file ++ bytes)
        × (a'.snapshot_file ≡ a.snapshot_file)
        × IsLog ws bytes
  unfolding log_writes
  log_writes-IsLog [] a h = ([], a, refl, sym (append-nil a.file), refl, refl)
  log_writes-IsLog (w ∷ ws) a h =
      let (bytes, ran, is_log) = encode_array-IsLog w h.0 in
      let (file, same) = append-file bytes a in
      let (bytes', a', ran', file', same', is_log') =
        log_writes-IsLog ws (append exceeds bytes a) h.1 in
      (
        bytes ++ bytes',
        a',
        rw ran ran',
        file' ∙ ap (λ (f : Bytes). f ++ bytes') file ∙ append_assoc a.file bytes bytes',
        same' ∙ same,
        IsLog-append (w ∷ []) ws bytes bytes' is_log is_log',
      )
