-- ===== src/Replication/Follower.antt =====
-- internal/replication/follower.go: what a follower does with the messages of its leader. The
-- connection is the list of the bytes that are still to come. `clock i` is the time of message `i`.
use gocache.Prelude.{
  ℕ, zero, suc, Bool, true, false, Option, none, some, [], ltb, if◌then◌else◌, ite, length, Outcome,
  done, panic, blocked, ◌>>=◌,
}
use gocache.Prelude.Int.{ℤ, pos, negsuc}
use gocache.Prelude.Maps.{Bytes, bytes_discrete}
use gocache.Prelude.Duration.{seconds}
use gocache.Resp.{
  Value, Items, str, int, arr, nil, cons, ParseError, good, bad, crash, starved, parse,
}
use gocache.Resp.Encoder.{count}
use gocache.Cache.{Cache, set, delete_key}
use gocache.Replication.Protocol.{op_set, op_delete, cmd_replicate, cmd_sync_end, ReplicateCommand}
use gocache.Replication.Decoder
use gocache.Replication.Decoder.{
  DecodeError, bad_operation, bad_key, bad_value, bad_ttl, bad_seq_num, wrong_length, Checked,
  accepted, rejected, crashed, as_string, check_length, element, parse_int64, decode_sync_end,
}

pub record Follower : Type 0 where
  pub cache : Cache
  pub id : Bytes
  pub last_seq_num : ℤ
  pub last_heartbeat : Option ℕ
  pub is_leader_alive : Bool

abbrev pub new_follower : Cache → Bytes → Follower
new_follower cache id = record {
  cache = cache;
  id = id;
  last_seq_num = pos 0;
  last_heartbeat = none;
  is_leader_alive = false;
}

pub data StreamError : Type 0 where
  read_failed : ParseError → StreamError
  not_a_slice bad_sync_end : StreamError
  bad_message : DecodeError → StreamError

-- `<` on int64
abbrev pub ltz : ℤ → ℤ → Bool
ltz (pos a) (pos b) = ltb a b
ltz (pos a) (negsuc b) = false
ltz (negsuc a) (pos b) = true
ltz (negsuc a) (negsuc b) = ltb b a

-- `if seqNum > f.lastSeqNum { f.lastSeqNum = seqNum }`
abbrev pub raise_seq : ℤ → Follower → Follower
raise_seq seq f = record f { last_seq_num = if ltz f.last_seq_num seq then seq else f.last_seq_num }

abbrev pub checked_int64 : DecodeError → Option ℤ → Checked ℤ
checked_int64 e none = rejected e
checked_int64 e (some z) = accepted z

-- The payload of a SET; a DELETE has none.
unfoldable pub stream_payload : Bytes → Items → Checked (Bytes × ℤ)
stream_payload operation vs =
    ite (bytes_discrete operation op_set)
      (Decoder.◌>>=◌ (check_length 6 vs) λ _. Decoder.◌>>=◌ (element 4 vs) λ v.
        Decoder.◌>>=◌ (as_string bad_value v) λ value.
          Decoder.◌>>=◌ (element 5 vs)
            λ t. Decoder.◌>>=◌ (checked_int64 bad_ttl (parse_int64 t)) λ ttl. accepted (value, ttl))
      (ite (bytes_discrete operation op_delete)
        (Decoder.◌>>=◌ (check_length 4 vs) λ _. accepted ([], pos 0)) (rejected bad_operation))

-- The checks of a REPLICATE message, which come before any change of the cache.
unfoldable pub stream_command : Items → Checked ReplicateCommand
unfolding stream_payload
stream_command vs =
    if ltb (count vs) 4
    then rejected wrong_length
    else (Decoder.◌>>=◌ (element 1 vs) λ s.
        Decoder.◌>>=◌ (checked_int64 bad_seq_num (parse_int64 s)) λ seq.
          Decoder.◌>>=◌ (element 2 vs) λ o. Decoder.◌>>=◌ (as_string bad_operation o) λ operation.
            Decoder.◌>>=◌ (element 3 vs) λ k. Decoder.◌>>=◌ (as_string bad_key k) λ key.
              Decoder.◌>>=◌ (stream_payload operation vs) λ payload. accepted (record {
                seq_num = seq;
                operation = operation;
                key = key;
                value = payload.0;
                ttl = payload.1;
              }))

unfoldable pub apply_command : ℕ → ReplicateCommand → Follower → Outcome Follower
apply_command now c f = do
  cache ←
      ite (bytes_discrete c.operation op_set) (set c.key c.value (seconds c.ttl) now f.cache)
        (delete_key c.key f.cache)
  done (raise_seq c.seq_num (record f { cache = cache }))

-- The rest of a REPLICATE message, with the error that ends the stream, if any.
unfoldable pub apply_checked :
    ℕ → Checked ReplicateCommand → Follower → Outcome (Option StreamError × Follower)
unfolding apply_command
apply_checked now (accepted c) f = do f' ← apply_command now c f; done (none, f')
apply_checked now (rejected e) f = done (some (bad_message e), f)
apply_checked now crashed f = panic

-- `command == word`, where the command may be of any type
abbrev pub is_word : Bytes → Value → Bool
is_word word (str s) = ite (bytes_discrete s word) true false
is_word word (int z) = false
is_word word (arr vs) = false

abbrev pub heard : ℕ → Follower → Follower
heard now f = record f { last_heartbeat = some now }

-- A message of processReplicationStream; anything but REPLICATE is passed over.
unfoldable pub on_command : ℕ → Value → Items → Follower → Outcome (Option StreamError × Follower)
unfolding stream_command apply_checked
on_command now command vs f =
    if is_word cmd_replicate command
    then apply_checked now (stream_command vs) f
    else done (none, f)

unfoldable pub on_message : ℕ → Value → Follower → Outcome (Option StreamError × Follower)
unfolding on_command
on_message now (arr nil) f = panic
on_message now (arr (cons command vs)) f = on_command now command (cons command vs) (heard now f)
on_message now (str s) f = done (some not_a_slice, heard now f)
on_message now (int z) f = done (some not_a_slice, heard now f)

-- processReplicationStream; with more fuel than bytes the last clause of `parse` is not met.
unfoldable pub process_stream :
    (ℕ → ℕ) → ℕ → ℕ → Bytes → Follower → Outcome (StreamError × Follower)
unfolding on_message
process_stream clock zero i input f = blocked
process_stream clock (suc n) i input f = elim (parse (suc (length input)) input) [
  | bad e rest ↦ done (read_failed e, f)
  | crash ↦ panic
  | starved ↦ blocked
  | good v rest ↦ on_message (clock i) v f >>= λ r. elim (r.0) [
    | some e ↦ done (e, r.1)
    | none ↦ process_stream clock n (suc i) rest r.1
  ]
]

-- The end of a sync: DecodeSyncEnd, and the number that it carries.
abbrev pub end_sync : Option ℤ → Follower → Option StreamError × Follower
end_sync none f = (some bad_sync_end, f)
end_sync (some seq) f = (none, raise_seq seq f)

-- sendSyncRequest after its request is written: messages up to SYNCEND. The result is the error, or
-- what the stream still holds.
unfoldable pub read_sync :
    (ℕ → ℕ) → ℕ → ℕ → Bytes → Follower → Outcome ((Option StreamError × Bytes) × Follower)
unfolding on_message decode_sync_end
read_sync clock zero i input f = blocked
read_sync clock (suc n) i input f = elim (parse (suc (length input)) input) [
  | bad e rest ↦ done ((some (read_failed e), rest), f)
  | crash ↦ panic
  | starved ↦ blocked
  | good v rest ↦ elim v [
    | str s ↦ done ((some not_a_slice, rest), f)
    | int z ↦ done ((some not_a_slice, rest), f)
    | arr vs ↦ elim vs [
      | nil ↦ panic
      | cons command more ↦ elim (is_word cmd_sync_end command) [
        | true ↦
            let r = end_sync (decode_sync_end (cons command more)) (heard (clock i) f) in
            done ((r.0, rest), r.1)
        | false ↦ on_message (clock i) (arr (cons command more)) f >>= λ r. elim (r.0) [
          | some e ↦ done ((some e, rest), r.1)
          | none ↦ read_sync clock n (suc i) rest r.1
        ]
      ]
    ]
  ]
]
