-- ===== src/Replication/Decoder.antt =====
-- internal/replication/protocol.go: the readers of the messages, on what Parse returns.
use gocache.Prelude.{ℕ, zero, suc, Option, none, some, [], ◌==◌, if◌then◌else◌, ite}
use gocache.Prelude.Int.{ℤ, pos}
use gocache.Prelude.Maps.{Bytes, bytes_discrete}
use gocache.Prelude.Decimal.{parse_int}
use gocache.Resp.{
  Value, Items, str, int, arr, nil, cons, ParseError, Parsed, good, bad, crash, starved, parse,
}
use gocache.Resp.Encoder.{count}
use gocache.Replication.Protocol.{
  op_set, op_delete, cmd_sync, cmd_replicate, cmd_heartbeat, cmd_sync_end, SyncRequest,
  ReplicateCommand, HeartbeatCommand,
}

pub data DecodeError : Type 0 where
  bad_read : ParseError → DecodeError
  expected_array wrong_length wrong_command bad_follower_id bad_seq_num bad_operation bad_key
        bad_value bad_ttl bad_node_id :
      DecodeError

-- What a decoder makes of a value that was read.
pub data Checked {ℓ} (A : Type ℓ) : Type ℓ where
  accepted : A → Checked A
  rejected : DecodeError → Checked A
  crashed : Checked A

infixl 5 ◌>>=◌
abbrev pub ◌>>=◌ {ℓ κ} : {A : Type ℓ} {B : Type κ} → Checked A → (A → Checked B) → Checked B
accepted a >>= f = f a
rejected e >>= f = rejected e
crashed >>= f = crashed

-- The result of a decoder with the bytes that are left.
pub data Decoded {ℓ} (A : Type ℓ) : Type ℓ where
  ok : A → Bytes → Decoded A
  failed : DecodeError → Bytes → Decoded A
  panicked : Decoded A
  unfinished : Decoded A

abbrev pub finish {ℓ} : {A : Type ℓ} → Checked A → Bytes → Decoded A
finish (accepted a) rest = ok a rest
finish (rejected e) rest = failed e rest
finish crashed rest = panicked

abbrev pub decode_with {ℓ} : {A : Type ℓ} → (Value → Checked A) → Parsed Value → Decoded A
decode_with check (good v rest) = finish (check v) rest
decode_with check (bad e rest) = failed (bad_read e) rest
decode_with check crash = panicked
decode_with check starved = unfinished

-- `arr[i]`, a panic where the array is shorter
abbrev pub element : ℕ → Items → Checked Value
element i nil = crashed
element zero (cons v vs) = accepted v
element (suc i) (cons v vs) = element i vs

abbrev pub as_array : Value → Checked Items
as_array (arr vs) = accepted vs
as_array (str s) = rejected expected_array
as_array (int z) = rejected expected_array

abbrev pub as_string : DecodeError → Value → Checked Bytes
as_string e (str s) = accepted s
as_string e (int z) = rejected e
as_string e (arr vs) = rejected e

-- `cmd, ok := v.(string)` and `!ok || cmd != word`
abbrev pub check_word : Bytes → Value → Checked (Unit {0})
check_word word (str s) = ite (bytes_discrete s word) (accepted tt) (rejected wrong_command)
check_word word (int z) = rejected wrong_command
check_word word (arr vs) = rejected wrong_command

abbrev pub parsed_seq : Option ℤ → Checked ℤ
parsed_seq none = rejected bad_seq_num
parsed_seq (some z) = accepted z

-- A sequence number may be an int or a string.
abbrev pub as_seq_num : Value → Checked ℤ
as_seq_num (int z) = accepted z
as_seq_num (str s) = parsed_seq (parse_int s)
as_seq_num (arr vs) = rejected bad_seq_num

abbrev pub as_ttl : Value → Checked ℤ
as_ttl (int z) = accepted z
as_ttl (str s) = rejected bad_ttl
as_ttl (arr vs) = rejected bad_ttl

abbrev pub check_length : ℕ → Items → Checked (Unit {0})
check_length n vs = if count vs == n then accepted tt else rejected wrong_length

unfoldable pub read_sync_request : Value → Checked SyncRequest
read_sync_request v = do
  vs ← as_array v
  _ ← check_length 3 vs
  cmd ← element 0 vs
  _ ← check_word cmd_sync cmd
  id_value ← element 1 vs
  follower ← as_string bad_follower_id id_value
  seq_value ← element 2 vs
  seq ← as_seq_num seq_value
  accepted (record { follower_id = follower; last_seq_num = seq })

unfoldable pub check_operation : Value → Checked Bytes
check_operation (str s) =
    ite (bytes_discrete s op_set) (accepted s)
      (ite (bytes_discrete s op_delete) (accepted s) (rejected bad_operation))
check_operation (int z) = rejected bad_operation
check_operation (arr vs) = rejected bad_operation

-- The value and the lifetime: elements 4 and 5 of a SET, nothing in a DELETE.
unfoldable pub read_payload : Bytes → Items → Checked (Bytes × ℤ)
read_payload operation vs =
    ite (bytes_discrete operation op_set)
      (check_length 6 vs >>= λ _. element 4 vs >>= λ v. as_string bad_value v >>= λ value.
        element 5 vs >>= λ t. as_ttl t >>= λ ttl. accepted (value, ttl))
      (check_length 4 vs >>= λ _. accepted ([], pos 0))

unfoldable pub read_replicate_command : Value → Checked ReplicateCommand
unfolding check_operation read_payload
read_replicate_command v = do
  vs ← as_array v
  cmd ← element 0 vs
  _ ← check_word cmd_replicate cmd
  seq_value ← element 1 vs
  seq ← as_seq_num seq_value
  op_value ← element 2 vs
  op ← check_operation op_value
  key_value ← element 3 vs
  k ← as_string bad_key key_value
  payload ← read_payload op vs
  accepted (record { seq_num = seq; operation = op; key = k; value = payload.0; ttl = payload.1 })

unfoldable pub read_heartbeat_command : Value → Checked HeartbeatCommand
read_heartbeat_command v = do
  vs ← as_array v
  _ ← check_length 3 vs
  cmd ← element 0 vs
  _ ← check_word cmd_heartbeat cmd
  seq_value ← element 1 vs
  seq ← as_seq_num seq_value
  node_value ← element 2 vs
  node ← as_string bad_node_id node_value
  accepted (record { seq_num = seq; node_id = node })

-- The decoders of a stream; the fuel is that of Parse.
unfoldable pub decode_sync_request : ℕ → Bytes → Decoded SyncRequest
decode_sync_request f input = decode_with read_sync_request (parse f input)

unfoldable pub decode_replicate_command : ℕ → Bytes → Decoded ReplicateCommand
decode_replicate_command f input = decode_with read_replicate_command (parse f input)

unfoldable pub decode_heartbeat_command : ℕ → Bytes → Decoded HeartbeatCommand
decode_heartbeat_command f input = decode_with read_heartbeat_command (parse f input)

-- ParseInt64 and DecodeSyncEnd return false in place of an error.
abbrev pub parse_int64 : Value → Option ℤ
parse_int64 (int z) = some z
parse_int64 (str s) = parse_int s
parse_int64 (arr vs) = none

abbrev pub sync_end_number : Value → Value → Option ℤ
sync_end_number (str s) v = ite (bytes_discrete s cmd_sync_end) (parse_int64 v) none
sync_end_number (int z) v = none
sync_end_number (arr vs) v = none

unfoldable pub decode_sync_end : Items → Option ℤ
decode_sync_end (cons cmd (cons v nil)) = sync_end_number cmd v
decode_sync_end _ = none
