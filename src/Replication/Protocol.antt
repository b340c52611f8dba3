-- ===== src/Replication/Protocol.antt =====
-- internal/replication/protocol.go: the messages, written with EncodeArray.
-- A nil pointer is `none`. An int of 64 bits and an int64 are one type here.
use gocache.Prelude.{Option, none, some, [], ◌∷◌, ite, Outcome, done, ◌>>=◌}
use gocache.Prelude.Int.{ℤ}
use gocache.Prelude.Maps.{Bytes, bytes_discrete}
use gocache.Resp.{Items, str, int, nil, cons}
use gocache.Resp.Encoder.{encode_array}

-- "SET", "DELETE", "SYNC", "REPLICATE", "HEARTBEAT" and "SYNCEND"
abbrev pub op_set : Bytes
op_set = b'S' ∷ b'E' ∷ b'T' ∷ []

abbrev pub op_delete : Bytes
op_delete = b'D' ∷ b'E' ∷ b'L' ∷ b'E' ∷ b'T' ∷ b'E' ∷ []

abbrev pub cmd_sync : Bytes
cmd_sync = b'S' ∷ b'Y' ∷ b'N' ∷ b'C' ∷ []

abbrev pub cmd_replicate : Bytes
cmd_replicate = b'R' ∷ b'E' ∷ b'P' ∷ b'L' ∷ b'I' ∷ b'C' ∷ b'A' ∷ b'T' ∷ b'E' ∷ []

abbrev pub cmd_heartbeat : Bytes
cmd_heartbeat = b'H' ∷ b'E' ∷ b'A' ∷ b'R' ∷ b'T' ∷ b'B' ∷ b'E' ∷ b'A' ∷ b'T' ∷ []

abbrev pub cmd_sync_end : Bytes
cmd_sync_end = b'S' ∷ b'Y' ∷ b'N' ∷ b'C' ∷ b'E' ∷ b'N' ∷ b'D' ∷ []

pub record SyncRequest : Type 0 where
  pub follower_id : Bytes
  pub last_seq_num : ℤ

pub record ReplicateCommand : Type 0 where
  pub seq_num : ℤ
  pub operation : Bytes
  pub key : Bytes
  pub value : Bytes
  pub ttl : ℤ

pub record HeartbeatCommand : Type 0 where
  pub seq_num : ℤ
  pub node_id : Bytes

-- What an encoder returns.
pub data Encoded : Type 0 where
  written : Bytes → Encoded
  nil_command invalid_operation : Encoded

abbrev pub write_items : Items → Outcome Encoded
write_items vs = do bytes ← encode_array vs; done (written bytes)

abbrev pub sync_items : SyncRequest → Items
sync_items r = cons (str cmd_sync) (cons (str r.follower_id) (cons (int r.last_seq_num) nil))

unfoldable pub encode_sync_request : Option SyncRequest → Outcome Encoded
encode_sync_request none = done nil_command
encode_sync_request (some r) = write_items (sync_items r)

abbrev pub set_items : ReplicateCommand → Items
set_items c = cons (str cmd_replicate) (
    cons (int c.seq_num)
      (cons (str c.operation) (cons (str c.key) (cons (str c.value) (cons (int c.ttl) nil)))))

abbrev pub delete_items : ReplicateCommand → Items
delete_items c =
    cons (str cmd_replicate) (cons (int c.seq_num) (cons (str c.operation) (cons (str c.key) nil)))

unfoldable pub encode_replicate_command : Option ReplicateCommand → Outcome Encoded
encode_replicate_command none = done nil_command
encode_replicate_command (some c) =
    ite (bytes_discrete c.operation op_set) (write_items (set_items c)) (
      ite (bytes_discrete c.operation op_delete) (write_items (delete_items c))
        (done invalid_operation))

abbrev pub heartbeat_items : HeartbeatCommand → Items
heartbeat_items h = cons (str cmd_heartbeat) (cons (int h.seq_num) (cons (str h.node_id) nil))

unfoldable pub encode_heartbeat_command : Option HeartbeatCommand → Outcome Encoded
encode_heartbeat_command none = done nil_command
encode_heartbeat_command (some h) = write_items (heartbeat_items h)

abbrev pub sync_end_items : ℤ → Items
sync_end_items seq = cons (str cmd_sync_end) (cons (int seq) nil)

unfoldable pub encode_sync_end : ℤ → Outcome Bytes
encode_sync_end seq = encode_array (sync_end_items seq)
