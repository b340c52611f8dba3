-- ===== src/Replication/Tests.antt =====
-- The messages of replication at small inputs.
use gocache.Prelude.{
  ℕ, suc, ◌+◌, ◌≡◌, refl, inr, true, false, some, List, [], ◌∷◌, ◌++◌, map, length, arith, done,
}
use gocache.Prelude.Int.{pos, negsuc}
use gocache.Prelude.Maps.{Bytes}
use gocache.Resp.{Items, arr, good, parse, eof}
use gocache.Cache.{new_cache}
use gocache.Cache.Steps.{Refines}
use gocache.Cache.Runs.{Refines-new}
use gocache.Cache.Writes.{Write, set_write, delete_write, spec_writes}
use gocache.Replication.Leader.{Leader, write_to}
use gocache.Replication.Follower.{Follower, new_follower, read_failed, process_stream}
use gocache.Replication.Writes.{replicate_writes}
use gocache.Replication.Stream.{process_stream-replicate_writes}
use gocache.Resp.Encoder.{encode_array}
use gocache.Replication.Protocol.{
  op_set, op_delete, SyncRequest, ReplicateCommand, HeartbeatCommand, written, set_items,
  encode_sync_request, encode_replicate_command, encode_heartbeat_command, encode_sync_end,
}
use gocache.Replication.Decoder.{
  ok, panicked, decode_sync_request, decode_replicate_command, decode_heartbeat_command,
  decode_sync_end,
}
use gocache.Replication.RoundTrip.{
  IsCommand, carried, first_items, decode_replicate_command-encode_replicate_command,
  decode_sync_request-encode_sync_request, decode_replicate_command-panicked,
}

abbrev deletion : ReplicateCommand
deletion = record {
  seq_num = pos 7;
  operation = op_delete;
  key = b'k' ∷ [];
  value = b'v' ∷ [];
  ttl = pos 3;
}

abbrev setting : ReplicateCommand
setting = record deletion { operation = op_set }

deletion-IsCommand : IsCommand deletion
deletion-IsCommand = record {
  seq_fits = omega arith;
  ttl_fits = omega arith;
  key_fits = omega arith;
  value_fits = omega arith;
}

setting-IsCommand : IsCommand setting
setting-IsCommand = record {
  seq_fits = omega arith;
  ttl_fits = omega arith;
  key_fits = omega arith;
  value_fits = omega arith;
}

decode_replicate_command-encode_replicate_command_example :
    (bytes : Bytes) × (encode_replicate_command (some deletion) ≡ done (written bytes))
    × ((f : ℕ) (rest : Bytes)
        → decode_replicate_command (suc (suc f)) (bytes ++ rest) ≡ ok (carried deletion) rest)
decode_replicate_command-encode_replicate_command_example =
    decode_replicate_command-encode_replicate_command deletion deletion-IsCommand (inr refl)

decode_replicate_command-panicked_example :
    (bytes : Bytes) × (encode_array (first_items 2 (set_items setting)) ≡ done bytes)
    × ((f : ℕ) (rest : Bytes) → decode_replicate_command (suc (suc f)) (bytes ++ rest) ≡ panicked)
decode_replicate_command-panicked_example =
    decode_replicate_command-panicked 2 setting (omega arith) setting-IsCommand refl

abbrev request : SyncRequest
request = record { follower_id = b'f' ∷ []; last_seq_num = negsuc 0 }

abbrev beat : HeartbeatCommand
beat = record { seq_num = pos 4; node_id = b'n' ∷ [] }

decode_sync_request-encode_sync_request_example :
    ((bytes : Bytes) × (encode_sync_request (some request) ≡ done (written bytes))
      × ((f : ℕ) (rest : Bytes)
          → decode_sync_request (suc (suc f)) (bytes ++ rest) ≡ ok request rest))
    × ((bytes : Bytes) × (encode_heartbeat_command (some beat) ≡ done (written bytes))
        × ((f : ℕ) (rest : Bytes)
            → decode_heartbeat_command (suc (suc f)) (bytes ++ rest) ≡ ok beat rest))
    × ((bytes : Bytes) × (encode_sync_end (pos 9) ≡ done bytes)
        × ((f : ℕ) (rest : Bytes)
            → (vs : Items) × (parse (suc (suc f)) (bytes ++ rest) ≡ good (arr vs) rest)
              × (decode_sync_end vs ≡ some (pos 9))))
decode_sync_request-encode_sync_request_example =
    decode_sync_request-encode_sync_request request beat (pos 9) (omega arith) (omega arith)
      (omega arith) (omega arith) (omega arith)

abbrev writes : List Write
writes = set_write (b'k' ∷ []) (b'v' ∷ []) (pos 5) ∷ delete_write (b'j' ∷ []) ∷ []

-- A leader that has sent nothing, with a follower whose connection is broken and one whose works.
abbrev leader : Leader
leader = record {
  followers =
      record { id = b'f' ∷ []; sent = []; broken = true; last_heartbeat = 0 }
      ∷ record { id = b'g' ∷ []; sent = []; broken = false; last_heartbeat = 0 }
      ∷ [];
  seq_num = 0;
}

abbrev follower : Follower
follower = new_follower (new_cache 2) (b'g' ∷ [])

process_stream-replicate_writes_example :
    (bytes : Bytes) × (l' : Leader) × (f' : Follower) × (replicate_writes writes leader ≡ done l')
    × (l'.seq_num ≡ 0 + length writes)
    × (l'.followers ≡ map (write_to bytes) leader.followers)
    × (process_stream (λ i. 10) 3 0 bytes follower ≡ done (read_failed eof, f'))
    × Refines f'.cache (spec_writes 2 (λ i. 10) 0 writes [])
    × (f'.last_seq_num ≡ pos l'.seq_num)
process_stream-replicate_writes_example =
    process_stream-replicate_writes writes leader (λ i. 10) 3 0 follower [] (omega arith)
      ((omega arith, omega arith, omega arith), (omega arith, tt)) (omega arith) refl
      (Refines-new 2 (omega arith)) refl
