-- ===== src/Replication/Leader.antt =====
-- internal/replication/leader.go: the sequence numbers and what each follower is sent. A connection
-- is the list of what was written to it; a write to a broken one is lost, as its error is only logged.
use gocache.Prelude.{
  ℕ, suc, ◌-◌, ◌*◌, Bool, true, false, Option, none, some, List, [], ◌∷◌, ◌++◌, map, ltb, ite,
  if◌then◌else◌, Outcome, done, ◌>>=◌,
}
use gocache.Prelude.Int.{ℤ, pos}
use gocache.Prelude.Duration.{second, remaining}
use gocache.Prelude.Maps.{Bytes, bytes_discrete}
use gocache.Cache.{SnapshotEntry}
use gocache.Replication.Protocol.{
  op_set, Encoded, written, nil_command, invalid_operation, encode_replicate_command,
  encode_heartbeat_command, encode_sync_end,
}

pub record FollowerConn : Type 0 where
  pub id : Bytes
  pub sent : Bytes
  pub broken : Bool
  pub last_heartbeat : ℕ

pub record Leader : Type 0 where
  pub followers : List FollowerConn
  pub seq_num : ℕ

abbrev pub new_leader : Leader
new_leader = record { followers = []; seq_num = 0 }

-- `follower.conn.Write(bytes)`
abbrev pub write_to : Bytes → FollowerConn → FollowerConn
write_to bytes f = record f { sent = if f.broken then f.sent else f.sent ++ bytes }

abbrev pub send_to_followers : Bytes → Leader → Leader
send_to_followers bytes l = record l { followers = map (write_to bytes) l.followers }

-- The loop over the followers, unless the command could not be encoded; the flag is the error.
abbrev pub send_encoded : Encoded → Leader → Bool × Leader
send_encoded (written bytes) l = (false, send_to_followers bytes l)
send_encoded nil_command l = (true, l)
send_encoded invalid_operation l = (true, l)

unfoldable pub replicate : Bytes → Bytes → Bytes → ℤ → Leader → Outcome (Bool × Leader)
replicate operation key value ttl l = do
  let seq = suc l.seq_num
  encoded ← encode_replicate_command (
      some
        (record { seq_num = pos seq; operation = operation; key = key; value = value; ttl = ttl }))
  done (send_encoded encoded (record l { seq_num = seq }))

abbrev pub add_follower : Bytes → ℕ → Leader → Leader
add_follower id now l = record l {
  followers =
      l.followers ++ (record { id = id; sent = []; broken = false; last_heartbeat = now } ∷ []);
}

unfoldable pub last_of : FollowerConn → List FollowerConn → FollowerConn
last_of f [] = f
last_of f (g ∷ fs) = last_of g fs

unfoldable pub all_but_last : FollowerConn → List FollowerConn → List FollowerConn
all_but_last f [] = []
all_but_last f (g ∷ fs) = f ∷ all_but_last g fs

-- `followers[i] = followers[len-1]; followers = followers[:len-1]` at the first with the id.
abbrev pub replace_head : List FollowerConn → List FollowerConn
replace_head [] = []
replace_head (g ∷ fs) = last_of g fs ∷ all_but_last g fs

unfoldable pub remove_by_id : Bytes → List FollowerConn → List FollowerConn
unfolding last_of all_but_last
remove_by_id id [] = []
remove_by_id id (f ∷ fs) =
    let rest = remove_by_id id fs in ite (bytes_discrete f.id id) (replace_head fs) (f ∷ rest)

abbrev pub remove_follower : Bytes → Leader → Leader
remove_follower id l = record l { followers = remove_by_id id l.followers }

-- A round of sendHeartbeats.
unfoldable pub send_heartbeat : Leader → Outcome Leader
send_heartbeat l = do
  encoded ← encode_heartbeat_command (
      some (record {
        seq_num = pos l.seq_num;
        node_id = b'l' ∷ b'e' ∷ b'a' ∷ b'd' ∷ b'e' ∷ b'r' ∷ [];
      }))
  done ((send_encoded encoded l).1)

-- A heartbeat of the follower at a place of the list, and a round of monitorFollowerHealth, which
-- closes the connections that were silent for more than 15 seconds.
abbrev pub beat : ℕ → FollowerConn → FollowerConn
beat now f = record f { last_heartbeat = now }

abbrev pub close_silent : ℕ → FollowerConn → FollowerConn
close_silent now f =
    if ltb (15 * second) (now - f.last_heartbeat) then record f { broken = true } else f

unfoldable pub monitor_follower_health : ℕ → Leader → Leader
monitor_follower_health now l = record l { followers = map (close_silent now) l.followers }

-- The snapshot of handleFollower, with `int64(ttl.Seconds())` as the parameter: an item that has
-- expired takes a number too, and is not sent.
abbrev pub sent_bytes : Encoded → Bytes
sent_bytes (written bytes) = bytes
sent_bytes nil_command = []
sent_bytes invalid_operation = []

module _ (whole : ℤ → ℤ) where
  abbrev pub snapshot_item : Bytes → Bytes → ℕ → Option ℤ → Outcome Bytes
  snapshot_item key value seq none = done []
  snapshot_item key value seq (some ttl) = do
    encoded ← encode_replicate_command (
        some (record {
          seq_num = pos seq;
          operation = op_set;
          key = key;
          value = value;
          ttl = whole ttl;
        }))
    done (sent_bytes encoded)

  unfoldable pub send_snapshot :
      (ℕ → ℕ) → ℕ → List (Bytes × SnapshotEntry) → Leader → Outcome (Bytes × Leader)
  send_snapshot clock i [] l = done ([], l)
  send_snapshot clock i ((key, entry) ∷ m) l = do
    let seq = suc l.seq_num
    first ← snapshot_item key entry.value seq (remaining (clock i) entry.expires_at)
    (rest, l') ← send_snapshot clock (suc i) m (record l { seq_num = seq })
    done (first ++ rest, l')

  -- All that a new follower is sent before it is on the list.
  unfoldable pub send_sync :
      (ℕ → ℕ) → List (Bytes × SnapshotEntry) → Leader → Outcome (Bytes × Leader)
  unfolding send_snapshot
  send_sync clock m l = do
    (items, l') ← send_snapshot clock 0 m l
    ending ← encode_sync_end (pos l'.seq_num)
    done (items ++ ending, l')
