-- ===== src/Replication/Writes.antt =====
-- internal/replication/leader.go: the calls of Replicate for the writes of the handlers.
use mathlib.Core.List.{append_assoc}
use gocache.Prelude.{
  ℕ, suc, ◌<◌, ◌^◌, ◌≡◌, refl, ap, ◌⊎◌, inl, inr, Bool, true, false, some, List, [], ◌∷◌, ◌++◌, map,
  arith, if◌then◌else◌, Outcome, done, ◌>>=◌,
}
use gocache.Prelude.Int.{pos}
use gocache.Prelude.Maps.{Bytes}
use gocache.Cache.Writes.{Write, set_write, delete_write, IsWrite}
use gocache.Replication.Protocol.{
  op_set, op_delete, ReplicateCommand, written, encode_replicate_command,
}
use gocache.Replication.RoundTrip.{IsCommand, parse-encode_replicate_command}
use gocache.Replication.Leader.{Leader, FollowerConn, replicate, send_to_followers, write_to}

abbrev pub command_of : ℕ → Write → ReplicateCommand
command_of seq (set_write key value ttl) = record {
  seq_num = pos seq;
  operation = op_set;
  key = key;
  value = value;
  ttl = ttl;
}
command_of seq (delete_write key) = record {
  seq_num = pos seq;
  operation = op_delete;
  key = key;
  value = [];
  ttl = pos 0;
}

pub IsCommand-command_of :
    (seq : ℕ) (w : Write) → seq < 2 ^ 63 → IsWrite w → IsCommand (command_of seq w)
IsCommand-command_of seq (set_write key value ttl) small h = record {
  seq_fits = small;
  ttl_fits = h.2;
  key_fits = h.0;
  value_fits = h.1;
}
IsCommand-command_of seq (delete_write key) small h = record {
  seq_fits = small;
  ttl_fits = omega arith;
  key_fits = h;
  value_fits = omega arith;
}

pub command_operation :
    (seq : ℕ) (w : Write)
    → ((command_of seq w).operation ≡ op_set) ⊎ ((command_of seq w).operation ≡ op_delete)
command_operation seq (set_write key value ttl) = inl refl
command_operation seq (delete_write key) = inr refl

-- The calls of Replicate that the handlers make for a write, and for several.
abbrev pub replicate_write : Write → Leader → Outcome (Bool × Leader)
replicate_write (set_write key value ttl) l = replicate op_set key value ttl l
replicate_write (delete_write key) l = replicate op_delete key [] (pos 0) l

unfoldable pub replicate_writes : List Write → Leader → Outcome Leader
replicate_writes [] l = done l
replicate_writes (w ∷ ws) l = replicate_write w l >>= λ r. replicate_writes ws r.1

pub replicate_write-sends :
    (w : Write) (l : Leader) (bytes : Bytes)
    → encode_replicate_command (some (command_of (suc l.seq_num) w)) ≡ done (written bytes)
    → replicate_write w l
      ≡ done (false, send_to_followers bytes (record l { seq_num = suc l.seq_num }))
unfolding replicate
replicate_write-sends (set_write key value ttl) l bytes ran = rw ran refl
replicate_write-sends (delete_write key) l bytes ran = rw ran refl

write_to-write_to :
    (a b : Bytes) (f : FollowerConn) → write_to b (write_to a f) ≡ write_to (a ++ b) f
write_to-write_to a b f = ap (λ s. record f { sent = s }) (sent_twice a b f.sent f.broken)
  where
    sent_twice :
        (a b s : Bytes) (broken : Bool)
        → (if broken then (if broken then s else s ++ a) else (if broken then s else s ++ a) ++ b)
          ≡ (if broken then s else s ++ (a ++ b))
    sent_twice a b s true = refl
    sent_twice a b s false = append_assoc s a b

pub map-write_to :
    (a b : Bytes) (fs : List FollowerConn)
    → map (write_to b) (map (write_to a) fs) ≡ map (write_to (a ++ b)) fs
map-write_to a b [] = refl
map-write_to a b (f ∷ fs) = rw (write_to-write_to a b f, map-write_to a b fs) refl

-- A call of Replicate for a write ends, with the next number.
pub replicate_write_ends :
    (w : Write) (l : Leader)
    → suc l.seq_num < 2 ^ 63
    → IsWrite w
    → (r : Bool × Leader) × (replicate_write w l ≡ done r) × (r.1.seq_num ≡ suc l.seq_num)
replicate_write_ends w l small h =
    let (bytes, ran, back) =
      parse-encode_replicate_command (command_of (suc l.seq_num) w)
        (IsCommand-command_of (suc l.seq_num) w small h) (command_operation (suc l.seq_num) w) in
    (
      (false, send_to_followers bytes (record l { seq_num = suc l.seq_num })),
      replicate_write-sends w l bytes ran,
      refl,
    )
