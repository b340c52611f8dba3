-- ===== src/Replication/Stream.antt =====
-- internal/replication: what a follower makes of the stream that its leader sends.
use mathlib.Core.Path.{subst}
use mathlib.Core.List.{append-nil}
use gocache.Prelude.{
  ℕ, zero, suc, ◌+◌, ◌<◌, ◌^◌, ◌≡◌, refl, sym, ap, ◌∙◌, Bool, true, false, none, List, [], ◌∷◌,
  ◌++◌, map, arith, All, length, lt→ltb, if◌then◌else◌, done,
}
use gocache.Prelude.Int.{pos}
use gocache.Prelude.Maps.{Bytes, bytes_discrete}
use gocache.Resp.{Items, arr, good, eof, parse}
use gocache.Resp.Heads.{Reads, parse-head}
use gocache.Cache.{Cache}
use gocache.Cache.Spec.{Entry}
use gocache.Cache.Steps.{Refines}
use gocache.Cache.Writes.{
  Write, set_write, delete_write, IsWrite, apply_write, apply_write-Becomes, spec_write,
  spec_writes,
}
use gocache.Replication.RoundTrip.{items_of, parse-encode_replicate_command}
use gocache.Replication.Leader.{Leader, FollowerConn, send_to_followers, write_to}
use gocache.Replication.Follower.{
  Follower, read_failed, heard, raise_seq, on_message, on_command, stream_command, stream_payload,
  apply_checked, apply_command, process_stream,
}
use gocache.Replication.Writes.{
  command_of, IsCommand-command_of, command_operation, replicate_writes, replicate_write-sends,
  map-write_to,
}

-- A message of the stream is the write, with the number that it carries.
message-applies :
    (now seq : ℕ) (w : Write) (f : Follower) (c' : Cache)
    → apply_write now w f.cache ≡ done c'
    → on_message now (arr (items_of (command_of seq w))) f
      ≡ done (none, raise_seq (pos seq) (record (heard now f) { cache = c' }))
unfolding on_message on_command stream_command stream_payload apply_checked apply_command
    apply_write bytes_discrete
message-applies now seq (set_write key value ttl) f c' ran = rw ran refl
message-applies now seq (delete_write key) f c' ran = rw ran refl

process_stream-good :
    (clock : ℕ → ℕ) (n i : ℕ) (input rest : Bytes) (vs : Items) (f f' : Follower)
    → parse (suc (length input)) input ≡ good (arr vs) rest
    → on_message (clock i) (arr vs) f ≡ done (none, f')
    → process_stream clock (suc n) i input f ≡ process_stream clock n (suc i) rest f'
unfolding process_stream
process_stream-good clock n i input rest vs f f' read applies =
    rw (read, applies, process_stream) refl

-- A message at the head of the stream is read, and the rest is left to the loop.
process_stream-step :
    (clock : ℕ → ℕ) (n i : ℕ) (bytes rest : Bytes) (vs : Items) (f f' : Follower)
    → Reads bytes vs
    → on_message (clock i) (arr vs) f ≡ done (none, f')
    → process_stream clock (suc n) i (bytes ++ rest) f ≡ process_stream clock n (suc i) rest f'
process_stream-step clock n i bytes rest vs f f' back applies =
    process_stream-good clock n i (bytes ++ rest) rest vs f f' (parse-head vs bytes rest back).0
      applies

process_stream-eof :
    (clock : ℕ → ℕ) (n i : ℕ) (f : Follower)
    → 0 < n
    → process_stream clock n i [] f ≡ done (read_failed eof, f)
unfolding process_stream parse
process_stream-eof clock zero i f h = absurd (omega (arith, h))
process_stream-eof clock (suc n) i f h = refl

raise_seq-next :
    (seq : ℕ) (f : Follower)
    → f.last_seq_num ≡ pos seq
    → (raise_seq (pos (suc seq)) f).last_seq_num ≡ pos (suc seq)
raise_seq-next seq f same = rw (same, lt→ltb seq (suc seq) (omega arith)) refl

write_to_nothing : (f : FollowerConn) → write_to [] f ≡ f
write_to_nothing f = ap (λ s. record f { sent = s }) (same f.sent f.broken)
  where
    same : (s : Bytes) (broken : Bool) → (if broken then s else s ++ []) ≡ s
    same s true = refl
    same s false = append-nil s

map-write_to_nothing : (fs : List FollowerConn) → map (write_to []) fs ≡ fs
map-write_to_nothing [] = refl
map-write_to_nothing (f ∷ fs) = rw (write_to_nothing f, map-write_to_nothing fs) refl

-- What a follower makes of a stream: the writes.
abbrev ReadsWrites : Bytes → List Write → ℕ → ℕ → Type 0
ReadsWrites bytes ws seq seq' =
    (clock : ℕ → ℕ) (n i : ℕ) (f : Follower) (es : List Entry)
    → length ws < n
    → f.cache.held ≡ false
    → Refines f.cache es
    → f.last_seq_num ≡ pos seq
    → (f' : Follower) × (process_stream clock n i bytes f ≡ done (read_failed eof, f'))
      × Refines f'.cache (spec_writes f.cache.max_size clock i ws es)
      × (f'.last_seq_num ≡ pos seq')

process_stream-ReadsWrites :
    (w : Write) (ws : List Write) (bytes rest : Bytes) (seq seq' : ℕ)
    → Reads bytes (items_of (command_of (suc seq) w))
    → ReadsWrites rest ws (suc seq) seq'
    → ReadsWrites (bytes ++ rest) (w ∷ ws) seq seq'
unfolding spec_writes
process_stream-ReadsWrites w ws bytes rest seq seq' back reads clock zero i f es fuel free r same =
    absurd (omega (arith, fuel))
process_stream-ReadsWrites w ws bytes rest seq seq' back reads clock (suc n) i f es fuel free r
      same =
    let (c1, ran1, r1, size1, lock1) = apply_write-Becomes (clock i) w f.cache es free r in
    let f1 = raise_seq (pos (suc seq)) (record (heard (clock i) f) { cache = c1 }) in
    let (f', ran, r', num) =
      reads clock n (suc i) f1 (spec_write f.cache.max_size (clock i) w es) (omega (arith, fuel))
        (lock1 ∙ free) r1 (raise_seq-next seq (record (heard (clock i) f) { cache = c1 }) same) in
    (
      f',
      process_stream-step clock n i bytes rest (items_of (command_of (suc seq) w)) f f1 back
            (message-applies (clock i) (suc seq) w f c1 ran1)
          ∙ ran,
      subst
          (λ k.
            Refines f'.cache
              (spec_writes k clock (suc i) ws (spec_write f.cache.max_size (clock i) w es)))
          size1 r',
      num,
    )

replicate_writes-ReadsWrites :
    (ws : List Write) (l : Leader)
    → l.seq_num + length ws < 2 ^ 63
    → All IsWrite ws
    → (bytes : Bytes) × (l' : Leader) × (replicate_writes ws l ≡ done l')
      × (l'.seq_num ≡ l.seq_num + length ws)
      × (l'.followers ≡ map (write_to bytes) l.followers)
      × ReadsWrites bytes ws l.seq_num l'.seq_num
unfolding replicate_writes spec_writes
replicate_writes-ReadsWrites [] l small h = (
  [],
  l,
  refl,
  omega arith,
  sym (map-write_to_nothing l.followers),
  λ clock n i f es fuel free r same. (f, process_stream-eof clock n i f fuel, r, same),
)
replicate_writes-ReadsWrites (w ∷ ws) l small h =
    let (bytes, ran, back) =
      parse-encode_replicate_command (command_of (suc l.seq_num) w)
        (IsCommand-command_of (suc l.seq_num) w (omega (arith, small)) h.0)
        (command_operation (suc l.seq_num) w) in
    let l1 = send_to_followers bytes (record l { seq_num = suc l.seq_num }) in
    let (bytes', l', ran', num, sent, reads) =
      replicate_writes-ReadsWrites ws l1 (omega (arith, small)) h.1 in
    (
      bytes ++ bytes',
      l',
      rw (replicate_write-sends w l bytes ran) ran',
      omega (arith, num),
      sent ∙ map-write_to bytes bytes' l.followers,
      process_stream-ReadsWrites w ws bytes bytes' l.seq_num l'.seq_num back reads,
    )

-- In a leader that is not at the end of the int64 numbers, calls of Replicate for writes with keys
-- and values shorter than 2^63 bytes and lifetimes of 64 bits do not panic, number the writes on
-- from the leader's number, and send every follower whose connection works the same bytes. A
-- follower with that number and a free cache that holds some entries reads the bytes to their end,
-- with more fuel than writes, and its cache then holds what the writes make of the entries, and its
-- number is the leader's.
pub process_stream-replicate_writes :
    (ws : List Write) (l : Leader) (clock : ℕ → ℕ) (n i : ℕ) (f : Follower) (es : List Entry)
    → l.seq_num + length ws < 2 ^ 63
    → All IsWrite ws
    → length ws < n
    → f.cache.held ≡ false
    → Refines f.cache es
    → f.last_seq_num ≡ pos l.seq_num
    → (bytes : Bytes) × (l' : Leader) × (f' : Follower) × (replicate_writes ws l ≡ done l')
      × (l'.seq_num ≡ l.seq_num + length ws)
      × (l'.followers ≡ map (write_to bytes) l.followers)
      × (process_stream clock n i bytes f ≡ done (read_failed eof, f'))
      × Refines f'.cache (spec_writes f.cache.max_size clock i ws es)
      × (f'.last_seq_num ≡ pos l'.seq_num)
process_stream-replicate_writes ws l clock n i f es small h fuel free r same =
    let (bytes, l', ran, num, sent, reads) = replicate_writes-ReadsWrites ws l small h in
    let (f', ran', r', num') = reads clock n i f es fuel free r same in
    (bytes, l', f', ran, num, sent, ran', r', num')
