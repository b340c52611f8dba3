-- ===== src/Replication/RoundTrip.antt =====
-- internal/replication/protocol.go: what the encoders write is what the decoders read.
use gocache.Prelude.{
  ℕ, zero, suc, ◌≤◌, ◌<◌, ◌^◌, ◌≡◌, ◌≢◌, refl, ap, ◌∙◌, ◌⊎◌, inl, inr, some, [], ◌++◌, arith,
  length, ite, if_pos, if_neg, done,
}
use gocache.Prelude.Int.{ℤ, pos}
use gocache.Prelude.Maps.{Bytes, bytes_discrete}
use gocache.Prelude.Decimal.{Fits}
use gocache.Resp.{Items, str, arr, nil, cons, good, parse}
use gocache.Resp.Encoder.{count, encode_array}
use gocache.Resp.RoundTrip.{AllSendable, parse-encode_array}
use gocache.Replication.Protocol.{
  op_set, op_delete, SyncRequest, ReplicateCommand, HeartbeatCommand, written, sync_items,
  set_items, delete_items, heartbeat_items, sync_end_items, encode_sync_request,
  encode_replicate_command, encode_heartbeat_command, encode_sync_end,
}
use gocache.Replication.Decoder.{
  accepted, crashed, ok, panicked, read_sync_request, read_replicate_command,
  read_heartbeat_command, decode_sync_request, decode_replicate_command, decode_heartbeat_command,
  decode_sync_end, check_operation, read_payload,
}

-- The numbers are of 64 bits and the strings shorter than 2^63 bytes.
pub record IsCommand (c : ReplicateCommand) : Type 0 where
  pub seq_fits : Fits c.seq_num
  pub ttl_fits : Fits c.ttl
  pub key_fits : length c.key < 2 ^ 63
  pub value_fits : length c.value < 2 ^ 63

-- What arrives: a DELETE carries no value and no lifetime.
abbrev pub carried : ReplicateCommand → ReplicateCommand
carried c = ite (bytes_discrete c.operation op_set) c (record c { value = []; ttl = pos 0 })

program : Unit {0}
unfolding encode_sync_request encode_replicate_command encode_heartbeat_command encode_sync_end
    read_sync_request read_replicate_command read_heartbeat_command decode_sync_request
    decode_replicate_command decode_heartbeat_command decode_sync_end bytes_discrete
program = tt

set_operation : (s : Bytes) → s ≡ op_set → check_operation (str s) ≡ accepted s
unfolding check_operation
set_operation s e = rw (if_pos _ e) refl

set_payload :
    (c : ReplicateCommand)
    → c.operation ≡ op_set
    → read_payload c.operation (set_items c) ≡ accepted (c.value, c.ttl)
unfolding read_payload
set_payload c e = rw (if_pos _ e) refl

set_read :
    (c : ReplicateCommand)
    → c.operation ≡ op_set
    → read_replicate_command (arr (set_items c)) ≡ accepted (carried c)
unfolding program
set_read c e =
    rw
      (
        set_operation c.operation e,
        set_payload c e,
        if_pos (bytes_discrete c.operation op_set) e c (record c { value = []; ttl = pos 0 }),
      )
      refl

delete_differs : (s : Bytes) → s ≡ op_delete → s ≢ op_set
delete_differs s e d = cc (e, d)

delete_operation : (s : Bytes) → s ≡ op_delete → check_operation (str s) ≡ accepted s
unfolding check_operation
delete_operation s e = rw (if_neg _ (delete_differs s e), if_pos _ e) refl

delete_payload :
    (c : ReplicateCommand)
    → c.operation ≡ op_delete
    → read_payload c.operation (delete_items c) ≡ accepted ([], pos 0)
unfolding read_payload
delete_payload c e = rw (if_neg _ (delete_differs c.operation e)) refl

delete_read :
    (c : ReplicateCommand)
    → c.operation ≡ op_delete
    → read_replicate_command (arr (delete_items c)) ≡ accepted (carried c)
unfolding program
delete_read c e =
    rw
      (
        delete_operation c.operation e,
        delete_payload c e,
        if_neg (bytes_discrete c.operation op_set) (delete_differs c.operation e) c
            (record c { value = []; ttl = pos 0 }),
      )
      refl

-- The items that the encoder writes for a command.
abbrev pub items_of : ReplicateCommand → Items
items_of c = ite (bytes_discrete c.operation op_set) (set_items c) (delete_items c)

-- The encoder does not panic, and Parse reads back the items.
pub parse-encode_replicate_command :
    (c : ReplicateCommand)
    → IsCommand c
    → (c.operation ≡ op_set) ⊎ (c.operation ≡ op_delete)
    → (bytes : Bytes) × (encode_replicate_command (some c) ≡ done (written bytes))
      × ((f : ℕ) (rest : Bytes)
          → parse (suc (suc f)) (bytes ++ rest) ≡ good (arr (items_of c)) rest)
unfolding encode_replicate_command
parse-encode_replicate_command c h (inl e) =
    let (bytes, ran, back) =
      parse-encode_array (set_items c)
        (
          omega arith,
          (h.seq_fits, (rw e (omega arith), (h.key_fits, (h.value_fits, (h.ttl_fits, tt))))),
        )
        (omega arith) in
    (bytes, rw (if_pos _ e, ran) refl, λ f rest. rw (if_pos _ e) (back f rest))
parse-encode_replicate_command c h (inr e) =
    let (bytes, ran, back) =
      parse-encode_array (delete_items c)
        (omega arith, (h.seq_fits, (rw e (omega arith), (h.key_fits, tt)))) (omega arith) in
    (
      bytes,
      rw (if_neg _ (delete_differs c.operation e), if_pos _ e, ran) refl,
      λ f rest. rw (if_neg _ (delete_differs c.operation e)) (back f rest),
    )

items_read :
    (c : ReplicateCommand)
    → (c.operation ≡ op_set) ⊎ (c.operation ≡ op_delete)
    → read_replicate_command (arr (items_of c)) ≡ accepted (carried c)
items_read c (inl e) =
    ap (λ (vs : Items). read_replicate_command (arr vs))
      (if_pos (bytes_discrete c.operation op_set) e (set_items c) (delete_items c))
    ∙ set_read c e
items_read c (inr e) =
    ap (λ (vs : Items). read_replicate_command (arr vs))
      (if_neg (bytes_discrete c.operation op_set) (delete_differs c.operation e) (set_items c)
        (delete_items c))
    ∙ delete_read c e

-- For a SET or DELETE command with numbers of 64 bits and a key and a value shorter than 2^63
-- bytes, the encoder does not panic and the decoder reads the command back from its output and
-- leaves what follows; a DELETE arrives without its value and lifetime.
pub decode_replicate_command-encode_replicate_command :
    (c : ReplicateCommand)
    → IsCommand c
    → (c.operation ≡ op_set) ⊎ (c.operation ≡ op_delete)
    → (bytes : Bytes) × (encode_replicate_command (some c) ≡ done (written bytes))
      × ((f : ℕ) (rest : Bytes)
          → decode_replicate_command (suc (suc f)) (bytes ++ rest) ≡ ok (carried c) rest)
unfolding decode_replicate_command
decode_replicate_command-encode_replicate_command c h operation =
    let (bytes, ran, back) = parse-encode_replicate_command c h operation in
    (bytes, ran, λ f rest. rw (back f rest, items_read c operation) refl)

-- A sync request, a heartbeat and the end of a sync, with numbers of 64 bits and names shorter than
-- 2^63 bytes, are read back as they were sent.
pub decode_sync_request-encode_sync_request :
    (r : SyncRequest) (h : HeartbeatCommand) (seq : ℤ)
    → Fits r.last_seq_num
    → length r.follower_id < 2 ^ 63
    → Fits h.seq_num
    → length h.node_id < 2 ^ 63
    → Fits seq
    → ((bytes : Bytes) × (encode_sync_request (some r) ≡ done (written bytes))
        × ((f : ℕ) (rest : Bytes) → decode_sync_request (suc (suc f)) (bytes ++ rest) ≡ ok r rest))
      × ((bytes : Bytes) × (encode_heartbeat_command (some h) ≡ done (written bytes))
          × ((f : ℕ) (rest : Bytes)
              → decode_heartbeat_command (suc (suc f)) (bytes ++ rest) ≡ ok h rest))
      × ((bytes : Bytes) × (encode_sync_end seq ≡ done bytes)
          × ((f : ℕ) (rest : Bytes)
              → (vs : Items) × (parse (suc (suc f)) (bytes ++ rest) ≡ good (arr vs) rest)
                × (decode_sync_end vs ≡ some seq)))
unfolding program
decode_sync_request-encode_sync_request r h seq rn rs hn hs fits =
    let (bytes, ran, back) =
      parse-encode_array (sync_items r) (omega arith, (rs, (rn, tt))) (omega arith) in
    let (bytes1, ran1, back1) =
      parse-encode_array (heartbeat_items h) (omega arith, (hn, (hs, tt))) (omega arith) in
    let (bytes2, ran2, back2) =
      parse-encode_array (sync_end_items seq) (omega arith, (fits, tt)) (omega arith) in
    (
      (bytes, rw ran refl, λ f rest. rw (back f rest) refl),
      (bytes1, rw ran1 refl, λ f rest. rw (back1 f rest) refl),
      (bytes2, ran2, λ f rest. (sync_end_items seq, back2 f rest, refl)),
    )

abbrev pub first_items : ℕ → Items → Items
first_items zero vs = nil
first_items (suc n) nil = nil
first_items (suc n) (cons v vs) = cons v (first_items n vs)

AllSendable-first_items : (n : ℕ) (vs : Items) → AllSendable vs → AllSendable (first_items n vs)
AllSendable-first_items zero vs h = tt
AllSendable-first_items (suc n) nil h = tt
AllSendable-first_items (suc n) (cons v vs) h = (h.0, AllSendable-first_items n vs h.1)

count-first_items : (n : ℕ) (vs : Items) → count (first_items n vs) ≤ n
count-first_items zero vs = omega arith
count-first_items (suc n) nil = omega arith
count-first_items (suc n) (cons v vs) = omega (arith, count-first_items n vs)

cut_read :
    (n : ℕ) (c : ReplicateCommand)
    → n < 4
    → c.operation ≡ op_set
    → read_replicate_command (arr (first_items n (set_items c))) ≡ crashed
unfolding program
cut_read zero c h e = refl
cut_read (suc zero) c h e = refl
cut_read (suc (suc zero)) c h e = refl
cut_read (suc (suc (suc zero))) c h e = rw (set_operation c.operation e) refl
cut_read (suc (suc (suc (suc n)))) c h e = absurd (omega arith)

-- For a SET command with numbers of 64 bits and a key and a value shorter than 2^63 bytes,
-- DecodeReplicateCommand panics on the array of its first zero to three elements, whatever
-- follows.
pub decode_replicate_command-panicked :
    (n : ℕ) (c : ReplicateCommand)
    → n < 4
    → IsCommand c
    → c.operation ≡ op_set
    → (bytes : Bytes) × (encode_array (first_items n (set_items c)) ≡ done bytes)
      × ((f : ℕ) (rest : Bytes) → decode_replicate_command (suc (suc f)) (bytes ++ rest) ≡ panicked)
unfolding decode_replicate_command
decode_replicate_command-panicked n c few h e =
    let sendable : AllSendable (set_items c) = (
      omega arith,
      (h.seq_fits, (rw e (omega arith), (h.key_fits, (h.value_fits, (h.ttl_fits, tt))))),
    ) in
    let (bytes, ran, back) =
      parse-encode_array (first_items n (set_items c))
        (AllSendable-first_items n (set_items c) sendable)
        (omega (arith, count-first_items n (set_items c))) in
    (bytes, ran, λ f rest. rw (back f rest, cut_read n c few e) refl)
