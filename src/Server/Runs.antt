-- ===== src/Server/Runs.antt =====
-- internal/server/handler.go: a connection from its first byte to its last.
use mathlib.Core.Path.{subst}
use mathlib.Core.List.{append_assoc, append-nil}
use gocache.Prelude.{
  ℕ, zero, suc, ◌<◌, ◌≡◌, refl, sym, ap, ◌∙◌, Bool, false, List, [], ◌∷◌, ◌++◌, arith, All, length,
  Outcome, done, ◌>>=◌,
}
use gocache.Prelude.Int.{ℤ}
use gocache.Prelude.Maps.{Bytes}
use gocache.Prelude.Decimal.{length-format_int}
use gocache.Prelude.Duration.{IsWhole}
use gocache.Resp.{Items, arr, good, parse}
use gocache.Resp.Encoder.{encode_array}
use gocache.Resp.RoundTrip.{parse-encode_array}
use gocache.Resp.Heads.{Reads, parse-head}
use gocache.Cache.Spec.{Entry}
use gocache.Cache.Steps.{Refines}
use gocache.Cache.Writes.{Write}
use gocache.PubSub.Laws.{IsConsistent}
use gocache.PubSub.Leaving.{remove_connection-IsConsistent}
use gocache.Persistence.Log.{IsLog, IsLog-append}
use gocache.Replication.Writes.{replicate_writes}
use gocache.Server.Session.{Session}
use gocache.Server.Connection.{Served, closed, handled, handle_command, handle_connection}
use gocache.Server.Commands.{
  Command, plain_set, set_ex, get_one, del_one, ping, command_items, IsCommand, spec_command,
  spec_commands,
}
use gocache.Server.Transactions.{HasRoom, replicate_all, nothing_sent}
use gocache.Server.Passing.{Standalone, logged_write}
use gocache.Server.Serving.{handle_command-Serves}

-- What a client sends for the commands.
unfoldable pub encode_requests : List Command → Outcome Bytes
encode_requests [] = done []
encode_requests (c ∷ cs) = do
  first ← encode_array (command_items c)
  rest ← encode_requests cs
  done (first ++ rest)

encode_request-Reads :
    (c : Command)
    → IsCommand c
    → (bytes : Bytes) × (encode_array (command_items c) ≡ done bytes)
      × Reads bytes (command_items c)
encode_request-Reads (plain_set key value) h =
    parse-encode_array (command_items (plain_set key value)) (omega arith, (h.0, (h.1, tt)))
      (omega arith)
encode_request-Reads (set_ex key value z) h =
    parse-encode_array (command_items (set_ex key value z))
      (omega arith, (h.0, (h.1, (omega arith, (length-format_int z h.2, tt))))) (omega arith)
encode_request-Reads (get_one key) h =
    parse-encode_array (command_items (get_one key)) (omega arith, (h, tt)) (omega arith)
encode_request-Reads (del_one key) h =
    parse-encode_array (command_items (del_one key)) (omega arith, (h, tt)) (omega arith)
encode_request-Reads ping h =
    parse-encode_array (command_items ping) (omega arith, tt) (omega arith)

-- The writes that the commands are sent on as.
abbrev pub logged_writes : (ℤ → ℤ) → List Command → List Write
logged_writes whole [] = []
logged_writes whole (c ∷ cs) = logged_write whole c ++ logged_writes whole cs

module _ (exceeds : ℕ → ℕ → ℤ → Bool) (whole : ℤ → ℤ) (hash : Bytes → ℕ) where
  handle_connection-good :
      (clock : ℕ → ℕ → ℕ) (n i : ℕ) (input rest : Bytes) (vs : Items) (s s' : Session)
      → parse (suc (length input)) input ≡ good (arr vs) rest
      → handle_command exceeds whole hash (clock i) vs s ≡ done (handled s')
      → handle_connection exceeds whole hash clock (suc n) i input s
        ≡ handle_connection exceeds whole hash clock n (suc i) rest s'
  unfolding handle_connection
  handle_connection-good clock n i input rest vs s s' read ran =
      rw (read, ran, handle_connection) refl

  handle_connection_eof :
      (clock : ℕ → ℕ → ℕ) (n i : ℕ) (s : Session)
      → IsConsistent s.pub_sub
      → (s' : Session) × (handle_connection exceeds whole hash clock (suc n) i [] s
          ≡ done (closed s'))
        × (s'.cache ≡ s.cache)
        × (s'.out ≡ s.out)
        × (s'.aof ≡ s.aof)
        × (s'.node ≡ s.node)
  unfolding handle_connection parse
  handle_connection_eof clock n i s h =
      let (ps, ran, _, _, _) = remove_connection-IsConsistent s.pub_sub s.conn h in
      (record s { pub_sub = ps }, rw ran refl, refl, refl, refl, refl)

  -- How a session ends that answered the commands.
  abbrev pub Answers :
      Outcome Served → (ℕ → ℕ → ℕ) → ℕ → List Command → Session → List Entry → Type 0
  Answers o clock i cs s es =
      (s' : Session) × (bytes : Bytes) × (o ≡ done (closed s'))
      × Refines s'.cache (spec_commands s.cache.max_size (λ j. clock j 0) i cs es).1
      × (s'.cache.held ≡ false)
      × (s'.out ≡ s.out ++ (spec_commands s.cache.max_size (λ j. clock j 0) i cs es).0)
      × (replicate_all (logged_writes whole cs) s.node.leader ≡ done s'.node.leader)
      × (s'.aof.file ≡ s.aof.file ++ bytes)
      × (s'.aof.snapshot_file ≡ s.aof.snapshot_file)
      × IsLog (logged_writes whole cs) bytes

  -- The bytes are answered so in every session that stands alone or leads.
  abbrev AnswersAll : Bytes → List Command → Type 0
  AnswersAll input cs =
      (clock : ℕ → ℕ → ℕ) (n i : ℕ) (s : Session) (es : List Entry)
      → length input < n
      → Standalone s
      → IsConsistent s.pub_sub
      → HasRoom s.node.leader (length cs)
      → s.cache.held ≡ false
      → Refines s.cache es
      → Answers (handle_connection exceeds whole hash clock n i input s) clock i cs s es

  handle_connection-Answers :
      (clock : ℕ → ℕ → ℕ) (n i : ℕ) (c : Command) (cs : List Command) (first rest : Bytes)
      (s : Session) (es : List Entry)
      → IsWhole whole
      → IsCommand c
      → Reads first (command_items c)
      → AnswersAll rest cs
      → length (first ++ rest) < suc n
      → Standalone s
      → IsConsistent s.pub_sub
      → HasRoom s.node.leader (suc (length cs))
      → s.cache.held ≡ false
      → Refines s.cache es
      → Answers
          (handle_connection exceeds whole hash clock (suc n) i (first ++ rest) s)
          clock
          i
          (c ∷ cs)
          s
          es
  unfolding spec_commands
  handle_connection-Answers clock n i c cs first rest s es w h back all fuel alone consistent room
        free r =
      let (s1, ran1, r1, size1, lock1, out1, p) =
        handle_command-Serves exceeds whole hash (clock i) (length cs) c s es w h alone room free
          r in
      let (read, shorter) = parse-head (command_items c) first rest back in
      let es1 = (spec_command s.cache.max_size (clock i 0) c es).1 in
      let (s2, bytes, ran2, r2, lock2, out2, sent, file, snapshot, is_log) =
        all clock n (suc i) s1 es1 (omega (arith, fuel, shorter)) p.standing
          (subst IsConsistent (sym p.same_pub_sub) consistent) p.room lock1 r1 in
      let later = λ (k : ℕ). spec_commands k (λ j. clock j 0) (suc i) cs es1 in
      (
        s2,
        p.bytes ++ bytes,
        handle_connection-good clock n i (first ++ rest) rest (command_items c) s s1 read ran1
            ∙ ran2,
        subst (λ k. Refines s2.cache (later k).1) size1 r2,
        lock2,
        out2
            ∙ ap (λ k. s1.out ++ (later k).0) size1
            ∙ ap (λ (o : Bytes). o ++ (later s.cache.max_size).0) out1
            ∙ append_assoc s.out (spec_command s.cache.max_size (clock i 0) c es).0
                (later s.cache.max_size).0,
        p.sent (logged_writes whole cs) ∙ sent,
        file ∙ ap (λ (f : Bytes). f ++ bytes) p.file ∙ append_assoc s.aof.file p.bytes bytes,
        snapshot ∙ p.same_snapshot,
        IsLog-append (logged_write whole c) (logged_writes whole cs) p.bytes bytes p.is_log is_log,
      )

  eof-Answers :
      (clock : ℕ → ℕ → ℕ) (n i : ℕ) (s : Session) (es : List Entry)
      → 0 < n
      → IsConsistent s.pub_sub
      → s.cache.held ≡ false
      → Refines s.cache es
      → Answers (handle_connection exceeds whole hash clock n i [] s) clock i [] s es
  unfolding spec_commands replicate_writes
  eof-Answers clock zero i s es fuel consistent free r = absurd (omega (arith, fuel))
  eof-Answers clock (suc n) i s es fuel consistent free r =
      let (s', ran, cache, out, aof, node) = handle_connection_eof clock n i s consistent in
      (
        s',
        [],
        ran,
        rw cache r,
        rw cache free,
        out ∙ sym (append-nil s.out),
        nothing_sent s.node.leader ∙ ap (λ k. done k.leader) (sym node),
        ap (λ k. k.file) aof ∙ sym (append-nil s.aof.file),
        ap (λ k. k.snapshot_file) aof,
        refl,
      )

  encode_requests-AnswersAll :
      (cs : List Command)
      → IsWhole whole
      → All IsCommand cs
      → (input : Bytes) × (encode_requests cs ≡ done input) × AnswersAll input cs
  unfolding encode_requests
  encode_requests-AnswersAll [] w h = (
    [],
    refl,
    λ clock n i s es fuel alone consistent room free r.
        eof-Answers clock n i s es (omega (arith, fuel)) consistent free r,
  )
  encode_requests-AnswersAll (c ∷ cs) w h =
      let (first, ran, back) = encode_request-Reads c h.0 in
      let (rest, ran', all) = encode_requests-AnswersAll cs w h.1 in
      (first ++ rest, rw (ran, ran') refl, answered first rest back all)
    where
      answered :
          (first rest : Bytes)
          → Reads first (command_items c)
          → AnswersAll rest cs
          → AnswersAll (first ++ rest) (c ∷ cs)
      answered first rest back all clock zero i s es fuel alone consistent room free r =
          absurd (omega (arith, fuel))
      answered first rest back all clock (suc n) i s es fuel alone consistent room free r =
          handle_connection-Answers clock n i c cs first rest s es w h.0 back all fuel alone
            consistent room free r

  -- For well-formed SET, GET, DEL and PING commands a client's bytes are encoded without a panic. On
  -- a node that is no follower and in no cluster, with a free cache that holds some entries, a
  -- consistent pub/sub manager, and a leader, if any, whose numbers do not run out, the connection
  -- answers the bytes to their end and is closed: the cache holds what the commands make of the
  -- entries one after the other and is free, the client gets their replies in order (DEL
  -- answers :1 for every key, also for one that is not there), the followers are sent and the log is
  -- given exactly the writes, with the whole seconds of the lifetimes.
  pub handle_connection-spec_commands :
      (clock : ℕ → ℕ → ℕ) (cs : List Command) (s : Session) (es : List Entry)
      → IsWhole whole
      → All IsCommand cs
      → Standalone s
      → IsConsistent s.pub_sub
      → HasRoom s.node.leader (length cs)
      → s.cache.held ≡ false
      → Refines s.cache es
      → (input : Bytes) × (encode_requests cs ≡ done input)
        × Answers
            (handle_connection exceeds whole hash clock (suc (length input)) 0 input s)
            clock
            0
            cs
            s
            es
  handle_connection-spec_commands clock cs s es w h alone consistent room free r =
      let (input, ran, all) = encode_requests-AnswersAll cs w h in
      (input, ran, all clock (suc (length input)) 0 s es (omega arith) alone consistent room free r)
