-- ===== src/Server/Tests.antt =====
-- The commands of a client at concrete sessions.
use gocache.Prelude.{
  ℕ, suc, ◌≡◌, refl, Bool, true, false, none, some, List, [], ◌∷◌, ◌++◌, map, arith, done, blocked,
  length,
}
use gocache.Prelude.Int.{ℤ, pos}
use gocache.Prelude.Maps.{Bytes, bytes_discrete}
use gocache.Prelude.Decimal.{parse_int}
use gocache.Prelude.Duration.{whole_seconds, whole_seconds-IsWhole}
use gocache.Resp.{Items, str, nil, cons}
use gocache.Resp.Encoder.{encode_error}
use gocache.Cache.{new_cache}
use gocache.Cache.Steps.{Refines, Becomes}
use gocache.Cache.Runs.{Refines-new}
use gocache.Cache.Writes.{set_write, spec_writes}
use gocache.PubSub.{new_pub_sub}
use gocache.PubSub.Runs.{new_pub_sub-IsConsistent}
use gocache.Config.{leader_role}
use gocache.Persistence.{Aof, run_launched_rewrite, new_aof, sync_always, set_word, del_word}
use gocache.Persistence.Log.{IsLog}
use gocache.Persistence.Recovery.{recover_aof}
use gocache.Replication.Leader.{new_leader}
use gocache.Server.State.{new_node_state}
use gocache.Server.Session.{
  Session, new_connection_state, cleared, arg, can_queue_command, validation_error,
}
use gocache.Server.Exec.{out_of_range, array_reply, replicate_if, handle_exec}
use gocache.Server.Queue.{HasValidQueue, HoldsHandled}
use gocache.Server.Dispatch.{handle_command-HoldsHandled}
use gocache.Server.Texts.{dbsize_word, get_word, ping_word}
use gocache.Server.Connection.{closed, handle_command, handle_connection}
use gocache.Server.Commands.{
  Command, set_ex, get_one, del_one, ping, plain_set, command_items, spec_commands,
}
use gocache.Server.Transactions.{writes_of, replicate_all, handle_exec-spec_commands}
use gocache.Server.Aborts.{handle_exec-blocked, handle_exec-refused_set}
use gocache.Server.Logs.{kept_writes, recover_aof-handle_connection}
use gocache.Server.Passing.{Standalone}
use gocache.Server.Runs.{encode_requests, Answers, handle_connection-spec_commands}

abbrev a : Bytes
a = b'a' ∷ []

abbrev never : ℕ → ℕ → ℤ → Bool
never size baseline factor = false

abbrev start : ℕ → ℕ
start i = 0

abbrev toy_hash : Bytes → ℕ
toy_hash key = 0

-- A leader without followers that has just been started, and a client of it.
abbrev session : Session
session = record {
  cache = new_cache 2;
  aof = new_aof none none sync_always (pos 2);
  node = new_node_state leader_role (some new_leader) [];
  pub_sub = new_pub_sub;
  conn = 1;
  state = new_connection_state;
  out = [];
}

session-Standalone : Standalone session
unfolding bytes_discrete
session-Standalone = record {
  no_subscriber = refl;
  no_transaction = refl;
  no_follower = refl;
  no_cluster = refl;
}

abbrev commands : List Command
commands = set_ex a a (pos 5) ∷ get_one a ∷ del_one a ∷ ping ∷ []

handle_connection-spec_commands_example :
    (input : Bytes) × (encode_requests commands ≡ done input)
    × Answers never whole_seconds toy_hash
        (handle_connection never whole_seconds toy_hash
          (λ i j. 0)
          (suc (length input))
          0
          input
          session)
        (λ i j. 0)
        0
        commands
        session
        []
handle_connection-spec_commands_example =
    handle_connection-spec_commands never whole_seconds toy_hash (λ i j. 0) commands session []
      whole_seconds-IsWhole
      ((omega arith, omega arith, omega arith), (omega arith, (omega arith, (tt, tt))))
      session-Standalone new_pub_sub-IsConsistent (omega arith) refl (Refines-new 2 (omega arith))

-- The first write sets the baseline, and the second one launches a rewrite.
abbrev always : ℕ → ℕ → ℤ → Bool
always size baseline factor = true

recover_aof-handle_connection_example :
    (input : Bytes) × (s' : Session) × (a' : Aof) × (encode_requests commands ≡ done input)
    × (handle_connection always whole_seconds toy_hash
          (λ i j. 0)
          (suc (length input))
          0
          input
          session
        ≡ done (closed s'))
    × Refines s'.cache (spec_commands 2 start 0 commands []).1
    × (run_launched_rewrite whole_seconds start s'.cache s'.aof ≡ done a')
    × IsLog (kept_writes whole_seconds start [] commands s') a'.file
    × Becomes
        (recover_aof start start a' (new_cache 3))
        (new_cache 3)
        (spec_writes 3 start 0 (kept_writes whole_seconds start [] commands s') [])
recover_aof-handle_connection_example =
    recover_aof-handle_connection always whole_seconds toy_hash (λ i j. 0) start start start []
      commands session (new_cache 3) [] [] whole_seconds-IsWhole tt
      ((omega arith, omega arith, omega arith), (omega arith, (omega arith, (tt, tt)))) tt
      session-Standalone new_pub_sub-IsConsistent (omega arith) refl (Refines-new 2 (omega arith))
      refl refl refl (Refines-new 3 (omega arith))

-- The same client in a transaction.
abbrev in_transaction : List Items → Session
in_transaction queue = record session {
  state = record new_connection_state { in_transaction = true; command_queue = queue };
}

handle_exec-spec_commands_example :
    (s' : Session) × (bytes : Bytes) × (handle_exec never start
        (in_transaction (map command_items commands))
      ≡ done s')
    × Refines s'.cache (spec_commands 2 start 0 commands []).1
    × (s'.cache.held ≡ false)
    × (s'.out ≡ [] ++ array_reply 4 (spec_commands 2 start 0 commands []).0)
    × (replicate_all (writes_of commands) (some new_leader) ≡ done s'.node.leader)
    × (s'.aof.file ≡ [] ++ bytes)
    × IsLog (writes_of commands) bytes
    × (s'.state ≡ cleared (in_transaction (map command_items commands)).state)
handle_exec-spec_commands_example =
    handle_exec-spec_commands never start commands (in_transaction (map command_items commands)) []
      refl refl refl
      ((omega arith, omega arith, omega arith), (omega arith, (omega arith, (tt, tt))))
      (omega arith) refl (Refines-new 2 (omega arith))

abbrev counting : List Items
counting =
    map command_items (plain_set a a ∷ [])
    ++ (cons (str dbsize_word) nil ∷ map command_items (get_one a ∷ []))

handle_exec-blocked_example : handle_exec never start (in_transaction counting) ≡ blocked
handle_exec-blocked_example =
    handle_exec-blocked never start (plain_set a a ∷ []) (map command_items (get_one a ∷ []))
      (in_transaction counting) [] refl refl refl ((omega arith, omega arith), tt) refl
      (Refines-new 2 (omega arith))

commands_queued : HasValidQueue (in_transaction (map command_items commands))
unfolding can_queue_command validation_error arg bytes_discrete
commands_queued = (
  (set_word, refl, refl, refl),
  (
    (get_word, refl, refl, refl),
    ((del_word, refl, refl, refl), ((ping_word, refl, refl, refl), tt)),
  ),
)

-- SET a a a
abbrev bad_set : Items
bad_set = cons (str set_word) (cons (str a) (cons (str a) (cons (str a) nil)))

handle_exec-refused_set_example :
    (s' : Session) × (bytes : Bytes) × (handle_exec never start (in_transaction (bad_set ∷ []))
      ≡ done s')
    × Refines s'.cache []
    × (s'.out ≡ [] ++ array_reply 1 (encode_error out_of_range ++ []))
    × (replicate_if (set_write a a (pos 0)) (some new_leader) ≡ done s'.node.leader)
    × (s'.aof.file ≡ [] ++ bytes)
    × IsLog (set_write a a (pos 0) ∷ []) bytes
unfolding parse_int
handle_exec-refused_set_example =
    handle_exec-refused_set never start a a a (in_transaction (bad_set ∷ [])) [] refl refl refl refl
      (omega arith, omega arith) (omega arith) refl (Refines-new 2 (omega arith))

handle_command-HoldsHandled_example : HoldsHandled (
    handle_command never whole_seconds toy_hash start
      (command_items (plain_set a a))
      (in_transaction (map command_items commands)))
handle_command-HoldsHandled_example =
    handle_command-HoldsHandled never whole_seconds toy_hash start (command_items (plain_set a a))
      (in_transaction (map command_items commands)) commands_queued
