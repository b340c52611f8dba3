-- ===== src/Server/Passing.antt =====
-- internal/server/handler.go: what a write leaves of a session, in the log and with the followers.
use mathlib.Core.List.{append_assoc, append-nil}
use gocache.Prelude.{ℕ, suc, ◌≡◌, refl, sym, ap, ◌∙◌, Bool, false, List, [], ◌∷◌, ◌++◌, done}
use gocache.Prelude.Int.{ℤ, pos}
use gocache.Prelude.Maps.{Bytes}
use gocache.Prelude.Duration.{seconds}
use gocache.Cache.{Cache}
use gocache.Cache.Writes.{Write, set_write, delete_write, IsWrite}
use gocache.Config.{same_bytes, follower_role}
use gocache.Persistence.Log.{IsLog, IsLog-append}
use gocache.Server.State.{is_cluster_mode}
use gocache.Server.Session.{Session}
use gocache.Server.Handlers.{finish_write}
use gocache.Server.Commands.{Command, plain_set, set_ex, get_one, del_one, ping}
use gocache.Server.Transactions.{HasRoom, replicate_all, send_on-ends}

-- Neither in subscriber mode, nor in a transaction, nor a follower, nor in a cluster.
pub record Standalone (s : Session) : Type 0 where
  pub no_subscriber : s.state.subscriber_mode ≡ false
  pub no_transaction : s.state.in_transaction ≡ false
  pub no_follower : same_bytes s.node.role follower_role ≡ false
  pub no_cluster : is_cluster_mode s.node ≡ false

-- The writes that a command is sent on as, with the whole seconds of its lifetime.
abbrev pub logged_write : (ℤ → ℤ) → Command → List Write
logged_write whole (plain_set key value) = set_write key value (whole (pos 0)) ∷ []
logged_write whole (set_ex key value z) = set_write key value (whole (seconds z)) ∷ []
logged_write whole (get_one key) = []
logged_write whole (del_one key) = delete_write key ∷ []
logged_write whole ping = []

-- From one session to the other exactly the given writes were sent to the followers and appended to
-- the log, and the rest of what a command relies on is as it was.
pub record Passed (n : ℕ) (ws : List Write) (s s' : Session) : Type 0 where
  pub standing : Standalone s'
  pub same_pub_sub : s'.pub_sub ≡ s.pub_sub
  pub same_snapshot : s'.aof.snapshot_file ≡ s.aof.snapshot_file
  pub sent :
      (us : List Write) → replicate_all (ws ++ us) s.node.leader ≡ replicate_all us s'.node.leader
  pub room : HasRoom s'.node.leader n
  pub bytes : Bytes
  pub file : s'.aof.file ≡ s.aof.file ++ bytes
  pub is_log : IsLog ws bytes

pub Passed-append :
    (n k : ℕ) (ws us : List Write) (s s1 s2 : Session)
    → Passed n ws s s1
    → Passed k us s1 s2
    → Passed k (ws ++ us) s s2
Passed-append n k ws us s s1 s2 p q = record {
  standing = q.standing;
  same_pub_sub = q.same_pub_sub ∙ p.same_pub_sub;
  same_snapshot = q.same_snapshot ∙ p.same_snapshot;
  sent = λ vs.
      ap (λ ls. replicate_all ls s.node.leader) (append_assoc ws us vs)
      ∙ p.sent (us ++ vs)
      ∙ q.sent vs;
  room = q.room;
  bytes = p.bytes ++ q.bytes;
  file = q.file ∙ ap (λ (f : Bytes). f ++ q.bytes) p.file ∙ append_assoc s.aof.file p.bytes q.bytes;
  is_log = IsLog-append ws us p.bytes q.bytes p.is_log q.is_log;
}

-- A session in which only the cache and the output are new.
pub Passed-same :
    (n : ℕ) (s : Session) (c : Cache) (out : Bytes)
    → Standalone s
    → HasRoom s.node.leader n
    → Passed n [] s (record s { cache = c; out = out })
Passed-same n s c out h room = record {
  standing = record {
    no_subscriber = h.no_subscriber;
    no_transaction = h.no_transaction;
    no_follower = h.no_follower;
    no_cluster = h.no_cluster;
  };
  same_pub_sub = refl;
  same_snapshot = refl;
  sent = λ us. refl;
  room = room;
  bytes = [];
  file = sym (append-nil s.aof.file);
  is_log = refl;
}

module _ (exceeds : ℕ → ℕ → ℤ → Bool) where
  pub finish_write-Passed :
      (n : ℕ) (w : Write) (answer : Bytes) (c : Cache) (s : Session)
      → Standalone s
      → HasRoom s.node.leader (suc n)
      → IsWrite w
      → (s' : Session) × (finish_write exceeds w answer c s ≡ done s')
        × (s'.cache ≡ c)
        × (s'.out ≡ s.out ++ answer)
        × Passed n (w ∷ []) s s'
  finish_write-Passed n w answer c s h room fits =
      let (leader, a, bytes, ran, _, file, snapshot, is_log, room', all) =
        send_on-ends exceeds n w s.node.leader s.aof room fits in
      (
        record s {
          cache = c;
          aof = a;
          node = record s.node { leader = leader };
          out = s.out ++ answer;
        },
        rw ran refl,
        refl,
        refl,
        record {
          standing = record {
            no_subscriber = h.no_subscriber;
            no_transaction = h.no_transaction;
            no_follower = h.no_follower;
            no_cluster = h.no_cluster;
          };
          same_pub_sub = refl;
          same_snapshot = snapshot;
          sent = all;
          room = room';
          bytes = bytes;
          file = file;
          is_log = is_log;
        },
      )
