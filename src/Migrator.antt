-- ===== src/Migrator.antt =====
-- internal/cluster/migrator.go: the moves of keys when a node joins or leaves. The rounds of a
-- migration run one after the other, under its lock.
pub mod Transfer
pub mod Laws
mod Tests
use gocache.Prelude.{
  ℕ, suc, Bool, true, false, Option, none, some, List, [], ◌∷◌, Outcome, done, ◌>>=◌,
}
use gocache.Prelude.Maps.{Bytes, put, bytes_key}
use gocache.Resp.{Value, Items}
use gocache.Cache.{Cache, get_value, delete_key}
use gocache.Cache.Enumeration.{get_keys_in_hash_range}
use gocache.Ring.{HashRing, add_shard, remove_shard, get_node_address, set_node_address}
use gocache.Ring.Migration.{MigrationTask, calculate_migrations, calculate_migrations_for_removal}
use gocache.Migrator.Transfer.{transfer_keys_batch, verify_transfer}

pub record Migrator : Type 0 where
  pub cache : Cache
  pub ring : HashRing

pub data MigrationError : Type 0 where
  transfer_failed verification_failed : MigrationError

abbrev pub add_value : Bytes → Option Bytes → List (Bytes × Bytes) → List (Bytes × Bytes)
add_value key none values = values
add_value key (some value) values = put key value values

-- The loop of Get over the keys; `clock j` is the time of key `j`.
unfoldable pub collect_values :
    (ℕ → ℕ) → ℕ → List Bytes → List (Bytes × Bytes) → Cache → Outcome (List (Bytes × Bytes) × Cache)
collect_values clock j [] values c = done (values, c)
collect_values clock j (key ∷ keys) values c = do
  (value, c1) ← get_value key (clock j) c
  collect_values clock (suc j) keys (add_value key value values) c1

unfoldable pub delete_keys : List Bytes → Cache → Outcome Cache
delete_keys [] c = done c
delete_keys (key ∷ keys) c = do c1 ← delete_key key c; delete_keys keys c1

-- The nodes at the other end, as in Transfer.
module _ {Peers : Type 0} (dial : Bytes → Peers → Bool)
    (ask : Bytes → Items → Peers → Option Value × Peers) where
  -- A task with the keys of its range: transfer, verification, and only then the deletions.
  abbrev pub delete_after :
      List Bytes → Bool × Peers → Cache → Outcome ((Option MigrationError × Cache) × Peers)
  delete_after keys (true, p) c = done ((some verification_failed, c), p)
  delete_after keys (false, p) c = do c1 ← delete_keys keys c; done ((none, c1), p)

  abbrev pub verify_after :
      Bytes → List Bytes → Bool × Peers → Cache → Outcome ((Option MigrationError × Cache) × Peers)
  verify_after addr keys (true, p) c = done ((some transfer_failed, c), p)
  verify_after addr keys (false, p) c = delete_after keys (verify_transfer dial ask addr keys p) c

  unfoldable pub move_keys :
      (ℕ → ℕ)
      → Bytes
      → List Bytes
      → Cache
      → Peers
      → Outcome ((Option MigrationError × Cache) × Peers)
  unfolding collect_values delete_keys
  move_keys clock addr [] c p = done ((none, c), p)
  move_keys clock addr (key ∷ keys) c p = do
    (values, c1) ← collect_values clock 0 (key ∷ keys) [] c
    verify_after addr (key ∷ keys) (transfer_keys_batch dial ask addr (key ∷ keys) values 100 p) c1

  module _ (hash : Bytes → ℕ) where
    -- The loop over the tasks; `address` is where the keys of a task go.
    unfoldable pub run_tasks :
        (ℕ → ℕ → ℕ)
        → ℕ
        → (MigrationTask → Bytes)
        → List MigrationTask
        → Cache
        → Peers
        → Outcome ((Option MigrationError × Cache) × Peers)
    unfolding move_keys
    run_tasks clock i address [] c p = done ((none, c), p)
    run_tasks clock i address (task ∷ tasks) c p = do
      keys ← get_keys_in_hash_range hash task.start_hash task.end_hash c
      ((failed, c1), p1) ← move_keys (clock i) (address task) keys c p
      elim failed [
        | some e ↦ done ((some e, c1), p1)
        | none ↦ run_tasks clock (suc i) address tasks c1 p1
      ]

    unfoldable pub migrate_to_new_node :
        (ℕ → ℕ → ℕ)
        → Bytes
        → Bytes
        → Migrator
        → Peers
        → Outcome ((Option MigrationError × Migrator) × Peers)
    unfolding run_tasks
    migrate_to_new_node clock node addr m p = do
      tasks ← calculate_migrations hash node m.ring
      let ring = set_node_address node addr (add_shard hash node m.ring)
      ((failed, c), p1) ← run_tasks clock 0 (λ _. addr) tasks m.cache p
      done ((failed, record { cache = c; ring = ring }), p1)

    -- Without tasks the address of the node is emptied too.
    abbrev pub leave_ring : Bytes → List MigrationTask → HashRing → HashRing
    leave_ring node [] r = set_node_address node [] (remove_shard hash node r)
    leave_ring node (task ∷ tasks) r = remove_shard hash node r

    abbrev pub ring_after : Bytes → List MigrationTask → Option MigrationError → HashRing → HashRing
    ring_after node tasks none r = leave_ring node tasks r
    ring_after node tasks (some e) r = r

    unfoldable pub migrate_from_leaving_node :
        (ℕ → ℕ → ℕ)
        → Bytes
        → Migrator
        → Peers
        → Outcome ((Option MigrationError × Migrator) × Peers)
    unfolding run_tasks
    migrate_from_leaving_node clock node m p = do
      tasks ← calculate_migrations_for_removal hash node m.ring
      ((failed, c), p1) ←
          run_tasks clock 0 (λ task. get_node_address task.to_node m.ring) tasks m.cache p
      done ((failed, record { cache = c; ring = ring_after node tasks failed m.ring }), p1)
