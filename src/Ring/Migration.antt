-- ===== src/Ring/Migration.antt =====
-- internal/cluster/migration.go: which keys move when a node joins or leaves.
use gocache.Prelude.{
  ℕ, suc, ◌+◌, ◌-◌, ◌%◌, ◌<◌, ◌≡◌, refl, Bool, List, [], ◌∷◌, ◌++◌, arith, length, ltb, ◌==◌,
  if◌then◌else◌, ite, Outcome, done, panic, ◌>>=◌,
}
use gocache.Prelude.Maps.{Bytes, get, nat_key, bytes_key, bytes_discrete}
use gocache.Cache.Enumeration.{hash_in_range}
use gocache.Ring.{HashRing, value_at, search_ge, or_empty, virtual_hashes, is_empty}

-- The key pattern is always "*".
pub record MigrationTask : Type 0 where
  pub from_node : Bytes
  pub to_node : Bytes
  pub start_hash : ℕ
  pub end_hash : ℕ

-- `xs[i]` with the bounds check of Go
unfoldable pub index : List ℕ → ℕ → Outcome ℕ
index xs i = if ltb i (length xs) then done (value_at xs i) else panic

-- The position before `idx` on the ring; `xs[len(xs)-1]` panics on an empty ring.
unfoldable pub previous : List ℕ → ℕ → Outcome ℕ
unfolding index
previous xs idx = index xs (if idx == 0 then length xs - 1 else idx - 1)

module _ (hash : Bytes → ℕ) where
  -- One round of CalculateMigrations.
  unfoldable pub task_for : Bytes → HashRing → ℕ → Outcome (List MigrationTask)
  unfolding previous
  task_for node r vhash = do
    let idx = search_ge r.hash_values vhash
    prev ← previous r.hash_values (if idx == length r.hash_values then 0 else idx)
    let prev_node = or_empty (get prev r.hash_to_shard)
    done (
        ite (bytes_discrete prev_node node) [] (
          record { from_node = prev_node; to_node = node; start_hash = prev; end_hash = vhash }
          ∷ []))

  unfoldable pub tasks_for : Bytes → HashRing → List ℕ → Outcome (List MigrationTask)
  unfolding task_for
  tasks_for node r [] = done []
  tasks_for node r (v ∷ vs) = do
    here ← task_for node r v
    rest ← tasks_for node r vs
    done (here ++ rest)

  unfoldable pub calculate_migrations : Bytes → HashRing → Outcome (List MigrationTask)
  unfolding tasks_for
  calculate_migrations node r = tasks_for node r (virtual_hashes hash node 0 r.virtual_nodes)

  -- One round of CalculateMigrationsForRemoval; the ring is not empty there.
  unfoldable pub removal_task : Bytes → HashRing → ℕ → Outcome (List MigrationTask)
  unfolding index previous
  removal_task node r vhash = do
    let idx = search_ge r.hash_values vhash
    next ← index r.hash_values ((idx + 1) % length r.hash_values)
    let next_node = or_empty (get next r.hash_to_shard)
    prev ← previous r.hash_values idx
    done (
        ite (bytes_discrete next_node node) [] (
          record { from_node = node; to_node = next_node; start_hash = prev; end_hash = vhash }
          ∷ []))

  unfoldable pub removal_tasks : Bytes → HashRing → List ℕ → Outcome (List MigrationTask)
  unfolding removal_task
  removal_tasks node r [] = done []
  removal_tasks node r (v ∷ vs) = do
    here ← removal_task node r v
    rest ← removal_tasks node r vs
    done (here ++ rest)

  unfoldable pub calculate_migrations_for_removal : Bytes → HashRing → Outcome (List MigrationTask)
  unfolding removal_tasks
  calculate_migrations_for_removal node r =
      if is_empty r.hash_values
      then done []
      else removal_tasks node r (virtual_hashes hash node 0 r.virtual_nodes)

  unfoldable pub key_in_range : Bytes → ℕ → ℕ → Bool
  unfolding hash_in_range
  key_in_range key start end = hash_in_range (hash key) start end

  -- On an empty ring with at least one virtual node for each shard, CalculateMigrations panics.
  pub calculate_migrations-panic :
      (node : Bytes) (r : HashRing)
      → r.hash_values ≡ []
      → 0 < r.virtual_nodes
      → calculate_migrations node r ≡ panic
  unfolding calculate_migrations virtual_hashes search_ge
  calculate_migrations-panic node r e pos =
      let n : r.virtual_nodes ≡ suc (r.virtual_nodes - 1) = omega arith in rw (n, e) refl
