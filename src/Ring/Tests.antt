-- ===== src/Ring/Tests.antt =====
-- The ring and its theorems at a small hash function: the sum of the bytes, modulo 64.
use gocache.Prelude.{
  ℕ, ◌+◌, ◌%◌, ◌≡◌, ◌≢◌, ◌⊎◌, refl, inl, inr, true, some, List, [], ◌∷◌, arith, length, done, panic,
  ℕ_discrete, Within, Absent,
}
use gocache.Prelude.Maps.{Bytes, get, put, nat_key, bytes_discrete}
use gocache.Prelude.Decimal.{format_nat, digits}
use gocache.Ring.{
  HashRing, new_hash_ring, ok, add_shard, get_shard, virtual_hashes, claim_all, sort_into,
  insert_sorted, search_ge, search_between, successor, is_empty,
}
use gocache.Ring.Search.{next_or, search_ge-first_ge, successor-next_or, first_ge}
use gocache.Ring.Owners.{IsRing, add_shard-IsRing, add_shard-moves}
use gocache.Ring.Migration.{
  MigrationTask, calculate_migrations, tasks_for, task_for, previous, index, key_in_range,
  calculate_migrations-panic,
}
use gocache.Ring.Ranges.{migrated_but_owned}

abbrev sum : Bytes → ℕ
sum [] = 0
sum (b ∷ bs) = b + sum bs

abbrev toy : Bytes → ℕ
toy k = sum k % 64

program : Unit {0}
unfolding add_shard get_shard virtual_hashes claim_all sort_into insert_sorted search_ge
    search_between successor is_empty get put bytes_discrete ℕ_discrete format_nat digits
    calculate_migrations tasks_for task_for previous index
program = tt

-- Two positions, of shard "a" at 62 (97 + 45 + 48 = 190) and at 63.
abbrev ring : HashRing
ring = record (new_hash_ring 2) {
  hash_values = 62 ∷ 63 ∷ [];
  hash_to_shard = (62, 97 ∷ []) ∷ (63, 97 ∷ []) ∷ [];
}

ring_built : add_shard toy (97 ∷ []) (new_hash_ring 2) ≡ ring
unfolding program
ring_built = refl

ring_owned : (h : ℕ) → Within h ring.hash_values → (s : Bytes) × (get h ring.hash_to_shard ≡ some s)
unfolding program
ring_owned h (inl p) = (97 ∷ [], rw (← p) refl)
ring_owned h (inr (inl p)) = (97 ∷ [], rw (← p) refl)
ring_owned h (inr (inr e)) = absurd (e tt)

ring-IsRing : IsRing ring
ring-IsRing = record { sorted = omega arith; owned = ring_owned }

search_ge-first_ge_example : search_ge (62 ∷ 63 ∷ []) 63 ≡ first_ge (62 ∷ 63 ∷ []) 63
search_ge-first_ge_example = search_ge-first_ge (62 ∷ 63 ∷ []) 63 (omega arith)

successor-next_or_example : successor (62 ∷ 63 ∷ []) 64 ≡ next_or 62 (62 ∷ 63 ∷ []) 64
successor-next_or_example = successor-next_or 62 (63 ∷ []) 64 (omega arith)

add_shard-IsRing_example :
    IsRing (add_shard toy (107 ∷ []) ring)
    × (length (add_shard toy (107 ∷ []) ring).hash_values ≡ 2 + length ring.hash_values)
add_shard-IsRing_example = add_shard-IsRing toy ring ring-IsRing (107 ∷ [])

add_shard-moves_example :
    (get_shard toy (5 ∷ []) (add_shard toy (107 ∷ []) ring) ≡ ok (107 ∷ []))
    ⊎ (get_shard toy (5 ∷ []) (add_shard toy (107 ∷ []) ring) ≡ get_shard toy (5 ∷ []) ring)
add_shard-moves_example = add_shard-moves toy ring ring-IsRing (107 ∷ []) (5 ∷ []) (omega arith)

calculate_migrations-panic_example : calculate_migrations toy (97 ∷ []) (new_hash_ring 2) ≡ panic
calculate_migrations-panic_example =
    calculate_migrations-panic toy (97 ∷ []) (new_hash_ring 2) refl (omega arith)

-- Shard "k" joins at 8 and 9: both tasks start at 63.
abbrev task : MigrationTask
task = record { from_node = 97 ∷ []; to_node = 107 ∷ []; start_hash = 63; end_hash = 8 }

abbrev tasks : List MigrationTask
tasks = task ∷ record task { end_hash = 9 } ∷ []

tasks_calculated : calculate_migrations toy (107 ∷ []) ring ≡ done tasks
unfolding program
tasks_calculated = refl

task_out : Absent 63 (virtual_hashes toy (107 ∷ []) 0 2)
unfolding program
task_out = omega arith

migrated_but_owned_example :
    (key_in_range toy (63 ∷ []) 63 8 ≡ true)
    × (get_shard toy (63 ∷ []) (add_shard toy (107 ∷ []) ring) ≡ ok (97 ∷ []))
    × (◌≢◌ {A = Bytes} (97 ∷ []) (107 ∷ []))
migrated_but_owned_example =
    migrated_but_owned toy (107 ∷ []) ring ring-IsRing tasks task (63 ∷ []) tasks_calculated
      (inl refl) refl task_out (omega arith)
