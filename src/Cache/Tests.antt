-- ===== src/Cache/Tests.antt =====
-- Runs of the cache, and the theorems of its modules at concrete caches.
use gocache.Prelude.{
  ℕ, ◌≡◌, refl, ◌↔◌, Within, Outcome, panic, blocked, none, some, List, [], ◌∷◌, arith, done,
  length, ℕ_discrete, ◌%◌, ◌^◌, ◌≤◌,
}
use gocache.Prelude.Int.{pos}
use gocache.Prelude.Maps.{Bytes, get, put, delete, bytes_key, bytes_discrete}
use gocache.Lru.{
  remove_node, add_to_front, move_to_front, remove_lru, add, set_node, set_prev, set_next,
}
use gocache.Cache.{
  Cache, CacheItem, new_cache, delete_key, set, get_value, set_internal, get_internal, make_room,
  store, evict, charge_set, add64, sub64, cleanup_expired,
}
use gocache.Cache.Spec.{spec_set}
use gocache.Cache.Spec.{spec_get, spec_delete, live_entries, expired_keys}
use gocache.Cache.Steps.{Becomes}
use gocache.Cache.Reads.{Replies}
use gocache.Cache.Enumeration.{
  get_keys_in_hash_range, count_keys_in_range, LiesInRange, keys_in_range_iff,
}
use gocache.Cache.Bounds.{counted_bytes, run_bounds}
use gocache.Cache.Runs.{
  set-Becomes, get_value-Replies, delete_key-Becomes, cleanup_expired-Replies, Refines-new,
  run-spec_run, Call, Reply, set_call, get_call, nothing, found, run, spec_run,
}

abbrev a : Bytes
a = 97 ∷ []

abbrev b : Bytes
b = 98 ∷ []

abbrev c : Bytes
c = 99 ∷ []

-- Two slots: a read of `a` makes `b` the one that `c` evicts; `a` expires at 15.
abbrev calls : List (ℕ × Call)
calls =
    (10, set_call a a (pos 5))
    ∷ (10, set_call b b (pos 0))
    ∷ (11, get_call a)
    ∷ (12, set_call c c (pos 0))
    ∷ (13, get_call b)
    ∷ (16, get_call a)
    ∷ []

replies :
    (spec_run 2 calls []).0
    ≡ nothing ∷ nothing ∷ found (some a) ∷ nothing ∷ found none ∷ found none ∷ []
unfolding spec_run get delete bytes_discrete
replies = refl

program : Unit {0}
unfolding run spec_run get put delete bytes_discrete ℕ_discrete set get_value set_internal
    get_internal make_room store evict charge_set add64 sub64 remove_node add_to_front move_to_front
    remove_lru add set_node set_prev set_next
program = tt

abbrev answers : Outcome (List Reply × Cache) → List Reply
answers (done (r, s)) = r
answers panic = []
answers blocked = []

run_replies : answers (run calls (new_cache 2)) ≡ (spec_run 2 calls []).0
unfolding program
run_replies = refl

run-spec_run_example : Replies (run calls (new_cache 2)) (new_cache 2) (spec_run 2 calls [])
run-spec_run_example = run-spec_run 2 calls (omega arith)

-- A full cache of one entry, which the next key evicts.
abbrev full : Becomes (set a a (pos 5) 10 (new_cache 1)) (new_cache 1) (spec_set 1 a a (some 15) [])
full = set-Becomes (new_cache 1) [] refl (Refines-new 1 (omega arith)) a a (pos 5) 10

set-Becomes_example :
    Becomes
      (set b b (pos 0) 11 full.0)
      full.0
      (spec_set full.0.max_size b b none (spec_set 1 a a (some 15) []))
set-Becomes_example = set-Becomes full.0 (spec_set 1 a a (some 15) []) full.4 full.2 b b (pos 0) 11

get_value-Replies_example :
    Replies (get_value a 12 full.0) full.0 (spec_get a 12 (spec_set 1 a a (some 15) []))
get_value-Replies_example =
    get_value-Replies full.0 (spec_set 1 a a (some 15) []) full.4 full.2 a 12

delete_key-Becomes_example :
    Becomes (delete_key a full.0) full.0 (spec_delete a (spec_set 1 a a (some 15) []))
delete_key-Becomes_example = delete_key-Becomes full.0 (spec_set 1 a a (some 15) []) full.4 full.2 a

cleanup_expired-Replies_example :
    Replies
      (cleanup_expired 16 full.0)
      full.0
      (length (expired_keys 16 full.0.entries), live_entries 16 (spec_set 1 a a (some 15) []))
cleanup_expired-Replies_example =
    cleanup_expired-Replies full.0 (spec_set 1 a a (some 15) []) full.4 full.2 16

run_bounds_example :
    (rs : List Reply) × (full : Cache) × (run calls (new_cache 2) ≡ done (rs, full))
    × (length full.entries ≤ 2)
    × (full.bytes ≡ counted_bytes full.entries % 2 ^ 64)
run_bounds_example = run_bounds 2 calls (omega arith)

-- The hash of a key is its length.
abbrev length_hash : Bytes → ℕ
length_hash k = length k % 2 ^ 32

keys_in_range_iff_example :
    (ks : List Bytes) × (get_keys_in_hash_range length_hash 4294967290 9 full.0 ≡ done ks)
    × (count_keys_in_range length_hash 4294967290 9 full.0 ≡ done (length ks))
    × ((k : Bytes)
        → Within k ks ↔ (
            LiesInRange length_hash 4294967290 9 (length_hash k)
            × ((item : CacheItem) × (get k full.0.entries ≡ some item))))
keys_in_range_iff_example =
    keys_in_range_iff length_hash 4294967290 9 full.0 (λ k. omega arith) (omega arith) (omega arith)
      full.4
