-- ===== src/Cache/Bounds.antt =====
-- internal/cache/cache.go: the number of items and the memory count after any calls.
use gocache.Prelude.{
  ℕ, ◌+◌, ◌≤◌, ◌<◌, ◌%◌, ◌^◌, ◌≡◌, refl, ap, ◌∙◌, List, [], ◌∷◌, arith, done, length,
}
use gocache.Cache.{Cache, Data, new_cache}
use gocache.Cache.Valid.{memory}
use gocache.Cache.Runs.{Call, Reply, run, spec_run, run-spec_run}

-- The bytes that are counted for the items of a map: of an item its key, its value and 96 more.
unfoldable pub counted_bytes : Data → ℕ
counted_bytes [] = 0
counted_bytes ((key, item) ∷ m) = length key + length item.value + 96 + counted_bytes m

memory-counted_bytes : (m : Data) → memory m ≡ counted_bytes m
unfolding counted_bytes
memory-counted_bytes [] = refl
memory-counted_bytes ((key, item) ∷ m) = omega (arith, memory-counted_bytes m)

-- From a new cache with a positive capacity, any sequence of Set, Get and Delete calls ends with at
-- most as many items as the capacity, and with a memory count that is, modulo 2^64, the sum over the
-- items of the map of the length of the key, the length of the value and 96.
pub run_bounds :
    (cap : ℕ) (calls : List (ℕ × Call))
    → 0 < cap
    → (replies : List Reply) × (c : Cache) × (run calls (new_cache cap) ≡ done (replies, c))
      × (length c.entries ≤ cap)
      × (c.bytes ≡ counted_bytes c.entries % 2 ^ 64)
run_bounds cap calls h =
    let (c, ran, r, size, _) = run-spec_run cap calls h in
    (
      (spec_run cap calls []).0,
      c,
      ran,
      omega (arith, r.valid.bounded, size),
      r.valid.charged ∙ ap (λ (n : ℕ). n % 2 ^ 64) (memory-counted_bytes c.entries),
    )
