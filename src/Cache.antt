-- ===== src/Cache.antt =====
-- internal/cache/cache.go: a bounded cache with expiry times and LRU eviction. `data` is the Go
-- map, `lru` the linked list of Lru.antt, `held` tells whether the write lock is held. The calls of
-- the metrics collector are recorded, the latest first; what the collector does with them is not
-- the cache's concern. A time is a number, the zero time is `none`, and `now` is what time.Now
-- returns. `bytes` is the bit pattern of an int64.
pub mod Tied
pub mod Valid
pub mod Spec
pub mod Contents
pub mod Steps
pub mod Reads
pub mod Cleanup
pub mod Runs
pub mod Bounds
pub mod Writes
mod Tests
pub mod Enumeration
use gocache.Prelude.{
  ℕ, ◌+◌, ◌-◌, ◌%◌, ◌^◌, Bool, true, false, ◌&&◌, not, Option, none, some, List, [], ◌∷◌, Outcome,
  done, panic, blocked, deref, ◌>>=◌, length, ltb, leb, if◌then◌else◌,
}
use gocache.Prelude.Int.{ℤ, pos, negsuc}
use gocache.Prelude.Maps.{Bytes, get, put, delete, keys, bytes_key, bytes_discrete}
use gocache.Lru
use gocache.Lru.{Lru}

pub data Label : Type 0 where
  set_op get_op delete_op : Label

pub data MetricCall : Type 0 where
  operation : Label → MetricCall
  cache_hit cache_miss eviction expiration : MetricCall
  items_count memory_usage : ℕ → MetricCall

pub record CacheItem : Type 0 where
  pub value : Bytes
  pub expires_at : Option ℕ
  pub node : ℕ

abbrev pub Data : Type 0
Data = List (Bytes × CacheItem)

pub record Cache : Type 0 where
  pub entries : Data
  pub lru : Lru
  pub max_size : ℕ
  pub held : Bool
  pub bytes : ℕ
  pub calls : List MetricCall

pub record SnapshotEntry : Type 0 where
  pub value : Bytes
  pub expires_at : Option ℕ

abbrev pub new_cache : ℕ → Cache
new_cache max_size = record {
  entries = [];
  lru = Lru.new;
  max_size = max_size;
  held = false;
  bytes = 0;
  calls = [];
}

abbrev pub item_size : Bytes → Bytes → ℕ
item_size key value = (length key + 16) + (length value + 16) + 64

-- `+=` and `-=` on an int64
unfoldable pub add64 : ℕ → ℕ → ℕ
add64 a b = (a + b) % 2 ^ 64

unfoldable pub sub64 : ℕ → ℕ → ℕ
sub64 a b = (a + (2 ^ 64 - b % 2 ^ 64)) % 2 ^ 64

-- `if ttl > 0 { expiresAt = time.Now().Add(ttl) }`
abbrev pub expiry : ℤ → ℕ → Option ℕ
expiry (pos ℕ.zero) now = none
expiry (pos (ℕ.suc n)) now = some (now + ℕ.suc n)
expiry (negsuc n) now = none

-- `!expiresAt.IsZero() && now.After(expiresAt)`
abbrev pub expired : Option ℕ → ℕ → Bool
expired none now = false
expired (some t) now = ltb t now

abbrev pub record_call : MetricCall → Cache → Cache
record_call m c = record c { calls = m ∷ c.calls }

-- subtract an item's memory, if there is one
abbrev pub uncharge : Bytes → Option CacheItem → Cache → Cache
uncharge key none c = c
uncharge key (some item) c = record c { bytes = sub64 c.bytes (item_size key item.value) }

uncharge_evicted : Bytes → Option CacheItem → Cache → Cache
uncharge_evicted key none c = c
uncharge_evicted key (some item) c = record_call eviction (uncharge key (some item) c)

unfoldable pub evict : Cache → Outcome Cache
unfolding uncharge_evicted
evict c = do
  (key, l) ← Lru.remove_lru c.lru
  let c1 = uncharge_evicted key (get key c.entries) (record c { lru = l })
  done (record c1 { entries = delete key c1.entries })

abbrev pub is_present : Option CacheItem → Bool
is_present none = false
is_present (some item) = true

unfoldable pub make_room : Option CacheItem → Cache → Outcome Cache
make_room old c =
    if not (is_present old) && leb c.max_size (length c.entries) then evict c else done c

unfoldable pub store : Option CacheItem → Bytes → Bytes → Option ℕ → Cache → Outcome Cache
store (some item) key value exp c = do
  l ← Lru.move_to_front item.node c.lru
  done (record c {
    entries = put key (record { value = value; expires_at = exp; node = item.node }) c.entries;
    lru = l;
  })
store none key value exp c = do
  (n, l) ← Lru.add key c.lru
  done (record c {
    entries = put key (record { value = value; expires_at = exp; node = n }) c.entries;
    lru = l;
  })

unfoldable pub charge_set : Bytes → Bytes → Cache → Cache
charge_set key value c =
    let b = add64 c.bytes (item_size key value) in
    record c {
      bytes = b;
      calls = memory_usage b ∷ items_count (length c.entries) ∷ operation set_op ∷ c.calls;
    }

unfoldable pub set_internal : Bytes → Bytes → ℤ → ℕ → Cache → Outcome Cache
set_internal key value ttl now c = do
  let old = get key c.entries
  c2 ← make_room old (uncharge key old c)
  c3 ← store old key value (expiry ttl now) c2
  done (charge_set key value c3)

-- The value, or nothing if the key is missing or has expired.
read : Option CacheItem → ℕ → Cache → Outcome (Option Bytes × Cache)
read none now c = done (none, record_call cache_miss c)
read (some item) now c =
    if expired item.expires_at now
    then done (none, record_call expiration (record_call cache_miss c))
    else (do
      l ← Lru.move_to_front item.node c.lru
      done (some item.value, record (record_call cache_hit c) { lru = l }))

unfoldable pub get_internal : Bytes → ℕ → Cache → Outcome (Option Bytes × Cache)
unfolding read
get_internal key now c = read (get key c.entries) now (record_call (operation get_op) c)

unfoldable pub drop_item : Bytes → CacheItem → Cache → Outcome Cache
drop_item key item c = do
  l ← Lru.remove_node item.node c.lru
  done (record c {
    bytes = sub64 c.bytes (item_size key item.value);
    lru = l;
    entries = delete key c.entries;
  })

unfoldable pub delete_found : Bytes → Option CacheItem → Cache → Outcome Cache
unfolding drop_item
delete_found key none c = done (record_call (operation delete_op) c)
delete_found key (some item) c = do
  c1 ← drop_item key item c
  done (record c1 {
    calls =
        memory_usage c1.bytes ∷ items_count (length c1.entries) ∷ operation delete_op ∷ c1.calls;
  })

abbrev pub delete_internal : Bytes → Cache → Outcome Cache
delete_internal key c = delete_found key (get key c.entries) c

-- A second Lock of the same goroutine never returns; RLock waits for a held write lock too.
unfoldable pub lock : Cache → Outcome Cache
lock c = if c.held then blocked else done (record c { held = true })

unfoldable pub unlock : Cache → Outcome Cache
unlock c = done (record c { held = false })

unfoldable pub read_lock : Cache → Outcome Cache
read_lock c = if c.held then blocked else done c

unfoldable pub set : Bytes → Bytes → ℤ → ℕ → Cache → Outcome Cache
unfolding lock unlock
set key value ttl now c = do c1 ← lock c; c2 ← set_internal key value ttl now c1; unlock c2

unfoldable pub get_value : Bytes → ℕ → Cache → Outcome (Option Bytes × Cache)
unfolding lock unlock
get_value key now c = do
  c1 ← lock c
  (v, c2) ← get_internal key now c1
  c3 ← unlock c2
  done (v, c3)

unfoldable pub delete_key : Bytes → Cache → Outcome Cache
unfolding lock unlock
delete_key key c = do c1 ← lock c; c2 ← delete_internal key c1; unlock c2

abbrev pub snapshot_entries : Data → List (Bytes × SnapshotEntry)
snapshot_entries [] = []
snapshot_entries ((k, v) ∷ m) =
    (k, record { value = v.value; expires_at = v.expires_at }) ∷ snapshot_entries m

unfoldable pub snapshot : Cache → Outcome (List (Bytes × SnapshotEntry))
unfolding lock unlock
snapshot c = do c1 ← lock c; done (snapshot_entries c1.entries)

-- The loop of CleanupExpired over the entries that `range` visits: the cache and the count.
unfoldable pub sweep : Data → ℕ → Cache → Outcome (Cache × ℕ)
unfolding drop_item
sweep [] now c = done (c, 0)
sweep ((key, item) ∷ m) now c = elim (expired item.expires_at now) [
  | true ↦ do
    c1 ← drop_item key item c
    (c2, n) ← sweep m now (record_call expiration c1)
    done (c2, n + 1)
  | false ↦ sweep m now c
]

report_removed : Cache × ℕ → Cache
report_removed (c, n) =
    if ltb 0 n
    then record c { calls = memory_usage c.bytes ∷ items_count (length c.entries) ∷ c.calls }
    else c

unfoldable pub cleanup_expired : ℕ → Cache → Outcome (ℕ × Cache)
unfolding lock unlock report_removed
cleanup_expired now c = do
  c1 ← lock c
  (c2, n) ← sweep c1.entries now c1
  c3 ← unlock (report_removed (c2, n))
  done (n, c3)

unfoldable pub get_all_keys : Cache → Outcome (List Bytes)
unfolding read_lock
get_all_keys c = do c1 ← read_lock c; done (keys c1.entries)
