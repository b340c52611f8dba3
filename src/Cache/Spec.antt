-- ===== src/Cache/Spec.antt =====
-- What internal/cache/cache.go promises: a list of entries, the most recently used first, that
-- never grows past its capacity and gives up the last entry.
use gocache.Prelude.{ℕ, Option, none, some, List, [], ◌∷◌, leb, length, if◌then◌else◌}
use gocache.Prelude.Maps.{Bytes, get, delete, bytes_key}
use gocache.Cache.{expired, Data}

-- A key with its value and its expiry time.
abbrev pub Entry : Type 0
Entry = Bytes × (Bytes × Option ℕ)

abbrev pub drop_last {ℓ} : {A : Type ℓ} → List A → List A
drop_last [] = []
drop_last (x ∷ []) = []
drop_last (x ∷ y ∷ xs) = x ∷ drop_last (y ∷ xs)

abbrev pub without_victim : Option (Bytes × Option ℕ) → ℕ → Bytes → List Entry → List Entry
without_victim (some old) cap key es = delete key es
without_victim none cap key es = if leb cap (length es) then drop_last es else es

abbrev pub spec_set : ℕ → Bytes → Bytes → Option ℕ → List Entry → List Entry
spec_set cap key value exp es = (key, (value, exp)) ∷ without_victim (get key es) cap key es

-- A hit moves the entry to the front; an expired entry stays where it is and is not returned.
abbrev pub spec_read :
    Bytes → ℕ → Option (Bytes × Option ℕ) → List Entry → Option Bytes × List Entry
spec_read key now none es = (none, es)
spec_read key now (some (value, exp)) es =
    if expired exp now then (none, es) else (some value, (key, (value, exp)) ∷ delete key es)

abbrev pub spec_get : Bytes → ℕ → List Entry → Option Bytes × List Entry
spec_get key now es = spec_read key now (get key es) es

abbrev pub spec_delete : Bytes → List Entry → List Entry
spec_delete key es = delete key es

-- The entries that have not expired, in their order, and the keys of those that have.
abbrev pub live_entries : ℕ → List Entry → List Entry
live_entries now [] = []
live_entries now ((k, (v, exp)) ∷ es) =
    let rest = live_entries now es in if expired exp now then rest else (k, (v, exp)) ∷ rest

abbrev pub expired_keys : ℕ → Data → List Bytes
expired_keys now [] = []
expired_keys now ((k, item) ∷ m) =
    let rest = expired_keys now m in if expired item.expires_at now then k ∷ rest else rest
