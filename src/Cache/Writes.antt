-- ===== src/Cache/Writes.antt =====
-- The writes that a log or a leader sends on, applied to internal/cache/cache.go. A lifetime is in
-- whole seconds, and none or a negative one is for ever, as in Set.
use mathlib.Core.Path.{subst}
use gocache.Prelude.{
  ℕ, suc, ◌<◌, ◌^◌, ◌≡◌, refl, ◌∙◌, false, List, [], ◌∷◌, Outcome, done, ◌>>=◌, length,
}
use gocache.Prelude.Int.{ℤ}
use gocache.Prelude.Decimal.{Fits}
use gocache.Prelude.Duration.{seconds}
use gocache.Prelude.Maps.{Bytes}
use gocache.Cache.{Cache, expiry, set, delete_key}
use gocache.Cache.Spec.{Entry, spec_set, spec_delete}
use gocache.Cache.Steps.{Refines, Becomes}
use gocache.Cache.Runs.{set-Becomes, delete_key-Becomes}

pub data Write : Type 0 where
  set_write : Bytes → Bytes → ℤ → Write
  delete_write : Bytes → Write

-- Strings shorter than 2^63 bytes, and a lifetime of 64 bits.
abbrev pub IsWrite : Write → Type 0
IsWrite (set_write key value ttl) = (length key < 2 ^ 63) × (length value < 2 ^ 63) × Fits ttl
IsWrite (delete_write key) = length key < 2 ^ 63

unfoldable pub apply_write : ℕ → Write → Cache → Outcome Cache
apply_write now (set_write key value ttl) c = set key value (seconds ttl) now c
apply_write now (delete_write key) c = delete_key key c

-- The writes in order; `clock i` is the time of the write number `i`.
unfoldable pub apply_writes : (ℕ → ℕ) → ℕ → List Write → Cache → Outcome Cache
unfolding apply_write
apply_writes clock i [] c = done c
apply_writes clock i (w ∷ ws) c = do
  c' ← apply_write (clock i) w c
  apply_writes clock (suc i) ws c'

abbrev pub spec_write : ℕ → ℕ → Write → List Entry → List Entry
spec_write cap now (set_write key value ttl) es =
    spec_set cap key value (expiry (seconds ttl) now) es
spec_write cap now (delete_write key) es = spec_delete key es

unfoldable pub spec_writes : ℕ → (ℕ → ℕ) → ℕ → List Write → List Entry → List Entry
spec_writes cap clock i [] es = es
spec_writes cap clock i (w ∷ ws) es =
    spec_writes cap clock (suc i) ws (spec_write cap (clock i) w es)

pub apply_write-Becomes :
    (now : ℕ) (w : Write) (c : Cache) (es : List Entry)
    → c.held ≡ false
    → Refines c es
    → Becomes (apply_write now w c) c (spec_write c.max_size now w es)
unfolding apply_write
apply_write-Becomes now (set_write key value ttl) c es free r =
    set-Becomes c es free r key value (seconds ttl) now
apply_write-Becomes now (delete_write key) c es free r = delete_key-Becomes c es free r key

pub apply_writes-Becomes :
    (clock : ℕ → ℕ) (i cap : ℕ) (ws : List Write) (c : Cache) (es : List Entry)
    → c.max_size ≡ cap
    → c.held ≡ false
    → Refines c es
    → Becomes (apply_writes clock i ws c) c (spec_writes cap clock i ws es)
unfolding apply_writes spec_writes
apply_writes-Becomes clock i cap [] c es size free r = (c, refl, r, refl, refl)
apply_writes-Becomes clock i cap (w ∷ ws) c es size free r =
    let step =
      subst (λ k. Becomes (apply_write (clock i) w c) c (spec_write k (clock i) w es)) size
        (apply_write-Becomes (clock i) w c es free r) in
    let (c1, ran1, r1, size1, lock1) = step in
    let (c2, ran2, r2, size2, lock2) =
      apply_writes-Becomes clock (suc i) cap ws c1 (spec_write cap (clock i) w es) (size1 ∙ size)
        (lock1 ∙ free) r1 in
    (c2, rw ran1 ran2, r2, size2 ∙ size1, lock2 ∙ lock1)
