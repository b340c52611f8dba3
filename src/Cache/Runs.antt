-- ===== src/Cache/Runs.antt =====
-- The exported methods of internal/cache/cache.go, with their lock, and any sequence of them.
use mathlib.Core.Path.{subst}
use gocache.Prelude.{
  ℕ, ◌<◌, ◌≡◌, refl, sym, ◌∙◌, Bool, true, false, Option, List, [], ◌∷◌, arith, Outcome, done,
  ◌>>=◌, length, ltb, Bool-cases, inl, inr,
}
use gocache.Prelude.Int.{ℤ}
use gocache.Prelude.Maps.{Bytes, get, bytes_key}
use gocache.Lru.Laws.{IsList-new}
use gocache.Cache.{
  Cache, new_cache, expiry, set, get_value, delete_key, cleanup_expired, lock, report_removed,
  memory_usage, items_count,
}
use gocache.Cache.Spec.{Entry, spec_set, spec_get, spec_delete, live_entries, expired_keys}
use gocache.Cache.Steps.{Refines, Becomes, set_internal-Becomes}
use gocache.Cache.Reads.{Replies, get_internal-Replies, delete_internal-Becomes, Refines-calls}
use gocache.Cache.Cleanup.{sweep_all-Becomes}

-- The lock is no part of what a cache stands for.
pub Refines-held :
    (c : Cache) (es : List Entry) (h : Bool) → Refines c es → Refines (record c { held = h }) es
Refines-held c es h r = record {
  nodes = r.nodes;
  valid = record {
    linked = r.valid.linked;
    charged = r.valid.charged;
    bounded = r.valid.bounded;
    positive = r.valid.positive;
  };
  shows = r.shows;
}

pub Refines-new : (n : ℕ) → 0 < n → Refines (new_cache n) []
Refines-new n h = record {
  nodes = [];
  valid = record {
    linked = record {
      list = IsList-new;
      is_map = tt;
      tied = record { node_of = λ k i e. unfold get in cc; item_of = λ k w. absurd (w tt) };
      counted = refl;
    };
    charged = omega arith;
    bounded = omega arith;
    positive = h;
  };
  shows = refl;
}

module _ (c : Cache) (es : List Entry) (free : c.held ≡ false) (r : Refines c es) where
  -- On a free cache that stands for a list of entries, Set ends with the key at the front with
  -- its value and expiry; an old entry of the key is replaced, and a new key in a full cache
  -- evicts the last entry.
  pub set-Becomes :
      (key value : Bytes) (ttl : ℤ) (now : ℕ)
      → Becomes (set key value ttl now c) c (spec_set c.max_size key value (expiry ttl now) es)
  unfolding set
  set-Becomes key value ttl now =
      let (c', ran, r', size, _) =
        set_internal-Becomes (record c { held = true }) es key value ttl now
          (Refines-held c es true r) in
      (
        record c' { held = false },
        ground (arith, free, ran),
        Refines-held c' (spec_set c.max_size key value (expiry ttl now) es) false r',
        size,
        sym free,
      )

  -- On a free cache that stands for a list of entries, Get returns the value of a live key and
  -- moves its entry to the front; for a missing or expired key it returns nothing and leaves
  -- the entries.
  pub get_value-Replies :
      (key : Bytes) (now : ℕ) → Replies (get_value key now c) c (spec_get key now es)
  unfolding get_value
  get_value-Replies key now =
      let (c', ran, r', size, _) =
        get_internal-Replies (record c { held = true }) es key now (Refines-held c es true r) in
      (
        record c' { held = false },
        ground (arith, free, ran),
        Refines-held c' (spec_get key now es).1 false r',
        size,
        sym free,
      )

  -- On a free cache that stands for a list of entries, Delete removes the entry of the key and
  -- keeps the others in order.
  pub delete_key-Becomes : (key : Bytes) → Becomes (delete_key key c) c (spec_delete key es)
  unfolding delete_key
  delete_key-Becomes key =
      let (c', ran, r', size, _) =
        delete_internal-Becomes (record c { held = true }) es key (Refines-held c es true r) in
      (
        record c' { held = false },
        ground (arith, free, ran),
        Refines-held c' (spec_delete key es) false r',
        size,
        sym free,
      )

  report_removed-Refines :
      (c' : Cache) (es' : List Entry) (n : ℕ)
      → Refines c' es'
      → Refines (report_removed (c', n)) es' × ((report_removed (c', n)).max_size ≡ c'.max_size)
  unfolding report_removed
  report_removed-Refines c' es' n r' = elim (Bool-cases (ltb 0 n)) [
    | inl t ↦ rw t (
      Refines-calls c' es' (memory_usage c'.bytes ∷ items_count (length c'.entries) ∷ c'.calls) r',
      refl,
    )
    | inr f ↦ rw f (r', refl)
  ]

  -- On a free cache that stands for a list of entries, CleanupExpired leaves the entries that
  -- have not expired, in order, and returns the number of expired keys of the map.
  pub cleanup_expired-Replies :
      (now : ℕ)
      → Replies (cleanup_expired now c) c (length (expired_keys now c.entries), live_entries now es)
  unfolding cleanup_expired
  cleanup_expired-Replies now =
      let (c', ran, r', size, _) =
        sweep_all-Becomes now (record c { held = true }) es (Refines-held c es true r) in
      let n = length (expired_keys now c.entries) in
      let (r2, size2) = report_removed-Refines c' (live_entries now es) n r' in
      (
        record (report_removed (c', n)) { held = false },
        ground (arith, free, ran),
        Refines-held (report_removed (c', n)) (live_entries now es) false r2,
        size2 ∙ size,
        sym free,
      )

-- The exported calls, each with the time at which it is made, and their replies.
pub data Call : Type 0 where
  set_call : Bytes → Bytes → ℤ → Call
  get_call delete_call : Bytes → Call

pub data Reply : Type 0 where
  nothing : Reply
  found : Option Bytes → Reply

unfoldable pub perform : ℕ → Call → Cache → Outcome (Reply × Cache)
perform now (set_call key value ttl) c = do c' ← set key value ttl now c; done (nothing, c')
perform now (get_call key) c = do (v, c') ← get_value key now c; done (found v, c')
perform now (delete_call key) c = do c' ← delete_key key c; done (nothing, c')

abbrev pub spec_perform : ℕ → ℕ → Call → List Entry → Reply × List Entry
spec_perform cap now (set_call key value ttl) es =
    (nothing, spec_set cap key value (expiry ttl now) es)
spec_perform cap now (get_call key) es = let (v, es') = spec_get key now es in (found v, es')
spec_perform cap now (delete_call key) es = (nothing, spec_delete key es)

unfoldable pub run : List (ℕ × Call) → Cache → Outcome (List Reply × Cache)
unfolding perform
run [] c = done ([], c)
run ((now, call) ∷ calls) c = do
  (reply, c1) ← perform now call c
  (replies, c2) ← run calls c1
  done (reply ∷ replies, c2)

unfoldable pub spec_run : ℕ → List (ℕ × Call) → List Entry → List Reply × List Entry
spec_run cap [] es = ([], es)
spec_run cap ((now, call) ∷ calls) es =
    let (reply, es1) = spec_perform cap now call es in
    let (replies, es2) = spec_run cap calls es1 in (reply ∷ replies, es2)

perform-Replies :
    (now : ℕ) (call : Call) (c : Cache) (es : List Entry)
    → c.held ≡ false
    → Refines c es
    → Replies (perform now call c) c (spec_perform c.max_size now call es)
unfolding perform
perform-Replies now (set_call key value ttl) c es free r =
    let (c', ran, r', size, lock) = set-Becomes c es free r key value ttl now in
    (c', rw ran, r', size, lock)
perform-Replies now (get_call key) c es free r =
    let (c', ran, r', size, lock) = get_value-Replies c es free r key now in
    (c', rw ran, r', size, lock)
perform-Replies now (delete_call key) c es free r =
    let (c', ran, r', size, lock) = delete_key-Becomes c es free r key in
    (c', rw ran, r', size, lock)

run-Replies :
    (cap : ℕ) (calls : List (ℕ × Call)) (c : Cache) (es : List Entry)
    → c.max_size ≡ cap
    → c.held ≡ false
    → Refines c es
    → Replies (run calls c) c (spec_run cap calls es)
unfolding run spec_run
run-Replies cap [] c es at free r = (c, refl, r, refl, refl)
run-Replies cap ((now, call) ∷ calls) c es at free r =
    let step =
      subst (λ k. Replies (perform now call c) c (spec_perform k now call es)) at
        (perform-Replies now call c es free r) in
    let (c1, ran1, r1, size1, lock1) = step in
    let (c2, ran2, r2, size2, lock2) =
      run-Replies cap calls c1 (spec_perform cap now call es).1 (size1 ∙ at) (lock1 ∙ free) r1 in
    (c2, ground (arith, ran1, ran2), r2, size2 ∙ size1, lock2 ∙ lock1)

-- From a new cache with a positive capacity, any sequence of Set, Get and Delete calls ends
-- without a panic and without blocking, returns the replies of the bounded list of entries (most
-- recently used first, the last one evicted), and leaves the lock free in a cache that stands for
-- that list.
pub run-spec_run :
    (cap : ℕ) (calls : List (ℕ × Call))
    → 0 < cap
    → Replies (run calls (new_cache cap)) (new_cache cap) (spec_run cap calls [])
run-spec_run cap calls h = run-Replies cap calls (new_cache cap) [] refl refl (Refines-new cap h)
