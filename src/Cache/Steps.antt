-- ===== src/Cache/Steps.antt =====
-- Each operation of internal/cache/cache.go, on a valid cache, ends without a panic and does to
-- the abstract entries what Spec.antt says.
use mathlib.Core.Path.{subst}
use gocache.Prelude.{
  ℕ, suc, ◌<◌, ◌%◌, ◌^◌, ◌≡◌, refl, sym, ap, ◌∙◌, inl, inr, Option, none, some, List, [], ◌∷◌, ◌++◌,
  arith, Outcome, done, ◌>>=◌, Within-at, length, leb, Option-cases, Bool-cases, leb→le, snoc-cases,
  ne_of_Within,
}
use gocache.Prelude.Int.{ℤ}
use gocache.Prelude.Maps.{
  Bytes, get, put, delete, get-Missing, total-put_new, total-put_old, total-delete, get-delete,
  length-delete, length-put_new, length-put_old, length-delete, bytes_key,
}
use gocache.Cache.{
  Cache, CacheItem, item_size, expiry, sub64, evict, store, make_room, charge_set, set_internal,
  eviction,
}
use gocache.Cache.Spec.{Entry, spec_set, drop_last, without_victim}
use gocache.Cache.Valid.{
  IsValid, IsLinked, charge, memory, key_of, add64-charged, sub64-charged, IsLinked-update,
  IsLinked-add, IsLinked-evict, IsLinked-split,
}
use gocache.Cache.Contents.{
  contents, contents-update, contents-add, contents-evict, contents-Missing, get-contents,
  length-contents,
}

-- `c` stands for the abstract entries `es`.
pub record Refines (c : Cache) (es : List Entry) : Type 0 where
  pub nodes : List ℕ
  pub valid : IsValid c nodes
  pub shows : contents c.lru c.entries nodes ≡ es

-- `m` ends without a panic in a cache that stands for `es`, with the size and the lock of `c`.
abbrev pub Becomes : Outcome Cache → Cache → List Entry → Type 0
Becomes m c es =
    (c' : Cache) × (m ≡ done c') × Refines c' es × (c'.max_size ≡ c.max_size) × (c'.held ≡ c.held)

set-old :
    (c : Cache) (key value : Bytes) (ttl : ℤ) (now : ℕ) (old : CacheItem) (xs ys : List ℕ)
    → get key c.entries ≡ some old
    → IsValid c (xs ++ old.node ∷ ys)
    → Becomes (set_internal key value ttl now c) c (
        (key, (value, expiry ttl now))
        ∷ delete key (contents c.lru c.entries (xs ++ old.node ∷ ys)))
unfolding set_internal make_room store charge_set
set-old c key value ttl now old xs ys g v =
    let item : CacheItem = record { value = value; expires_at = expiry ttl now; node = old.node } in
    let (l', ran, linked, same) =
      IsLinked-update c.lru c.entries key old item xs ys g refl v.linked in
    let m' = put key item c.entries in
    let rest = memory (delete key c.entries) in
    let kept = total-delete charge key old c.entries v.linked.is_map g in
    let sum = total-put_old charge key item old c.entries g in
    let after = sub64 c.bytes (item_size key old.value) in
    (
      charge_set key value (record c { bytes = after; entries = m'; lru = l' }),
      ground (arith, g, ran),
      record {
        nodes = old.node ∷ xs ++ ys;
        valid = record {
          linked = linked;
          charged =
              add64-charged after rest (item_size key value) (
                sub64-charged c.bytes (memory c.entries) rest (item_size key old.value) v.charged
                  kept)
              ∙ ap (λ (t : ℕ). t % 2 ^ 64) (omega (arith, sum, kept));
          bounded = omega (arith, v.bounded, length-put_old key item old c.entries g);
          positive = v.positive;
        };
        shows = contents-update c.lru l' c.entries key old item xs ys g v.linked same;
      },
      refl,
      refl,
    )

-- Storing a key that is not there, with room for it.
store-new :
    (c : Cache) (key value : Bytes) (exp : Option ℕ) (ns : List ℕ)
    → get key c.entries ≡ none
    → IsLinked c.lru c.entries ns
    → c.bytes ≡ memory c.entries % 2 ^ 64
    → length c.entries < c.max_size
    → (c' : Cache) × ((do x ← store none key value exp c; done (charge_set key value x)) ≡ done c')
      × Refines c' ((key, (value, exp)) ∷ contents c.lru c.entries ns)
      × (c'.max_size ≡ c.max_size)
      × (c'.held ≡ c.held)
unfolding store charge_set
store-new c key value exp ns g v charged room =
    let n = c.lru.fresh in
    let item : CacheItem = record { value = value; expires_at = exp; node = n } in
    let m' = put key item c.entries in
    let (l', ran, linked, at, same) = IsLinked-add c.lru c.entries key value exp ns g v in
    (
      charge_set key value (record c { entries = m'; lru = l' }),
      ground (arith, ran),
      record {
        nodes = n ∷ ns;
        valid = record {
          linked = linked;
          charged =
              add64-charged c.bytes (memory c.entries) (item_size key value) charged
              ∙ ap (λ (t : ℕ). t % 2 ^ 64)
                  (omega (arith, total-put_new charge key item c.entries g));
          bounded = omega (arith, length-put_new key item c.entries g);
          positive = omega arith;
        };
        shows =
            contents-add c.lru l' c.entries key item ns g v at
              (λ k w. same k (ne_of_Within ns linked.list.distinct.0 w));
      },
      refl,
      refl,
    )

-- What an eviction leaves.
pub record Evicted (c c' : Cache) (ns ks : List ℕ) : Type 0 where
  pub linked : IsLinked c'.lru c'.entries ks
  pub charged : c'.bytes ≡ memory c'.entries % 2 ^ 64
  pub room : suc (length c'.entries) ≡ length c.entries
  pub shows : contents c'.lru c'.entries ks ≡ drop_last (contents c.lru c.entries ns)
  pub misses : (k : Bytes) → get k c.entries ≡ none → get k c'.entries ≡ none
  pub same_size : c'.max_size ≡ c.max_size
  pub same_held : c'.held ≡ c.held

evict-nonempty :
    (c : Cache) (xs : List ℕ) (n : ℕ)
    → IsValid c (xs ++ n ∷ [])
    → (c' : Cache) × (evict c ≡ done c') × Evicted c c' (xs ++ n ∷ []) (xs ++ [])
unfolding evict
evict-nonempty c xs n v =
    let key = key_of c.lru n in
    let (l', ran, linked, same) = IsLinked-evict c.lru c.entries n xs v.linked in
    let (item, g, _) = v.linked.tied.item_of n (Within-at n xs []) in
    let after = sub64 c.bytes (item_size key item.value) in
    (
      record c {
        lru = l';
        bytes = after;
        calls = eviction ∷ c.calls;
        entries = delete key c.entries;
      },
      ground (arith, ran, g),
      record {
        linked = linked;
        charged =
            sub64-charged c.bytes (memory c.entries) (memory (delete key c.entries))
              (item_size key item.value) v.charged
              (total-delete charge key item c.entries v.linked.is_map g);
        room = length-delete key item c.entries v.linked.is_map g;
        shows = contents-evict c.lru l' c.entries n xs v.linked same;
        misses = λ k e. ground (arith, get-delete key k c.entries);
        same_size = refl;
        same_held = refl;
      },
    )

-- Eviction from a cache that is not empty.
evict-Evicted :
    (c : Cache) (ns : List ℕ)
    → IsValid c ns
    → 0 < length c.entries
    → (c' : Cache) × (ks : List ℕ) × (evict c ≡ done c') × Evicted c c' ns ks
evict-Evicted c ns v full = elim (snoc-cases ns) [
  | inl e ↦ absurd (omega (arith, v.linked.counted, ap (λ (x : List ℕ). length x) e))
  | inr (xs, n, e) ↦
      let (c', ran, out) = evict-nonempty c xs n (subst (λ (x : List ℕ). IsValid c x) e v) in
      (c', xs ++ [], ran, subst (λ (x : List ℕ). Evicted c c' x (xs ++ [])) (sym e) out)
]

set-new :
    (c : Cache) (key value : Bytes) (ttl : ℤ) (now : ℕ) (ns : List ℕ)
    → get key c.entries ≡ none
    → IsValid c ns
    → Becomes (set_internal key value ttl now c) c (
        (key, (value, expiry ttl now))
        ∷ without_victim none c.max_size key (contents c.lru c.entries ns))
unfolding set_internal make_room
set-new c key value ttl now ns g v = elim (Bool-cases (leb c.max_size (length c.entries))) [
  | inl full ↦
      let (c1, ks, ran1, out) = evict-Evicted c ns v (omega (arith, leb→le _ _ full, v.positive)) in
      let (c2, ran2, r, size, lock) =
        store-new c1 key value (expiry ttl now) ks (out.misses key g) out.linked out.charged
          (omega (arith, out.room, out.same_size, v.bounded)) in
      (
        c2,
        ground (arith, g, full, ran1, ran2),
        rw (length-contents, ← v.linked.counted, full, ← out.shows) r,
        size ∙ out.same_size,
        lock ∙ out.same_held,
      )
  | inr room ↦
      let (c2, ran2, r, size, lock) =
        store-new c key value (expiry ttl now) ns g v.linked v.charged (ground arith) in
      (
        c2,
        ground (arith, g, room, ran2),
        rw (length-contents, ← v.linked.counted, room) r,
        size,
        lock,
      )
]

-- SetInternal.
pub set_internal-Becomes :
    (c : Cache) (es : List Entry) (key value : Bytes) (ttl : ℤ) (now : ℕ)
    → Refines c es
    → Becomes
        (set_internal key value ttl now c)
        c
        (spec_set c.max_size key value (expiry ttl now) es)
set_internal-Becomes c es key value ttl now r = elim (Option-cases (get key c.entries)) [
  | inl g ↦
      rw
        (
          ← r.shows,
          get-Missing key (contents c.lru c.entries r.nodes)
              (contents-Missing c.lru c.entries key r.nodes g r.valid.linked),
        )
        (set-new c key value ttl now r.nodes g r.valid)
  | inr (old, g) ↦
      let (xs, ys, e) = IsLinked-split c.lru c.entries key old r.nodes g r.valid.linked in
      rw (← r.shows, get-contents c.lru c.entries key old r.nodes g r.valid.linked, e)
        (set-old c key value ttl now old xs ys g (subst (λ (x : List ℕ). IsValid c x) e r.valid))
]
