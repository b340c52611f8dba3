-- ===== src/Cache/Reads.antt =====
-- GetInternal, DeleteInternal and the clean-up of internal/cache/cache.go against Spec.antt.
use mathlib.Core.Path.{subst}
use gocache.Prelude.{
  ℕ, ◌≡◌, refl, ap, ◌∙◌, inl, inr, false, none, some, List, ◌∷◌, ◌++◌, arith, Outcome, done, length,
  Option-cases, Bool-cases,
}
use gocache.Prelude.Maps.{
  Bytes, get, delete, get-Missing, delete-Missing, total-delete, length-delete, bytes_key,
}
use gocache.Cache.{
  Cache, CacheItem, item_size, expired, sub64, get_internal, delete_internal, delete_found,
  drop_item, record_call, MetricCall, cache_hit, cache_miss, expiration, operation, get_op,
  delete_op, memory_usage, items_count,
}
use gocache.Cache.Spec.{Entry, spec_get, spec_delete}
use gocache.Cache.Valid.{
  IsValid, IsLinked, charge, memory, sub64-charged, IsLinked-remove, IsLinked-touch, IsLinked-split,
}
use gocache.Cache.Contents.{
  contents, payload_of, contents-touch, contents-remove, contents-Missing, get-contents,
}
use gocache.Cache.Steps.{Refines, Becomes}

-- A reply with a cache that stands for the abstract entries.
abbrev pub Replies {ℓ} : {A : Type ℓ} → Outcome (A × Cache) → Cache → A × List Entry → Type ℓ
Replies m c (a, es) =
    (c' : Cache) × (m ≡ done (a, c'))
    × Refines c' es
    × (c'.max_size ≡ c.max_size)
    × (c'.held ≡ c.held)

get-live :
    (c : Cache) (key : Bytes) (now : ℕ) (item : CacheItem) (xs ys : List ℕ)
    → get key c.entries ≡ some item
    → expired item.expires_at now ≡ false
    → IsValid c (xs ++ item.node ∷ ys)
    → Replies (get_internal key now c) c (
      some item.value,
      (key, payload_of item) ∷ delete key (contents c.lru c.entries (xs ++ item.node ∷ ys)),
    )
unfolding get_internal
get-live c key now item xs ys g live v =
    let (l', ran, linked, same) = IsLinked-touch c.lru c.entries item.node xs ys v.linked in
    (
      record c { lru = l'; calls = cache_hit ∷ operation get_op ∷ c.calls },
      ground (arith, g, live, ran),
      record {
        nodes = item.node ∷ xs ++ ys;
        valid = record {
          linked = linked;
          charged = v.charged;
          bounded = v.bounded;
          positive = v.positive;
        };
        shows = contents-touch c.lru l' c.entries key item xs ys g v.linked same;
      },
      refl,
      refl,
    )

-- A miss and an expired entry leave the entries as they are.
get-nothing :
    (c : Cache) (key : Bytes) (now : ℕ) (es : List Entry) (c' : Cache)
    → get_internal key now c ≡ done (none, c')
    → c'.lru ≡ c.lru
    → c'.entries ≡ c.entries
    → c'.bytes ≡ c.bytes
    → c'.max_size ≡ c.max_size
    → c'.held ≡ c.held
    → Refines c es
    → Replies (get_internal key now c) c (none, es)
get-nothing c key now es c' ran l m b s h r = (
  c',
  ran,
  record {
    nodes = r.nodes;
    valid = record {
      linked = rw (l, m) r.valid.linked;
      charged = rw (b, m) r.valid.charged;
      bounded = rw (m, s) r.valid.bounded;
      positive = rw s r.valid.positive;
    };
    shows = rw (l, m) r.shows;
  },
  s,
  h,
)

-- GetInternal.
pub get_internal-Replies :
    (c : Cache) (es : List Entry) (key : Bytes) (now : ℕ)
    → Refines c es
    → Replies (get_internal key now c) c (spec_get key now es)
unfolding get_internal
get_internal-Replies c es key now r = elim (Option-cases (get key c.entries)) [
  | inl g ↦
      rw
        (
          ← r.shows,
          get-Missing key (contents c.lru c.entries r.nodes)
              (contents-Missing c.lru c.entries key r.nodes g r.valid.linked),
        )
        (get-nothing c key now (contents c.lru c.entries r.nodes)
          (record_call cache_miss (record_call (operation get_op) c)) (ground (arith, g)) refl refl
          refl refl refl (record { nodes = r.nodes; valid = r.valid; shows = refl }))
  | inr (item, g) ↦
      rw (← r.shows, get-contents c.lru c.entries key item r.nodes g r.valid.linked)
        (elim (Bool-cases (expired item.expires_at now)) [
          | inl old ↦ rw old (
              get-nothing c key now (contents c.lru c.entries r.nodes)
                (record_call expiration (record_call cache_miss (record_call (operation get_op) c)))
                (ground (arith, g, old)) refl refl refl refl refl
                (record { nodes = r.nodes; valid = r.valid; shows = refl }))
          | inr live ↦
              let (xs, ys, e) = IsLinked-split c.lru c.entries key item r.nodes g r.valid.linked in
              rw (live, e)
                (get-live c key now item xs ys g live
                  (subst (λ (x : List ℕ). IsValid c x) e r.valid))
        ])
]

-- Taking one item out, as Delete and CleanupExpired do.
pub drop_item-Becomes :
    (c : Cache) (es : List Entry) (key : Bytes) (item : CacheItem)
    → get key c.entries ≡ some item
    → Refines c es
    → (c' : Cache) × (drop_item key item c ≡ done c')
      × Refines c' (spec_delete key es)
      × (c'.max_size ≡ c.max_size)
      × (c'.held ≡ c.held)
      × (c'.entries ≡ delete key c.entries)
unfolding drop_item
drop_item-Becomes c es key item g r =
    let (xs, ys, e) = IsLinked-split c.lru c.entries key item r.nodes g r.valid.linked in
    let v = subst (λ (x : List ℕ). IsLinked c.lru c.entries x) e r.valid.linked in
    let (l', ran, linked, same) = IsLinked-remove c.lru c.entries key item xs ys g v in
    let after = sub64 c.bytes (item_size key item.value) in
    (
      record c { bytes = after; lru = l'; entries = delete key c.entries },
      ground (arith, ran),
      record {
        nodes = xs ++ ys;
        valid = record {
          linked = linked;
          charged =
              sub64-charged c.bytes (memory c.entries) (memory (delete key c.entries))
                (item_size key item.value) r.valid.charged
                (total-delete charge key item c.entries r.valid.linked.is_map g);
          bounded =
              omega
                (arith, r.valid.bounded, length-delete key item c.entries r.valid.linked.is_map g);
          positive = r.valid.positive;
        };
        shows =
            contents-remove c.lru l' c.entries key item xs ys g v same
            ∙ ap (delete key) (rw (← e) r.shows);
      },
      refl,
      refl,
      refl,
    )

pub Refines-calls :
    (c : Cache) (es : List Entry) (ms : List MetricCall)
    → Refines c es
    → Refines (record c { calls = ms }) es
Refines-calls c es ms r = record {
  nodes = r.nodes;
  valid = record {
    linked = r.valid.linked;
    charged = r.valid.charged;
    bounded = r.valid.bounded;
    positive = r.valid.positive;
  };
  shows = r.shows;
}

-- DeleteInternal.
pub delete_internal-Becomes :
    (c : Cache) (es : List Entry) (key : Bytes)
    → Refines c es
    → Becomes (delete_internal key c) c (spec_delete key es)
unfolding delete_found
delete_internal-Becomes c es key r = elim (Option-cases (get key c.entries)) [
  | inl g ↦ (
    record_call (operation delete_op) c,
    ground (arith, g),
    rw
        (
          ← r.shows,
          delete-Missing key (contents c.lru c.entries r.nodes)
              (contents-Missing c.lru c.entries key r.nodes g r.valid.linked),
        )
        (Refines-calls c (contents c.lru c.entries r.nodes) _
          (record { nodes = r.nodes; valid = r.valid; shows = refl })),
    refl,
    refl,
  )
  | inr (item, g) ↦
      let (c1, ran, r1, size, lock, _) = drop_item-Becomes c es key item g r in
      (
        record c1 {
          calls =
              memory_usage c1.bytes
              ∷ items_count (length c1.entries)
              ∷ operation delete_op
              ∷ c1.calls;
        },
        ground (arith, g, ran),
        Refines-calls c1 (spec_delete key es) _ r1,
        size,
        lock,
      )
]
