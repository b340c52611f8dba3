-- ===== src/Cache/Cleanup.antt =====
-- CleanupExpired of internal/cache/cache.go: what the loop over the map removes.
use mathlib.Core.Path.{subst}
use gocache.Prelude.{
  ℕ, ◌≡◌, refl, sym, ap, ◌∙◌, ◌≢◌, inl, inr, true, false, Option, some, List, [], ◌∷◌, arith, done,
  Within, Absent, All, length, Bool-cases, ◌⊎◌, if_pos, if_neg,
}
use gocache.Prelude.Maps.{Bytes, get, delete, IsMap, Missing, get-delete, bytes_key, bytes_discrete}
use gocache.Lru.{Lru}
use gocache.Cache.{Cache, CacheItem, Data, expired, sweep, record_call, expiration}
use gocache.Cache.Spec.{Entry, live_entries, expired_keys}
use gocache.Cache.Valid.{IsLinked, key_of}
use gocache.Cache.Contents.{contents, payload_of}
use gocache.Cache.Steps.{Refines}
use gocache.Cache.Reads.{drop_item-Becomes, Refines-calls}

-- The deletions of the loop, one key after another.
abbrev pub delete_all : List Bytes → List Entry → List Entry
delete_all [] es = es
delete_all (k ∷ ks) es = delete_all ks (delete k es)

delete_all-Within :
    (ks : List Bytes) (k : Bytes) (p : Bytes × Option ℕ) (es : List Entry)
    → Within k ks
    → delete_all ks ((k, p) ∷ es) ≡ delete_all ks es
unfolding delete
delete_all-Within [] k p es w = absurd (w tt)
delete_all-Within (j ∷ ks) k p es w = elim (bytes_discrete k j) [
  | yes e ↦ rw (if_pos _ e)
  | no n ↦ rw (if_neg _ n) (delete_all-Within ks k p (delete j es) (further w n))
]
  where
    further : (j ≡ k) ⊎ Within k ks → (k ≢ j) → Within k ks
    further (inl e) n = absurd (n (sym e))
    further (inr v) n = v

delete_all-Absent :
    (ks : List Bytes) (k : Bytes) (p : Bytes × Option ℕ) (es : List Entry)
    → Absent k ks
    → delete_all ks ((k, p) ∷ es) ≡ (k, p) ∷ delete_all ks es
unfolding delete
delete_all-Absent [] k p es a = refl
delete_all-Absent (j ∷ ks) k p es a =
    rw (if_neg _ (λ e. a.0 (sym e))) (delete_all-Absent ks k p (delete j es) a.1)

Within-expired_keys :
    (now : ℕ) (m : Data) (k : Bytes) (item : CacheItem)
    → get k m ≡ some item
    → expired item.expires_at now ≡ true
    → Within k (expired_keys now m)
unfolding get
Within-expired_keys now [] k item g e = cc
Within-expired_keys now ((j, x) ∷ m) k item g e = elim (bytes_discrete j k) [
  | yes p ↦ let same : x ≡ item = ground arith in rw (same, e) (inl p)
  | no p ↦
      let rest = Within-expired_keys now m k item (ground arith) e in
      elim (Bool-cases (expired x.expires_at now)) [ inl t ↦ rw t (inr rest) | inr f ↦ rw f rest ]
]

Absent-expired_keys-Missing :
    (now : ℕ) (m : Data) (k : Bytes) → Missing k m → Absent k (expired_keys now m)
Absent-expired_keys-Missing now [] k h = tt
Absent-expired_keys-Missing now ((j, x) ∷ m) k h =
    let rest = Absent-expired_keys-Missing now m k h.1 in
    elim (Bool-cases (expired x.expires_at now)) [ inl t ↦ rw t (h.0, rest) | inr f ↦ rw f rest ]

Absent-expired_keys :
    (now : ℕ) (m : Data) (k : Bytes) (item : CacheItem)
    → IsMap m
    → get k m ≡ some item
    → expired item.expires_at now ≡ false
    → Absent k (expired_keys now m)
unfolding get
Absent-expired_keys now [] k item d g e = cc
Absent-expired_keys now ((j, x) ∷ m) k item d g e = elim (bytes_discrete j k) [
  | yes p ↦
      let same : x ≡ item = ground arith in
      rw (same, e) (Absent-expired_keys-Missing now m k (rw (← p) d.0))
  | no p ↦
      let rest = Absent-expired_keys now m k item d.1 (ground arith) e in
      elim (Bool-cases (expired x.expires_at now)) [ inl t ↦ rw t (p, rest) | inr f ↦ rw f rest ]
]

delete_all-nil : (ks : List Bytes) → delete_all ks [] ≡ []
unfolding delete
delete_all-nil [] = refl
delete_all-nil (k ∷ ks) = delete_all-nil ks

-- Deleting the expired keys of the map leaves the live entries of the list.
delete_all-live :
    (l : Lru) (m : Data) (now : ℕ) (all ns : List ℕ)
    → IsLinked l m all
    → ((n : ℕ) → Within n ns → Within n all)
    → delete_all (expired_keys now m) (contents l m ns) ≡ live_entries now (contents l m ns)
delete_all-live l m now all [] v sub = delete_all-nil (expired_keys now m)
delete_all-live l m now all (n ∷ ns) v sub =
    let (item, g, _) = v.tied.item_of n (sub n (inl refl)) in
    let rest = delete_all-live l m now all ns v (λ k w. sub k (inr w)) in
    elim (Bool-cases (expired item.expires_at now)) [
      | inl t ↦
          rw (g, t)
            (delete_all-Within (expired_keys now m) (key_of l n) (payload_of item) (contents l m ns)
                (Within-expired_keys now m (key_of l n) item g t)
              ∙ rest)
      | inr f ↦
          rw (g, f)
            (delete_all-Absent (expired_keys now m) (key_of l n) (payload_of item) (contents l m ns)
                (Absent-expired_keys now m (key_of l n) item v.is_map g f)
              ∙ ap (◌∷◌ (key_of l n, payload_of item)) rest)
    ]

-- The entries that the loop has still to visit are entries of the map.
abbrev Holds : Data → Data → Type 0
Holds m entries = All (λ e. get e.0 entries ≡ some e.1) m

Holds-delete :
    (k : Bytes) (m entries : Data) → Missing k m → Holds m entries → Holds m (delete k entries)
Holds-delete k [] entries n h = tt
Holds-delete k ((j, x) ∷ m) entries n h = (
  get-delete k j entries ∙ if_neg (bytes_discrete k j) (λ p. n.0 (sym p)) _ _ ∙ h.0,
  Holds-delete k m entries n.1 h.1,
)

Holds-cons :
    (k : Bytes) (x : CacheItem) (m entries : Data)
    → Missing k m
    → Holds m entries
    → Holds m ((k, x) ∷ entries)
unfolding get
Holds-cons k x [] entries n h = tt
Holds-cons k x ((j, y) ∷ m) entries n h =
    (if_neg (bytes_discrete k j) (λ p. n.0 (sym p)) _ _ ∙ h.0, Holds-cons k x m entries n.1 h.1)

Holds-self : (m : Data) → IsMap m → Holds m m
unfolding get
Holds-self [] d = tt
Holds-self ((k, x) ∷ m) d =
    (if_pos (bytes_discrete k k) refl _ _, Holds-cons k x m m d.0 (Holds-self m d.1))

sweep-Becomes :
    (m : Data) (now : ℕ) (c : Cache) (es : List Entry)
    → IsMap m
    → Holds m c.entries
    → Refines c es
    → (c' : Cache) × (sweep m now c ≡ done (c', length (expired_keys now m)))
      × Refines c' (delete_all (expired_keys now m) es)
      × (c'.max_size ≡ c.max_size)
      × (c'.held ≡ c.held)
unfolding sweep
sweep-Becomes [] now c es d h r = (c, refl, r, refl, refl)
sweep-Becomes ((k, x) ∷ m) now c es d h r = elim (Bool-cases (expired x.expires_at now)) [
  | inl t ↦
      let (c1, ran1, r1, size1, lock1, out) = drop_item-Becomes c es k x h.0 r in
      let (c2, ran2, r2, size2, lock2) =
        sweep-Becomes m now (record_call expiration c1) (delete k es) d.1
          (rw out (Holds-delete k m c.entries d.0 h.1))
          (Refines-calls c1 (delete k es) (expiration ∷ c1.calls) r1) in
      (c2, ground (arith, t, ran1, ran2), rw t r2, size2 ∙ size1, lock2 ∙ lock1)
  | inr f ↦
      let (c2, ran2, r2, size2, lock2) = sweep-Becomes m now c es d.1 h.1 r in
      (c2, ground (arith, f, ran2), rw f r2, size2, lock2)
]

-- The loop over the whole map.
pub sweep_all-Becomes :
    (now : ℕ) (c : Cache) (es : List Entry)
    → Refines c es
    → (c' : Cache) × (sweep c.entries now c ≡ done (c', length (expired_keys now c.entries)))
      × Refines c' (live_entries now es)
      × (c'.max_size ≡ c.max_size)
      × (c'.held ≡ c.held)
sweep_all-Becomes now c es r =
    let m = c.entries in
    let (c', ran, r', size, lock) =
      sweep-Becomes m now c es r.valid.linked.is_map (Holds-self m r.valid.linked.is_map) r in
    let live = delete_all-live c.lru m now r.nodes r.nodes r.valid.linked (λ n w. w) in
    let at =
      ap (delete_all (expired_keys now m)) (sym r.shows) ∙ live ∙ ap (live_entries now) r.shows in
    (c', ran, subst (λ (x : List Entry). Refines c' x) at r', size, lock)
