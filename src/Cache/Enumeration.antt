-- ===== src/Cache/Enumeration.antt =====
-- internal/cache/enumeration.go: the keys of a hash range. The hash is a parameter, as in the code.
use gocache.Prelude.{
  ℕ, suc, ◌+◌, ◌-◌, ◌%◌, ◌^◌, ◌<◌, ℕ_discrete, ◌≡◌, refl, ◌≢◌, ◌⊎◌, inl, inr, ◌↔◌, Bool, true,
  false, not, ◌&&◌, ◌||◌, some, List, [], ◌∷◌, arith, Outcome, done, ◌>>=◌, length, ltb, leb,
  if◌then◌else◌, Within, Bool-cases,
}
use gocache.Prelude.Maps.{Bytes, get, bytes_key, bytes_discrete}
use gocache.Cache.{Cache, CacheItem, Data, expired, read_lock}

-- [start, end) on the ring of uint32 values
unfoldable pub hash_in_range : ℕ → ℕ → ℕ → Bool
hash_in_range hash start end =
    if ltb start end then leb start hash && ltb hash end else leb start hash || ltb hash end

module _ (hash : Bytes → ℕ) (start end : ℕ) where
  unfoldable pub matching_keys : Data → List Bytes
  matching_keys [] = []
  matching_keys ((key, item) ∷ m) =
      let rest = matching_keys m in if hash_in_range (hash key) start end then key ∷ rest else rest

  unfoldable pub get_keys_in_hash_range : Cache → Outcome (List Bytes)
  unfolding read_lock matching_keys
  get_keys_in_hash_range c = do c1 ← read_lock c; done (matching_keys c1.entries)

  -- `clock i` is the time at item `i`.
  unfoldable pub matching_values : (ℕ → ℕ) → ℕ → Data → List (Bytes × Bytes)
  matching_values clock i [] = []
  matching_values clock i ((key, item) ∷ m) =
      let rest = matching_values clock (suc i) m in
      if expired item.expires_at (clock i)
      then rest
      else if hash_in_range (hash key) start end
      then (key, item.value) ∷ rest
      else rest

  unfoldable pub get_keys_with_values : (ℕ → ℕ) → Cache → Outcome (List (Bytes × Bytes))
  unfolding read_lock matching_values
  get_keys_with_values clock c = do c1 ← read_lock c; done (matching_values clock 0 c1.entries)

  unfoldable pub count_matching : Data → ℕ
  count_matching [] = 0
  count_matching ((key, item) ∷ m) =
      if hash_in_range (hash key) start end then count_matching m + 1 else count_matching m

  unfoldable pub count_keys_in_range : Cache → Outcome ℕ
  unfolding read_lock count_matching
  count_keys_in_range c = do c1 ← read_lock c; done (count_matching c1.entries)

  count-matching : (m : Data) → count_matching m ≡ length (matching_keys m)
  unfolding count_matching matching_keys
  count-matching [] = refl
  count-matching ((key, item) ∷ m) = ground (arith, count-matching m)

  further-found :
      (m : Data) (j k : Bytes) (x : CacheItem)
      → (item : CacheItem) × (get k m ≡ some item)
      → (item : CacheItem) × (get k ((j, x) ∷ m) ≡ some item)
  unfolding get
  further-found m j k x (i, g) = elim (bytes_discrete j k) [
    | yes p ↦ (x, ground arith)
    | no p ↦ (i, ground arith)
  ]

  keys_sound :
      (m : Data) (k : Bytes)
      → Within k (matching_keys m)
      → (hash_in_range (hash k) start end ≡ true) × ((item : CacheItem) × (get k m ≡ some item))
  unfolding matching_keys get
  keys_sound [] k w = absurd (w tt)
  keys_sound ((j, x) ∷ m) k w = elim (Bool-cases (hash_in_range (hash j) start end)) [
    | inl t ↦ elim (in_head t w) [
      | inl p ↦ (ground (arith, p, t), (x, ground (arith, p)))
      | inr v ↦ let (t', f) = keys_sound m k v in (t', further-found m j k x f)
    ]
    | inr f ↦ let (t', g) = keys_sound m k (in_tail f w) in (t', further-found m j k x g)
  ]
    where
      in_head :
          hash_in_range (hash j) start end ≡ true
          → Within k (matching_keys ((j, x) ∷ m))
          → (j ≡ k) ⊎ Within k (matching_keys m)
      in_head t v = rw t at v

      in_tail :
          hash_in_range (hash j) start end ≡ false
          → Within k (matching_keys ((j, x) ∷ m))
          → Within k (matching_keys m)
      in_tail f v = rw f at v

  keys_complete :
      (m : Data) (k : Bytes) (item : CacheItem)
      → get k m ≡ some item
      → hash_in_range (hash k) start end ≡ true
      → Within k (matching_keys m)
  unfolding matching_keys get
  keys_complete [] k item g t = cc
  keys_complete ((j, x) ∷ m) k item g t = elim (bytes_discrete j k) [
    | yes p ↦ rw (p, t) (inl refl)
    | no p ↦
        let rest = keys_complete m k item (ground arith) t in
        elim (Bool-cases (hash_in_range (hash j) start end)) [
          | inl u ↦ rw u (inr rest)
          | inr f ↦ rw f rest
        ]
  ]

  -- The hash is met before the end by who walks round the ring of 2^32 values from the start; the
  -- whole ring is walked when the start is the end.
  abbrev pub LiesInRange : ℕ → Type 0
  LiesInRange h = (start ≡ end) ⊎ ((h + 2 ^ 32 - start) % 2 ^ 32 < (end + 2 ^ 32 - start) % 2 ^ 32)

  hash_in_range-LiesInRange :
      (h : ℕ)
      → h < 2 ^ 32
      → start < 2 ^ 32
      → end < 2 ^ 32
      → hash_in_range h start end ≡ true
      → LiesInRange h
  unfolding hash_in_range
  hash_in_range-LiesInRange h b s e t = elim (ℕ_discrete start end) [
    | yes p ↦ inl p
    | no n ↦ inr (ground arith)
  ]

  LiesInRange-hash_in_range :
      (h : ℕ)
      → h < 2 ^ 32
      → start < 2 ^ 32
      → end < 2 ^ 32
      → LiesInRange h
      → hash_in_range h start end ≡ true
  unfolding hash_in_range
  LiesInRange-hash_in_range h b s e (inl p) = ground arith
  LiesInRange-hash_in_range h b s e (inr l) = ground arith

  -- With hashes, a start and an end below 2^32: on a free cache GetKeysInHashRange lists a key
  -- exactly when it is in the map and its hash is met before the end by who walks round the ring from
  -- the start (every hash, when the start is the end), and CountKeysInRange returns the length of
  -- that list.
  pub keys_in_range_iff :
      (c : Cache)
      → ((k : Bytes) → hash k < 2 ^ 32)
      → start < 2 ^ 32
      → end < 2 ^ 32
      → c.held ≡ false
      → (ks : List Bytes) × (get_keys_in_hash_range c ≡ done ks)
        × (count_keys_in_range c ≡ done (length ks))
        × ((k : Bytes)
            → Within k ks
              ↔ (LiesInRange (hash k) × ((item : CacheItem) × (get k c.entries ≡ some item))))
  unfolding get_keys_in_hash_range count_keys_in_range
  keys_in_range_iff c b s e free = (
    matching_keys c.entries,
    ground (arith, free),
    ground (arith, free, count-matching c.entries),
    λ k. (
      λ w.
          let (t, f) = keys_sound c.entries k w in
          (hash_in_range-LiesInRange (hash k) (b k) s e t, f),
      λ (l, (i, g)). keys_complete c.entries k i g (LiesInRange-hash_in_range (hash k) (b k) s e l),
    ),
  )

-- For two different points of the ring a hash lies in exactly one of the two ranges between them.
pub hash_in_range-complement : (h a b : ℕ) → a ≢ b → hash_in_range h a b ≡ not (hash_in_range h b a)
unfolding hash_in_range
hash_in_range-complement h a b ne = ground arith
