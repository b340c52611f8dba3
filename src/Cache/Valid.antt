-- ===== src/Cache/Valid.antt =====
-- The invariant of internal/cache/cache.go, and that the parts of each operation keep it.
use gocache.Prelude.{
  ℕ, suc, ne_of_Within, ◌+◌, ◌%◌, ◌^◌, ◌<◌, ◌≤◌, ◌≡◌, ◌≢◌, Option, none, some, List, [], ◌∷◌, ◌++◌,
  arith, done, Within-split, Within-at, length, length-append,
}
use mathlib.Core.Path.{subst}
use gocache.Prelude.Maps.{
  Bytes, get, put, delete, IsMap, IsMap-put, IsMap-delete, total, length-put_new, length-put_old,
  length-delete, bytes_key,
}
use gocache.Lru
use gocache.Lru.{Lru}
use gocache.Lru.Moves.{IsList}
use gocache.Lru.Laws.{remove_node-Leaves, move_to_front-Leaves, remove_lru-Leaves, add-Leaves}
use gocache.Cache.{Cache, CacheItem, Data, item_size, add64, sub64}
use gocache.Cache.Tied.{Tied, Tied-same_keys, Tied-move, Tied-remove, Tied-add, Tied-update}

abbrev pub key_of : Lru → ℕ → Bytes
key_of l n = (l.nodes n).key

abbrev pub charge : Bytes → CacheItem → ℕ
charge key item = item_size key item.value

-- What `currentMemoryBytes` should be.
abbrev pub memory : Data → ℕ
memory m = total charge m

-- The list, the map and their tie; `ns` are the nodes from the most to the least recently used.
pub record IsLinked (l : Lru) (m : Data) (ns : List ℕ) : Type 0 where
  pub list : IsList l ns
  pub is_map : IsMap m
  pub tied : Tied (key_of l) m ns
  pub counted : length m ≡ length ns

-- With the bound on the size and the memory count, modulo 2^64.
pub record IsValid (c : Cache) (ns : List ℕ) : Type 0 where
  pub linked : IsLinked c.lru c.entries ns
  pub charged : c.bytes ≡ memory c.entries % 2 ^ 64
  pub bounded : length c.entries ≤ c.max_size
  pub positive : 0 < c.max_size

pub add64-charged : (b a s : ℕ) → b ≡ a % 2 ^ 64 → add64 b s ≡ (a + s) % 2 ^ 64
unfolding add64
add64-charged b a s h = omega arith

-- Subtracting what is part of the sum never leaves it wrong, whatever wraps round.
pub sub64-charged : (b a r s : ℕ) → b ≡ a % 2 ^ 64 → r + s ≡ a → sub64 b s ≡ r % 2 ^ 64
unfolding sub64
sub64-charged b a r s h e = omega arith

length-middle :
    (xs : List ℕ) (n : ℕ) (ys : List ℕ) → length (xs ++ n ∷ ys) ≡ suc (length (xs ++ ys))
length-middle xs n ys = omega (arith, length-append xs (n ∷ ys), length-append xs ys)

-- RemoveNode and delete together take one key out of the list and the map.
pub IsLinked-remove :
    (l : Lru) (m : Data) (key : Bytes) (item : CacheItem) (xs ys : List ℕ)
    → get key m ≡ some item
    → IsLinked l m (xs ++ item.node ∷ ys)
    → (l' : Lru) × (Lru.remove_node item.node l ≡ done l')
      × IsLinked l' (delete key m) (xs ++ ys)
      × ((n : ℕ) → key_of l' n ≡ key_of l n)
IsLinked-remove l m key item xs ys g v =
    let (l', ran, r, same) = remove_node-Leaves l item.node xs ys v.list in
    let (_, e) = v.tied.node_of key item g in
    let t : Tied (key_of l) (delete key m) (xs ++ ys) =
      subst (λ k. Tied (key_of l) (delete k m) (xs ++ ys)) e
        (Tied-remove xs item.node ys v.list.distinct v.tied) in
    (
      l',
      ran,
      record {
        list = r;
        is_map = IsMap-delete key m v.is_map;
        tied = Tied-same_keys (λ n _. same.key_at n) t;
        counted =
            omega (
              arith,
              v.counted,
              length-delete key item m v.is_map g,
              length-middle xs item.node ys,
            );
      },
      same.key_at,
    )

-- MoveToFront with a new value under the key of the node.
pub IsLinked-update :
    (l : Lru) (m : Data) (key : Bytes) (old item : CacheItem) (xs ys : List ℕ)
    → get key m ≡ some old
    → item.node ≡ old.node
    → IsLinked l m (xs ++ old.node ∷ ys)
    → (l' : Lru) × (Lru.move_to_front old.node l ≡ done l')
      × IsLinked l' (put key item m) (old.node ∷ xs ++ ys)
      × ((n : ℕ) → key_of l' n ≡ key_of l n)
IsLinked-update l m key old item xs ys g at v =
    let (l', ran, r, same) = move_to_front-Leaves l old.node xs ys v.list in
    (
      l',
      ran,
      record {
        list = r;
        is_map = IsMap-put key item m v.is_map;
        tied =
            Tied-same_keys (λ n _. same.key_at n)
              (Tied-update key old item g at (Tied-move xs old.node ys v.tied));
        counted =
            omega (arith, v.counted, length-put_old key item old m g, length-middle xs old.node ys);
      },
      same.key_at,
    )

-- MoveToFront alone.
pub IsLinked-touch :
    (l : Lru) (m : Data) (n : ℕ) (xs ys : List ℕ)
    → IsLinked l m (xs ++ n ∷ ys)
    → (l' : Lru) × (Lru.move_to_front n l ≡ done l')
      × IsLinked l' m (n ∷ xs ++ ys)
      × ((k : ℕ) → key_of l' k ≡ key_of l k)
IsLinked-touch l m n xs ys v =
    let (l', ran, r, same) = move_to_front-Leaves l n xs ys v.list in
    (
      l',
      ran,
      record {
        list = r;
        is_map = v.is_map;
        tied = Tied-same_keys (λ k _. same.key_at k) (Tied-move xs n ys v.tied);
        counted = omega (arith, v.counted, length-middle xs n ys);
      },
      same.key_at,
    )

-- Add with a new entry.
pub IsLinked-add :
    (l : Lru) (m : Data) (key value : Bytes) (exp : Option ℕ) (ns : List ℕ)
    → get key m ≡ none
    → IsLinked l m ns
    → (l' : Lru) × (Lru.add key l ≡ done (l.fresh, l'))
      × IsLinked l'
          (put key (record { value = value; expires_at = exp; node = l.fresh }) m)
          (l.fresh ∷ ns)
      × (key_of l' l.fresh ≡ key)
      × ((n : ℕ) → n ≢ l.fresh → key_of l' n ≡ key_of l n)
IsLinked-add l m key value exp ns g v =
    let item : CacheItem = record { value = value; expires_at = exp; node = l.fresh } in
    let (l', ran, r, at_new, same, _) = add-Leaves l key ns v.list in
    let t : Tied (key_of l') m ns =
      Tied-same_keys (λ n w. same n (ne_of_Within ns r.distinct.0 w)) v.tied in
    (
      l',
      ran,
      record {
        list = r;
        is_map = IsMap-put key item m v.is_map;
        tied =
            subst (λ k. Tied (key_of l') (put k item m) (l.fresh ∷ ns)) at_new
              (Tied-add item (rw at_new g) t);
        counted = omega (arith, v.counted, length-put_new key item m g);
      },
      at_new,
      same,
    )

-- RemoveLRU with the deletion of the key that it returns.
pub IsLinked-evict :
    (l : Lru) (m : Data) (n : ℕ) (xs : List ℕ)
    → IsLinked l m (xs ++ n ∷ [])
    → (l' : Lru) × (Lru.remove_lru l ≡ done (key_of l n, l'))
      × IsLinked l' (delete (key_of l n) m) (xs ++ [])
      × ((k : ℕ) → key_of l' k ≡ key_of l k)
IsLinked-evict l m n xs v =
    let (l', ran, r, same) = remove_lru-Leaves l n xs v.list in
    let (item, g, _) = v.tied.item_of n (Within-at n xs []) in
    (
      l',
      ran,
      record {
        list = r;
        is_map = IsMap-delete (key_of l n) m v.is_map;
        tied = Tied-same_keys (λ k _. same.key_at k) (Tied-remove xs n [] v.list.distinct v.tied);
        counted =
            omega (
              arith,
              v.counted,
              length-delete (key_of l n) item m v.is_map g,
              length-middle xs n [],
            );
      },
      same.key_at,
    )

-- A key of the map has its node somewhere in the list.
pub IsLinked-split :
    (l : Lru) (m : Data) (key : Bytes) (item : CacheItem) (ns : List ℕ)
    → get key m ≡ some item
    → IsLinked l m ns
    → (xs : List ℕ) × (ys : List ℕ) × (ns ≡ xs ++ item.node ∷ ys)
IsLinked-split l m key item ns g v = Within-split item.node ns (v.tied.node_of key item g).0
