-- ===== src/Cache/Contents.antt =====
-- The abstract entries that a cache stands for, and how they follow the list and the map.
use mathlib.Core.List.{map-append, append-nil}
use mathlib.Core.Path.{subst}
use gocache.Prelude.{
  ℕ, suc, length, ◌≡◌, refl, sym, ap, ◌∙◌, ◌≢◌, inl, inr, Option, none, some, List, [], ◌∷◌, ◌++◌,
  map, arith, Within, Within-insert, Within-at, Distinct-middle, ne_of_Within, some_inj, if_neg,
}
use gocache.Prelude.Maps.{
  Bytes, get, put, delete, Missing, get-put, get-delete, delete-Missing, bytes_key, bytes_discrete,
}
use gocache.Lru.{Lru}
use gocache.Cache.{CacheItem, Data}
use gocache.Cache.Spec.{Entry, drop_last}
use gocache.Cache.Valid.{IsLinked, key_of, IsLinked-split}

abbrev pub payload_of : CacheItem → Bytes × Option ℕ
payload_of item = (item.value, item.expires_at)

abbrev pub payload : Option CacheItem → Bytes × Option ℕ
payload none = ([], none)
payload (some item) = payload_of item

abbrev pub entry_at : Lru → Data → ℕ → Entry
entry_at l m n = (key_of l n, payload (get (key_of l n) m))

abbrev pub contents : Lru → Data → List ℕ → List Entry
contents l m ns = map (entry_at l m) ns

map-eq-Within :
    (f g : ℕ → Entry) (ns : List ℕ) → ((n : ℕ) → Within n ns → f n ≡ g n) → map f ns ≡ map g ns
map-eq-Within f g [] h = refl
map-eq-Within f g (n ∷ ns) h = rw (h n (inl refl), map-eq-Within f g ns (λ k w. h k (inr w)))

-- Entries stay where the keys and the items of their nodes do.
pub contents_same :
    (l l' : Lru) (m m' : Data) (ns : List ℕ)
    → ((n : ℕ) → Within n ns → key_of l' n ≡ key_of l n)
    → ((n : ℕ) → Within n ns → get (key_of l n) m' ≡ get (key_of l n) m)
    → contents l' m' ns ≡ contents l m ns
contents_same l l' m m' ns keys items =
    map-eq-Within (entry_at l' m') (entry_at l m) ns (λ n w. rw (keys n w, items n w))

Missing-contents :
    (l : Lru) (m : Data) (k : Bytes) (ns : List ℕ)
    → ((n : ℕ) → Within n ns → key_of l n ≢ k)
    → Missing k (contents l m ns)
Missing-contents l m k [] h = tt
Missing-contents l m k (n ∷ ns) h = (h n (inl refl), Missing-contents l m k ns (λ j w. h j (inr w)))

delete-append : (k : Bytes) (es fs : List Entry) → delete k (es ++ fs) ≡ delete k es ++ delete k fs
unfolding delete
delete-append k [] fs = refl
delete-append k ((j, v) ∷ es) fs = ground (arith, delete-append k es fs)

get-middle :
    (k : Bytes) (es : List Entry) (v : Bytes × Option ℕ) (fs : List Entry)
    → Missing k es
    → get k (es ++ (k, v) ∷ fs) ≡ some v
unfolding get
get-middle k [] v fs h = ground arith
get-middle k ((j, w) ∷ es) v fs h = rw (if_neg _ h.0) (get-middle k es v fs h.1)

delete-middle :
    (k : Bytes) (v : Bytes × Option ℕ) (fs : List Entry)
    → Missing k fs
    → delete k ((k, v) ∷ fs) ≡ fs
unfolding delete
delete-middle k v fs h = ground (arith, delete-Missing k fs h)

-- The nodes beside the one of a key have other keys.
pub other_keys :
    (l : Lru) (m : Data) (key : Bytes) (item : CacheItem) (xs ys : List ℕ)
    → get key m ≡ some item
    → IsLinked l m (xs ++ item.node ∷ ys)
    → (n : ℕ) → Within n (xs ++ ys)
    → key_of l n ≢ key
other_keys l m key item xs ys g v n w e =
    let wn = Within-insert n xs item.node ys w in
    let (i, gi, at) = v.tied.item_of n wn in
    let same : item ≡ i = some_inj (sym g ∙ ap (λ k. get k m) (sym e) ∙ gi) in
    ne_of_Within (xs ++ ys) (Distinct-middle xs item.node ys v.list.distinct).1 w
      (sym at ∙ ap (λ (x : CacheItem). x.node) (sym same))

Within-left : (n : ℕ) (xs ys : List ℕ) → Within n xs → Within n (xs ++ ys)
Within-left n [] ys w = absurd (w tt)
Within-left n (x ∷ xs) ys (inl p) = inl p
Within-left n (x ∷ xs) ys (inr w) = inr (Within-left n xs ys w)

Within-right : (n : ℕ) (xs ys : List ℕ) → Within n ys → Within n (xs ++ ys)
Within-right n [] ys w = w
Within-right n (x ∷ xs) ys w = inr (Within-right n xs ys w)

-- Deleting a key of the abstract entries takes out the entry of its node.
pub delete-contents :
    (l : Lru) (m : Data) (key : Bytes) (item : CacheItem) (xs ys : List ℕ)
    → get key m ≡ some item
    → IsLinked l m (xs ++ item.node ∷ ys)
    → delete key (contents l m (xs ++ item.node ∷ ys)) ≡ contents l m (xs ++ ys)
delete-contents l m key item xs ys g v =
    let other = other_keys l m key item xs ys g v in
    let left = Missing-contents l m key xs (λ n w. other n (Within-left n xs ys w)) in
    let right = Missing-contents l m key ys (λ n w. other n (Within-right n xs ys w)) in
    let at = (v.tied.node_of key item g).1 in
    rw (map-append, delete-append)
      (rw
        (
          delete-Missing key (contents l m xs) left,
          at,
          delete-middle key (payload (get key m)) (contents l m ys) right,
        )
        (sym (map-append (entry_at l m) xs ys)))

-- A key that is missing from the map is missing from the abstract entries.
pub contents-Missing :
    (l : Lru) (m : Data) (key : Bytes) (ns : List ℕ)
    → get key m ≡ none
    → IsLinked l m ns
    → Missing key (contents l m ns)
contents-Missing l m key ns g v =
    Missing-contents l m key ns
      (λ n w e. let (i, gi, at) = v.tied.item_of n w in ground (arith, ap (λ k. get k m) e))

-- The abstract entries and the map answer alike.
pub get-contents :
    (l : Lru) (m : Data) (key : Bytes) (item : CacheItem) (ns : List ℕ)
    → get key m ≡ some item
    → IsLinked l m ns
    → get key (contents l m ns) ≡ some (payload_of item)
get-contents l m key item ns g v =
    let (xs, ys, e) = IsLinked-split l m key item ns g v in
    let v' = subst (λ (zs : List ℕ). IsLinked l m zs) e v in
    let other = other_keys l m key item xs ys g v' in
    let left = Missing-contents l m key xs (λ n w. other n (Within-left n xs ys w)) in
    let at = (v'.tied.node_of key item g).1 in
    rw (e, map-append, at, g)
      (get-middle key (contents l m xs) (payload_of item) (contents l m ys) left)

-- A write at another key is not seen.
get-put_other : (m : Data) (k j : Bytes) (item : CacheItem) → j ≢ k → get j (put k item m) ≡ get j m
get-put_other m k j item ne = get-put k j item m ∙ if_neg (bytes_discrete k j) (λ p. ne (sym p)) _ _

get-put_self : (m : Data) (k : Bytes) (item : CacheItem) → get k (put k item m) ≡ some item
get-put_self m k item = ground (arith, get-put k k item m)

get-delete_other : (m : Data) (k j : Bytes) → j ≢ k → get j (delete k m) ≡ get j m
get-delete_other m k j ne = get-delete k j m ∙ if_neg (bytes_discrete k j) (λ p. ne (sym p)) _ _

-- The entry of a node under whose key an item was put.
entry_at-put :
    (l : Lru) (m : Data) (n : ℕ) (key : Bytes) (item : CacheItem)
    → key_of l n ≡ key
    → entry_at l (put key item m) n ≡ (key, payload_of item)
entry_at-put l m n key item e = rw (e, get-put_self m key item) refl

-- An update at the front replaces the old entry.
pub contents-update :
    (l l' : Lru) (m : Data) (key : Bytes) (old item : CacheItem) (xs ys : List ℕ)
    → get key m ≡ some old
    → IsLinked l m (xs ++ old.node ∷ ys)
    → ((n : ℕ) → key_of l' n ≡ key_of l n)
    → contents l' (put key item m) (old.node ∷ xs ++ ys)
      ≡ (key, payload_of item) ∷ delete key (contents l m (xs ++ old.node ∷ ys))
contents-update l l' m key old item xs ys g v same =
    let other = other_keys l m key old xs ys g v in
    let at : key_of l' old.node ≡ key = same old.node ∙ (v.tied.node_of key old g).1 in
    rw (entry_at-put l' m old.node key item at, delete-contents l m key old xs ys g v)
      (ap (◌∷◌ (key, payload_of item)) (
        contents_same l l' m (put key item m) (xs ++ ys) (λ n _. same n)
          (λ n w. get-put_other m key (key_of l n) item (other n w))))

-- A read at the front moves the entry.
pub contents-touch :
    (l l' : Lru) (m : Data) (key : Bytes) (old : CacheItem) (xs ys : List ℕ)
    → get key m ≡ some old
    → IsLinked l m (xs ++ old.node ∷ ys)
    → ((n : ℕ) → key_of l' n ≡ key_of l n)
    → contents l' m (old.node ∷ xs ++ ys)
      ≡ (key, payload_of old) ∷ delete key (contents l m (xs ++ old.node ∷ ys))
contents-touch l l' m key old xs ys g v same =
    let at : key_of l' old.node ≡ key = same old.node ∙ (v.tied.node_of key old g).1 in
    rw (delete-contents l m key old xs ys g v, at, g)
      (ap (◌∷◌ (key, payload_of old))
        (contents_same l l' m m (xs ++ ys) (λ n _. same n) (λ n _. refl)))

-- A removal takes out the entry.
pub contents-remove :
    (l l' : Lru) (m : Data) (key : Bytes) (old : CacheItem) (xs ys : List ℕ)
    → get key m ≡ some old
    → IsLinked l m (xs ++ old.node ∷ ys)
    → ((n : ℕ) → key_of l' n ≡ key_of l n)
    → contents l' (delete key m) (xs ++ ys) ≡ delete key (contents l m (xs ++ old.node ∷ ys))
contents-remove l l' m key old xs ys g v same =
    let other = other_keys l m key old xs ys g v in
    contents_same l l' m (delete key m) (xs ++ ys) (λ n _. same n)
      (λ n w. get-delete_other m key (key_of l n) (other n w))
    ∙ sym (delete-contents l m key old xs ys g v)

-- A new key comes first.
pub contents-add :
    (l l' : Lru) (m : Data) (key : Bytes) (item : CacheItem) (ns : List ℕ)
    → get key m ≡ none
    → IsLinked l m ns
    → key_of l' item.node ≡ key
    → ((n : ℕ) → Within n ns → key_of l' n ≡ key_of l n)
    → contents l' (put key item m) (item.node ∷ ns) ≡ (key, payload_of item) ∷ contents l m ns
contents-add l l' m key item ns g v at same = rw (entry_at-put l' m item.node key item at) (
    ap (◌∷◌ (key, payload_of item)) (
      contents_same l l' m (put key item m) ns same (λ n w.
        get-put_other m key (key_of l n) item
          (λ e. let (i, gi, _) = v.tied.item_of n w in ground (arith, ap (λ k. get k m) e)))))

drop_last-append {ℓ} : {A : Type ℓ} (xs : List A) (x : A) → drop_last (xs ++ x ∷ []) ≡ xs
drop_last-append [] x = refl
drop_last-append (y ∷ []) x = refl
drop_last-append (y ∷ z ∷ xs) x = ap (◌∷◌ y) (drop_last-append (z ∷ xs) x)

-- An eviction drops the last entry.
pub contents-evict :
    (l l' : Lru) (m : Data) (n : ℕ) (xs : List ℕ)
    → IsLinked l m (xs ++ n ∷ [])
    → ((k : ℕ) → key_of l' k ≡ key_of l k)
    → contents l' (delete (key_of l n) m) (xs ++ []) ≡ drop_last (contents l m (xs ++ n ∷ []))
contents-evict l l' m n xs v same =
    let (item, g, at) = v.tied.item_of n (Within-at n xs []) in
    let v' = subst (λ k. IsLinked l m (xs ++ k ∷ [])) (sym at) v in
    let other = other_keys l m (key_of l n) item xs [] g v' in
    contents_same l l' m (delete (key_of l n) m) (xs ++ []) (λ k _. same k)
      (λ k w. get-delete_other m (key_of l n) (key_of l k) (other k w))
    ∙ rw (append-nil, map-append (entry_at l m) xs (n ∷ []))
        (sym (drop_last-append (contents l m xs) (entry_at l m n)))

pub length-contents : (l : Lru) (m : Data) (ns : List ℕ) → length (contents l m ns) ≡ length ns
length-contents l m [] = refl
length-contents l m (n ∷ ns) = ap suc (length-contents l m ns)
