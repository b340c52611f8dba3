-- ===== src/Cache/Tied.antt =====
-- The map and the list of internal/cache/cache.go hold the same keys: each item points to the
-- node of its key, and each node is the one that the item of its key points to.
use gocache.Prelude.{
  ℕ, ◌≡◌, sym, ap, ◌∙◌, ◌≢◌, inl, inr, none, some, List, ◌∷◌, ◌++◌, arith, Distinct, Within,
  Within-middle, Within-insert, Within-at, Distinct-middle, ne_of_Within, some_inj,
}
use gocache.Prelude.Maps.{Bytes, get, put, delete, get-put, get-delete, bytes_key, bytes_discrete}
use gocache.Cache.{CacheItem, Data}

pub record Tied (key : ℕ → Bytes) (m : Data) (ns : List ℕ) : Type 0 where
  pub node_of :
      (k : Bytes) (item : CacheItem)
      → get k m ≡ some item
      → Within item.node ns × (key item.node ≡ k)
  pub item_of :
      (n : ℕ) → Within n ns → (item : CacheItem) × (get (key n) m ≡ some item) × (item.node ≡ n)

-- The keys of other nodes do not matter.
pub Tied-same_keys :
    {key key' : ℕ → Bytes} {m : Data} {ns : List ℕ}
    → ((n : ℕ) → Within n ns → key' n ≡ key n)
    → Tied key m ns
    → Tied key' m ns
Tied-same_keys same t = record {
  node_of = λ k item h. let (w, e) = t.node_of k item h in (w, same item.node w ∙ e);
  item_of = λ n w. rw (same n w) (t.item_of n w);
}

-- Moving a node to the front.
pub Tied-move :
    {key : ℕ → Bytes} {m : Data} (xs : List ℕ) (n : ℕ) (ys : List ℕ)
    → Tied key m (xs ++ n ∷ ys)
    → Tied key m (n ∷ xs ++ ys)
Tied-move xs n ys t = record {
  node_of = λ k item h. let (w, e) = t.node_of k item h in (Within-middle item.node xs n ys w, e);
  item_of = λ a w. t.item_of a (from_front a w);
}
  where
    from_front : (a : ℕ) → Within a (n ∷ xs ++ ys) → Within a (xs ++ n ∷ ys)
    from_front a (inl p) = rw (← p) (Within-at n xs ys)
    from_front a (inr w) = Within-insert a xs n ys w

node_inj :
    {key : ℕ → Bytes} {m : Data} {ns : List ℕ}
    → Tied key m ns
    → (a b : ℕ) → Within a ns
    → Within b ns
    → key a ≡ key b
    → a ≡ b
node_inj {key} {m} t a b wa wb e =
    let (x, gx, nx) = t.item_of a wa in
    let (y, gy, ny) = t.item_of b wb in
    let same : x ≡ y = some_inj (sym gx ∙ ap (λ k. get k m) e ∙ gy) in
    sym nx ∙ ap (λ (i : CacheItem). i.node) same ∙ ny

-- Removing a node with the entry of its key.
pub Tied-remove :
    {key : ℕ → Bytes} {m : Data} (xs : List ℕ) (n : ℕ) (ys : List ℕ)
    → Distinct (xs ++ n ∷ ys)
    → Tied key m (xs ++ n ∷ ys)
    → Tied key (delete (key n) m) (xs ++ ys)
Tied-remove {key} {m} xs n ys d t = record {
  node_of = λ k item h.
      let r : (key n ≢ k) × (get k m ≡ some item) = ground (arith, get-delete (key n) k m) in
      let (w, e) = t.node_of k item r.1 in
      (
        elim (Within-middle item.node xs n ys w) [
          | inl p ↦ absurd (r.0 (ap key p ∙ e))
          | inr v ↦ v
        ],
        e,
      );
  item_of = λ a w.
      let wa = Within-insert a xs n ys w in
      let (item, g, e) = t.item_of a wa in
      let ne : key n ≢ key a = λ p.
        ne_of_Within (xs ++ ys) (Distinct-middle xs n ys d).1 w
          (sym (node_inj t n a (Within-at n xs ys) wa p)) in
      (item, ground (arith, get-delete (key n) (key a) m), e);
}

-- A new node with an entry under its key.
pub Tied-add :
    {key : ℕ → Bytes} {m : Data} {ns : List ℕ} (item : CacheItem)
    → get (key item.node) m ≡ none
    → Tied key m ns
    → Tied key (put (key item.node) item m) (item.node ∷ ns)
Tied-add {key} {m} {ns} item new t = record {
  node_of = λ k i h. elim (bytes_discrete (key item.node) k) [
    | yes p ↦
        let e : item ≡ i = ground (arith, get-put (key item.node) k item m) in
        (inl (ap (λ (x : CacheItem). x.node) e), ap (λ (x : CacheItem). key x.node) (sym e) ∙ p)
    | no p ↦
        let (w, e) = t.node_of k i (ground (arith, get-put (key item.node) k item m)) in (inr w, e)
  ];
  item_of = λ a w. found a w;
}
  where
    found :
        (a : ℕ)
        → Within a (item.node ∷ ns)
        → (i : CacheItem) × (get (key a) (put (key item.node) item m) ≡ some i) × (i.node ≡ a)
    found a (inl p) = (item, ground (arith, get-put (key item.node) (key a) item m, ap key p), p)
    found a (inr w) =
        let (i, g, e) = t.item_of a w in
        let ne : key item.node ≢ key a = λ p. ground (arith, ap (λ k. get k m) p) in
        (i, ground (arith, get-put (key item.node) (key a) item m), e)

-- A new value under a key that is there, at the same node.
pub Tied-update :
    {key : ℕ → Bytes} {m : Data} {ns : List ℕ} (k : Bytes) (old item : CacheItem)
    → get k m ≡ some old
    → item.node ≡ old.node
    → Tied key m ns
    → Tied key (put k item m) ns
Tied-update {key} {m} {ns} k old item g same t = record {
  node_of = λ j i h. elim (bytes_discrete k j) [
    | yes p ↦
        let e : item ≡ i = ground (arith, get-put k j item m) in
        let at_old : i.node ≡ old.node = ap (λ (x : CacheItem). x.node) (sym e) ∙ same in
        let (w, r) = t.node_of k old g in rw at_old (w, r ∙ p)
    | no p ↦ t.node_of j i (ground (arith, get-put k j item m))
  ];
  item_of = λ a w.
      let (i, gi, e) = t.item_of a w in
      elim (bytes_discrete k (key a)) [
        | yes p ↦
            let is_old : old ≡ i = some_inj (sym g ∙ ap (λ x. get x m) p ∙ gi) in
            (
              item,
              ground (arith, get-put k (key a) item m),
              same ∙ ap (λ (x : CacheItem). x.node) is_old ∙ e,
            )
        | no p ↦ (i, ground (arith, get-put k (key a) item m), e)
      ];
}
