-- ===== src/Ring/Owners.antt =====
-- internal/cluster/hash.go: who owns a key, before and after a shard joins.
use gocache.Prelude.{
  ℕ, zero, suc, ◌+◌, ◌<◌, ◌≡◌, refl, ap, ◌∙◌, ◌⊎◌, inl, inr, false, some, List, [], ◌∷◌, arith,
  Within, length,
}
use gocache.Prelude.Maps.{Bytes, get, put, get-put, nat_key, bytes_key}
use gocache.Ring.{
  HashRing, ok, sort_into, claim_all, virtual_hashes, add_shard, get_shard, successor, is_empty,
}
use gocache.Ring.Search.{IsSorted}
use gocache.Ring.Search.{IsSorted}
use gocache.Ring.Positions.{
  sort_into-IsSorted, add_values, length-sort_into, successor-sort_into, Within-sort_into,
}

-- The positions are sorted and each belongs to a shard.
pub record IsRing (r : HashRing) : Type 0 where
  pub sorted : IsSorted r.hash_values
  pub owned : (h : ℕ) → Within h r.hash_values → (s : Bytes) × (get h r.hash_to_shard ≡ some s)

module _ (hash : Bytes → ℕ) (shard : Bytes) where
  get-claim_all :
      (vs : List ℕ) (m : List (ℕ × Bytes)) (h : ℕ)
      → (get h (claim_all hash shard vs m) ≡ some shard)
        ⊎ (get h (claim_all hash shard vs m) ≡ get h m)
  unfolding claim_all
  get-claim_all [] m h = inr refl
  get-claim_all (v ∷ vs) m h =
      ground (arith, get-claim_all vs (put v shard m) h, get-put v h shard m)

  get-claim_all-Within :
      (vs : List ℕ) (m : List (ℕ × Bytes)) (h : ℕ)
      → Within h vs
      → get h (claim_all hash shard vs m) ≡ some shard
  unfolding claim_all
  get-claim_all-Within [] m h w = absurd (w tt)
  get-claim_all-Within (v ∷ vs) m h (inl p) =
      ground (arith, p, get-claim_all vs (put v shard m) h, get-put v h shard m)
  get-claim_all-Within (v ∷ vs) m h (inr w) = get-claim_all-Within vs (put v shard m) h w

length-virtual_hashes :
    (hash : Bytes → ℕ) (shard : Bytes) (i n : ℕ) → length (virtual_hashes hash shard i n) ≡ n
unfolding virtual_hashes
length-virtual_hashes hash shard i zero = refl
length-virtual_hashes hash shard i (suc n) = ap suc (length-virtual_hashes hash shard (i + 1) n)

pub not_empty : (xs : List ℕ) → 0 < length xs → is_empty xs ≡ false
unfolding is_empty
not_empty [] h = absurd (omega arith)
not_empty (x ∷ xs) h = refl

module _ (hash : Bytes → ℕ) (r : HashRing) (valid : IsRing r) (shard : Bytes) where
  -- On a ring whose positions are sorted and owned, AddShard keeps them so and adds one position
  -- for each virtual node.
  pub add_shard-IsRing :
      IsRing (add_shard hash shard r)
      × (length (add_shard hash shard r).hash_values ≡ r.virtual_nodes + length r.hash_values)
  unfolding add_shard
  add_shard-IsRing =
      let vs = virtual_hashes hash shard 0 r.virtual_nodes in
      let values = add_values r.hash_values vs valid.sorted in
      (
        record {
          sorted = rw values (sort_into-IsSorted vs r.hash_values valid.sorted);
          owned = λ h w. elim (Within-sort_into h vs r.hash_values (rw values at w)) [
            | inl new ↦ (shard, get-claim_all-Within hash shard vs r.hash_to_shard h new)
            | inr old ↦
                let (s, g) = valid.owned h old in
                elim (get-claim_all hash shard vs r.hash_to_shard h) [
                  | inl p ↦ (shard, p)
                  | inr p ↦ (s, p ∙ g)
                ]
          ];
        },
        rw values (
            length-sort_into vs r.hash_values
            ∙ ap (λ (k : ℕ). k + length r.hash_values)
                (length-virtual_hashes hash shard 0 r.virtual_nodes)),
      )

  -- Whatever the hash function: on a ring whose positions are sorted, owned and at least one,
  -- every key belongs after AddShard to the new shard or to the shard it belonged to before.
  pub add_shard-moves :
      (key : Bytes)
      → 0 < length r.hash_values
      → (get_shard hash key (add_shard hash shard r) ≡ ok shard)
        ⊎ (get_shard hash key (add_shard hash shard r) ≡ get_shard hash key r)
  unfolding add_shard get_shard
  add_shard-moves key some_values =
      let vs = virtual_hashes hash shard 0 r.virtual_nodes in
      let values = add_values r.hash_values vs valid.sorted in
      let full = not_empty r.hash_values some_values in
      let full' =
        not_empty (sort_into vs r.hash_values) (omega (arith, length-sort_into vs r.hash_values)) in
      let v = hash key in
      let at = successor (sort_into vs r.hash_values) v in
      rw (values, full, full')
        (elim (successor-sort_into vs v r.hash_values valid.sorted some_values) [
          | inl new ↦ inl (rw (get-claim_all-Within hash shard vs r.hash_to_shard at new) refl)
          | inr same ↦ elim (get-claim_all hash shard vs r.hash_to_shard at) [
            | inl p ↦ inl (rw p refl)
            | inr p ↦ inr (rw (p, same) refl)
          ]
        ])
