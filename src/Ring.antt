-- ===== src/Ring.antt =====
-- internal/cluster/hash.go: the consistent hash ring. The hash function (SHA-256, cut to 32 bits)
-- is a parameter of the code that calls it.
pub mod Search
pub mod Positions
pub mod Owners
pub mod Migration
pub mod Ranges
mod Tests
use gocache.Prelude.{
  ℕ, zero, suc, ◌+◌, ◌/◌, Bool, true, false, Option, none, some, List, [], ◌∷◌, ◌++◌, length,
  get_elem?, ltb, leb, ◌==◌, if◌then◌else◌,
}
use gocache.Prelude.Maps.{Bytes, get, put, delete, bytes_key, nat_key, bytes_discrete}
use gocache.Prelude.Decimal.{format_nat}

pub record HashRing : Type 0 where
  pub hash_values : List ℕ
  pub hash_to_shard : List (ℕ × Bytes)
  pub node_addresses : List (Bytes × Bytes)
  pub virtual_nodes : ℕ
  pub shard_to_nodes : List (Bytes × List Bytes)

abbrev pub new_hash_ring : ℕ → HashRing
new_hash_ring virtual_nodes = record {
  hash_values = [];
  hash_to_shard = [];
  node_addresses = [];
  virtual_nodes = virtual_nodes;
  shard_to_nodes = [];
}

pub data RingError : Type 0 where
  empty_ring shard_not_found no_nodes : RingError

pub data RingResult {ℓ} (A : Type ℓ) : Type ℓ where
  ok : A → RingResult A
  err : RingError → RingResult A

-- `fmt.Sprintf("%s-%d", shardID, i)`
abbrev pub virtual_key : Bytes → ℕ → Bytes
virtual_key shard i = shard ++ (b'-' ∷ format_nat i)

-- `sort.Slice` by `<`
unfoldable pub insert_sorted : ℕ → List ℕ → List ℕ
insert_sorted v [] = v ∷ []
insert_sorted v (x ∷ xs) = let rest = insert_sorted v xs in if ltb v x then v ∷ x ∷ xs else x ∷ rest

unfoldable pub sort_into : List ℕ → List ℕ → List ℕ
unfolding insert_sorted
sort_into [] sorted = sorted
sort_into (v ∷ vs) sorted = sort_into vs (insert_sorted v sorted)

-- The `i` rounds of the loop of AddShard, from round `from`: the values to append, and the map.
module _ (hash : Bytes → ℕ) where
  unfoldable pub virtual_hashes : Bytes → ℕ → ℕ → List ℕ
  virtual_hashes shard from zero = []
  virtual_hashes shard from (suc n) =
      hash (virtual_key shard from) ∷ virtual_hashes shard (from + 1) n

  unfoldable pub claim_all : Bytes → List ℕ → List (ℕ × Bytes) → List (ℕ × Bytes)
  claim_all shard [] m = m
  claim_all shard (v ∷ vs) m = claim_all shard vs (put v shard m)

  unfoldable pub add_shard : Bytes → HashRing → HashRing
  unfolding virtual_hashes claim_all sort_into
  add_shard shard r =
      let vs = virtual_hashes shard 0 r.virtual_nodes in
      record r {
        hash_to_shard = claim_all shard vs r.hash_to_shard;
        hash_values = sort_into (r.hash_values ++ vs) [];
      }

  -- The inner loop of RemoveShard: the first position with the value goes.
  unfoldable pub remove_first : ℕ → List ℕ → List ℕ
  remove_first v [] = []
  remove_first v (x ∷ xs) = let rest = remove_first v xs in if x == v then xs else x ∷ rest

  unfoldable pub remove_all : List ℕ → HashRing → HashRing
  unfolding remove_first
  remove_all [] r = r
  remove_all (v ∷ vs) r = remove_all vs (record r {
    hash_to_shard = delete v r.hash_to_shard;
    hash_values = remove_first v r.hash_values;
  })

  unfoldable pub remove_shard : Bytes → HashRing → HashRing
  unfolding virtual_hashes remove_all
  remove_shard shard r = remove_all (virtual_hashes shard 0 r.virtual_nodes) r

-- `xs[i]`, where the code has made sure that it is there
abbrev pub value_at : List ℕ → ℕ → ℕ
value_at [] i = 0
value_at (x ∷ xs) zero = x
value_at (x ∷ xs) (suc i) = value_at xs i

-- The loop of `sort.Search(len(xs), func(i) { return xs[i] >= v })`.
unfoldable pub search_between : ℕ → List ℕ → ℕ → ℕ → ℕ → ℕ
search_between zero xs v i j = i
search_between (suc f) xs v i j =
    let h = (i + j) / 2 in
    let right = search_between f xs v (h + 1) j in
    let left = search_between f xs v i h in
    if ltb i j then (if ltb (value_at xs h) v then right else left) else i

unfoldable pub search_ge : List ℕ → ℕ → ℕ
unfolding search_between
search_ge xs v = search_between (suc (length xs)) xs v 0 (length xs)

-- A missing key of a Go map reads as the empty string.
abbrev pub or_empty : Option Bytes → Bytes
or_empty none = []
or_empty (some s) = s

-- The value of the position that owns a hash; `if idx >= len { idx = 0 }` wraps round.
unfoldable pub successor : List ℕ → ℕ → ℕ
unfolding search_ge
successor xs v = let idx = search_ge xs v in value_at xs (if leb (length xs) idx then 0 else idx)

unfoldable pub is_empty : List ℕ → Bool
is_empty [] = true
is_empty (x ∷ xs) = false

module _ (hash : Bytes → ℕ) where
  unfoldable pub get_shard : Bytes → HashRing → RingResult Bytes
  unfolding is_empty
  get_shard key r =
      if is_empty r.hash_values
      then err empty_ring
      else ok (or_empty (get (successor r.hash_values (hash key)) r.hash_to_shard))

-- GetNode has the same body.
abbrev pub get_node : (Bytes → ℕ) → Bytes → HashRing → RingResult Bytes
get_node = get_shard

abbrev pub get_node_address : Bytes → HashRing → Bytes
get_node_address node r = or_empty (get node r.node_addresses)

abbrev pub set_node_address : Bytes → Bytes → HashRing → HashRing
set_node_address node address r = record r { node_addresses = put node address r.node_addresses }

abbrev pub set_shard_nodes : Bytes → List Bytes → HashRing → HashRing
set_shard_nodes shard nodes r = record r { shard_to_nodes = put shard nodes r.shard_to_nodes }

abbrev pub found_nodes : Option (List Bytes) → RingResult (List Bytes)
found_nodes none = err shard_not_found
found_nodes (some nodes) = ok nodes

abbrev pub get_shard_nodes : Bytes → HashRing → RingResult (List Bytes)
get_shard_nodes shard r = found_nodes (get shard r.shard_to_nodes)

abbrev pub leader_of : RingResult (List Bytes) → RingResult Bytes
leader_of (err e) = err e
leader_of (ok []) = err no_nodes
leader_of (ok (n ∷ ns)) = ok n

abbrev pub get_shard_leader : Bytes → HashRing → RingResult Bytes
get_shard_leader shard r = leader_of (get_shard_nodes shard r)

abbrev pub followers_of : RingResult (List Bytes) → RingResult (List Bytes)
followers_of (err e) = err e
followers_of (ok []) = ok []
followers_of (ok (n ∷ ns)) = ok ns

abbrev pub get_shard_followers : Bytes → HashRing → RingResult (List Bytes)
get_shard_followers shard r = followers_of (get_shard_nodes shard r)
