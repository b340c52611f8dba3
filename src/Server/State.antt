-- ===== src/Server/State.antt =====
-- internal/server/state.go: what a node knows of its role and its cluster. Each call runs under the
-- lock of the state as a whole. A pointer that may be nil is an option.
use gocache.Prelude.{ℕ, Bool, true, false, Option, none, some, [], ◌∷◌, ◌++◌, if◌then◌else◌}
use gocache.Prelude.Maps.{Bytes}
use gocache.Prelude.Decimal.{format_int}
use gocache.Ring.{HashRing, RingResult, ok, err, get_shard, get_shard_leader}
use gocache.Config.{
  Config, NodeInfo, ShardInfo, has_cluster, same_bytes, find_node, get_shard_for_node,
}
use gocache.Replication.Leader.{Leader}

pub record NodeState : Type 0 where
  pub role : Bytes
  pub leader : Option Leader
  pub leader_addr : Bytes
  pub hash_ring : Option HashRing
  pub config : Option Config

abbrev pub new_node_state : Bytes → Option Leader → Bytes → NodeState
new_node_state role leader leader_addr = record {
  role = role;
  leader = leader;
  leader_addr = leader_addr;
  hash_ring = none;
  config = none;
}

abbrev pub set_hash_ring : Option HashRing → NodeState → NodeState
set_hash_ring ring s = record s { hash_ring = ring }

abbrev pub set_config : Option Config → NodeState → NodeState
set_config c s = record s { config = c }

abbrev pub set_role : Bytes → NodeState → NodeState
set_role role s = record s { role = role }

abbrev pub set_leader : Option Leader → NodeState → NodeState
set_leader leader s = record s { leader = leader }

abbrev pub set_leader_addr : Bytes → NodeState → NodeState
set_leader_addr addr s = record s { leader_addr = addr }

-- The ring and the settings, where the node is in a cluster.
abbrev pub cluster_with : Option HashRing → Option Config → Option (HashRing × Config)
cluster_with none c = none
cluster_with (some ring) none = none
cluster_with (some ring) (some c) = if has_cluster c then some (ring, c) else none

abbrev pub cluster_of : NodeState → Option (HashRing × Config)
cluster_of s = cluster_with s.hash_ring s.config

abbrev pub is_some {ℓ} : {A : Type ℓ} → Option A → Bool
is_some none = false
is_some (some a) = true

abbrev pub is_cluster_mode : NodeState → Bool
is_cluster_mode s = is_some (cluster_of s)

-- Where a request goes: the node and its address, or nowhere else.
abbrev pub address_in : Option NodeInfo → Bytes
address_in none = []
address_in (some n) = n.host ++ (b':' ∷ format_int n.port)

abbrev pub address_of : Bytes → Config → Bytes
address_of id c = address_in (find_node id c.nodes)

abbrev pub forward_to : RingResult Bytes → Config → Option (Bytes × Bytes)
forward_to (err e) c = none
forward_to (ok leader) c = some (leader, address_of leader c)

abbrev pub forward_unless_mine : RingResult Bytes → Config → Option (Bytes × Bytes)
forward_unless_mine (err e) c = none
forward_unless_mine (ok leader) c =
    if same_bytes leader c.node_id then none else some (leader, address_of leader c)

abbrev pub forward_from :
    Bytes → Bool → Option ShardInfo → HashRing → Config → Option (Bytes × Bytes)
forward_from shard is_write none ring c = none
forward_from shard is_write (some mine) ring c =
    if same_bytes shard mine.shard_id
    then (if is_write then forward_unless_mine (get_shard_leader shard ring) c else none)
    else forward_to (get_shard_leader shard ring) c

abbrev pub forward_shard : Bool → RingResult Bytes → HashRing → Config → Option (Bytes × Bytes)
forward_shard is_write (err e) ring c = none
forward_shard is_write (ok shard) ring c =
    forward_from shard is_write (get_shard_for_node c.node_id c) ring c

module _ (hash : Bytes → ℕ) where
  abbrev pub forward_in : Bytes → Bool → Option (HashRing × Config) → Option (Bytes × Bytes)
  forward_in key is_write none = none
  forward_in key is_write (some (ring, c)) = forward_shard is_write (get_shard hash key ring) ring c

  unfoldable pub should_forward_request : Bytes → Bool → NodeState → Option (Bytes × Bytes)
  should_forward_request key is_write s = forward_in key is_write (cluster_of s)
