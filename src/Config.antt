-- ===== src/Config.antt =====
-- internal/config/config.go: the settings and what is asked of them. The flags and the YAML file are
-- not modelled.
use gocache.Prelude.{
  Bool, true, false, ◌&&◌, Option, none, some, List, [], ◌∷◌, ite, if◌then◌else◌, ◌*◌,
}
use gocache.Prelude.Int.{ℤ, pos}
use gocache.Prelude.Maps.{Bytes, bytes_discrete}
use gocache.Prelude.Duration.{second}
use gocache.Persistence.{SyncPolicy, sync_always, sync_every_second, sync_no}
use gocache.Replication.Follower.{ltz}

pub record NodeInfo : Type 0 where
  pub id : Bytes
  pub host : Bytes
  pub port : ℤ
  pub repl_port : ℤ
  pub priority : ℤ
  pub shard_id : Bytes
  pub role : Bytes

pub record ShardInfo : Type 0 where
  pub shard_id : Bytes
  pub leader_id : Bytes
  pub followers : List Bytes

pub record Config : Type 0 where
  pub port : ℤ
  pub metrics_port : ℤ
  pub max_cache_size : ℤ
  pub role : Bytes
  pub leader_addr : Bytes
  pub priority : ℤ
  pub repl_port : ℤ
  pub peer_repl_addrs : Bytes
  pub aof_file_name : Bytes
  pub snapshot_file_name : Bytes
  pub sync_policy : Bytes
  pub snapshot_interval : ℤ
  pub growth_factor : ℤ
  pub node_id : Bytes
  pub nodes : List NodeInfo
  pub shards : List ShardInfo
  pub log_level : Bytes

-- "leader"
abbrev pub leader_role : Bytes
leader_role = b'l' ∷ b'e' ∷ b'a' ∷ b'd' ∷ b'e' ∷ b'r' ∷ []

-- "follower"
abbrev pub follower_role : Bytes
follower_role = b'f' ∷ b'o' ∷ b'l' ∷ b'l' ∷ b'o' ∷ b'w' ∷ b'e' ∷ b'r' ∷ []

-- "always"
abbrev pub always_word : Bytes
always_word = b'a' ∷ b'l' ∷ b'w' ∷ b'a' ∷ b'y' ∷ b's' ∷ []

-- "everysecond"
abbrev pub everysecond_word : Bytes
everysecond_word = b'e' ∷ b'v' ∷ b'e' ∷ b'r' ∷ b'y' ∷ b's' ∷ b'e' ∷ b'c' ∷ b'o' ∷ b'n' ∷ b'd' ∷ []

-- "no"
abbrev pub no_word : Bytes
no_word = b'n' ∷ b'o' ∷ []

-- "localhost:7001"
abbrev pub default_leader_addr : Bytes
default_leader_addr =
    b'l' ∷ b'o' ∷ b'c' ∷ b'a' ∷ b'l' ∷ b'h' ∷ b'o' ∷ b's' ∷ b't' ∷ b':' ∷ b'7' ∷ b'0' ∷ b'0' ∷ b'1'
    ∷ []

-- "cache.aof"
abbrev pub default_aof_file : Bytes
default_aof_file = b'c' ∷ b'a' ∷ b'c' ∷ b'h' ∷ b'e' ∷ b'.' ∷ b'a' ∷ b'o' ∷ b'f' ∷ []

-- "cache.rdb"
abbrev pub default_snapshot_file : Bytes
default_snapshot_file = b'c' ∷ b'a' ∷ b'c' ∷ b'h' ∷ b'e' ∷ b'.' ∷ b'r' ∷ b'd' ∷ b'b' ∷ []

-- "info"
abbrev pub info_level : Bytes
info_level = b'i' ∷ b'n' ∷ b'f' ∷ b'o' ∷ []

abbrev pub default_config : Config
default_config = record {
  port = pos 7000;
  metrics_port = pos 9090;
  max_cache_size = pos 1000;
  role = leader_role;
  leader_addr = default_leader_addr;
  priority = pos 0;
  repl_port = pos 0;
  peer_repl_addrs = [];
  aof_file_name = default_aof_file;
  snapshot_file_name = default_snapshot_file;
  sync_policy = everysecond_word;
  snapshot_interval = pos (300 * second);
  growth_factor = pos 2;
  node_id = [];
  nodes = [];
  shards = [];
  log_level = info_level;
}

-- `==` on strings
abbrev pub same_bytes : Bytes → Bytes → Bool
same_bytes a b = ite (bytes_discrete a b) true false

abbrev pub get_sync_policy : Config → SyncPolicy
get_sync_policy c =
    if same_bytes c.sync_policy always_word
    then sync_always
    else if same_bytes c.sync_policy everysecond_word
    then sync_every_second
    else if same_bytes c.sync_policy no_word
    then sync_no
    else sync_every_second

abbrev pub is_nonempty {ℓ} : {A : Type ℓ} → List A → Bool
is_nonempty [] = false
is_nonempty (x ∷ xs) = true

-- IsClusterMode of the settings
abbrev pub has_cluster : Config → Bool
has_cluster c = is_nonempty c.nodes && is_nonempty c.node_id

unfoldable pub find_node : Bytes → List NodeInfo → Option NodeInfo
find_node id [] = none
find_node id (n ∷ ns) = let rest = find_node id ns in if same_bytes n.id id then some n else rest

abbrev pub get_my_node : Config → Option NodeInfo
get_my_node c = find_node c.node_id c.nodes

unfoldable pub without_node : Bytes → List NodeInfo → List NodeInfo
without_node id [] = []
without_node id (n ∷ ns) =
    let rest = without_node id ns in if same_bytes n.id id then rest else n ∷ rest

abbrev pub get_other_nodes : Config → List NodeInfo
get_other_nodes c = without_node c.node_id c.nodes

unfoldable pub highest_of : NodeInfo → List NodeInfo → NodeInfo
highest_of highest [] = highest
highest_of highest (n ∷ ns) = highest_of (if ltz highest.priority n.priority then n else highest) ns

abbrev pub highest_priority : List NodeInfo → Option NodeInfo
highest_priority [] = none
highest_priority (n ∷ ns) = some (highest_of n (n ∷ ns))

abbrev pub get_highest_priority_node : Config → Option NodeInfo
get_highest_priority_node c = highest_priority c.nodes

abbrev pub same_node : Option NodeInfo → Option NodeInfo → Bool
same_node none highest = false
same_node (some mine) none = false
same_node (some mine) (some highest) = same_bytes highest.id mine.id

abbrev pub am_i_highest_priority : Config → Bool
am_i_highest_priority c = same_node (get_my_node c) (get_highest_priority_node c)

unfoldable pub has_follower : Bytes → List Bytes → Bool
has_follower id [] = false
has_follower id (f ∷ fs) = let rest = has_follower id fs in if same_bytes f id then true else rest

unfoldable pub shard_for : Bytes → List ShardInfo → Option ShardInfo
unfolding has_follower
shard_for id [] = none
shard_for id (s ∷ ss) =
    let rest = shard_for id ss in
    if same_bytes s.leader_id id
    then some s
    else if has_follower id s.followers
    then some s
    else rest

abbrev pub get_shard_for_node : Bytes → Config → Option ShardInfo
get_shard_for_node id c = shard_for id c.shards

unfoldable pub shard_by : Bytes → List ShardInfo → Option ShardInfo
shard_by id [] = none
shard_by id (s ∷ ss) =
    let rest = shard_by id ss in if same_bytes s.shard_id id then some s else rest

abbrev pub get_shard_by_id : Bytes → Config → Option ShardInfo
get_shard_by_id id c = shard_by id c.shards

unfoldable pub leads_any : Bytes → List ShardInfo → Bool
leads_any id [] = false
leads_any id (s ∷ ss) =
    let rest = leads_any id ss in if same_bytes s.leader_id id then true else rest

abbrev pub is_shard_leader : Config → Bool
is_shard_leader c = leads_any c.node_id c.shards

abbrev pub role_in : Bytes → Option ShardInfo → Bytes
role_in id none = []
role_in id (some s) = if same_bytes s.leader_id id then leader_role else follower_role

abbrev pub get_my_shard_role : Config → Bytes
get_my_shard_role c = role_in c.node_id (get_shard_for_node c.node_id c)
