-- ===== src/Health.antt =====
-- internal/cluster/health.go: failure detection by pings. The result of a ping and the time are
-- arguments; the callbacks that a check starts are returned.
pub mod Laws
pub mod Runs
mod Tests
use gocache.Prelude.{
  ℕ, ◌+◌, Bool, true, false, ◌&&◌, not, Option, none, some, List, [], ◌∷◌, ◌++◌, ltb, leb,
  if◌then◌else◌,
}
use gocache.Prelude.Maps.{Bytes, get, put, delete, bytes_key}

pub data NodeStatus : Type 0 where
  alive suspected dead : NodeStatus

pub record NodeHealth : Type 0 where
  pub node_id : Bytes
  pub address : Bytes
  pub status : NodeStatus
  pub last_successful_ping : Option ℕ
  pub last_failed_ping : Option ℕ
  pub consecutive_failures : ℕ
  pub consecutive_successes : ℕ

pub data Callback : Type 0 where
  node_failed node_recovered : Bytes → Callback

-- `has_failed` and `has_recovered` tell whether the callbacks are set.
pub record HealthChecker : Type 0 where
  pub node_health : List (Bytes × NodeHealth)
  pub failure_threshold : ℕ
  pub has_failed : Bool
  pub has_recovered : Bool

abbrev pub new_health_checker : ℕ → HealthChecker
new_health_checker threshold = record {
  node_health = [];
  failure_threshold = threshold;
  has_failed = false;
  has_recovered = false;
}

abbrev pub set_callbacks : Bool → Bool → HealthChecker → HealthChecker
set_callbacks failed recovered hc = record hc { has_failed = failed; has_recovered = recovered }

abbrev pub new_node : Bytes → Bytes → ℕ → NodeHealth
new_node id address now = record {
  node_id = id;
  address = address;
  status = alive;
  last_successful_ping = some now;
  last_failed_ping = none;
  consecutive_failures = 0;
  consecutive_successes = 1;
}

abbrev pub keep_or_add : Bytes → NodeHealth → Option NodeHealth → HealthChecker → HealthChecker
keep_or_add id n none hc = record hc { node_health = put id n hc.node_health }
keep_or_add id n (some old) hc = hc

abbrev pub register_node : Bytes → Bytes → ℕ → HealthChecker → HealthChecker
register_node id address now hc =
    keep_or_add id (new_node id address now) (get id hc.node_health) hc

abbrev pub unregister_node : Bytes → HealthChecker → HealthChecker
unregister_node id hc = record hc { node_health = delete id hc.node_health }

abbrev pub is_dead : NodeStatus → Bool
is_dead dead = true
is_dead _ = false

abbrev pub is_alive : NodeStatus → Bool
is_alive alive = true
is_alive _ = false

-- The status after a failed ping.
unfoldable pub failed_status : ℕ → ℕ → NodeStatus → NodeStatus
failed_status threshold failures old =
    if leb threshold failures then dead else if ltb 0 failures then suspected else old

unfoldable pub ping_failed : HealthChecker → ℕ → NodeHealth → NodeHealth × List Callback
unfolding failed_status
ping_failed hc now n =
    let failures = n.consecutive_failures + 1 in
    let status = failed_status hc.failure_threshold failures n.status in
    (
      record n {
        consecutive_failures = failures;
        consecutive_successes = 0;
        last_failed_ping = some now;
        status = status;
      },
      if not (is_dead n.status) && is_dead status && hc.has_failed
          then node_failed n.node_id ∷ []
          else [],
    )

unfoldable pub ping_succeeded : HealthChecker → ℕ → NodeHealth → NodeHealth × List Callback
ping_succeeded hc now n = (
  record n {
    consecutive_successes = n.consecutive_successes + 1;
    consecutive_failures = 0;
    last_successful_ping = some now;
    status = alive;
  },
  if is_dead n.status && hc.has_recovered then node_recovered n.node_id ∷ [] else [],
)

unfoldable pub check_node : HealthChecker → Bool → ℕ → NodeHealth → NodeHealth × List Callback
unfolding ping_failed ping_succeeded
check_node hc ping now n = if ping then ping_succeeded hc now n else ping_failed hc now n

-- checkAllNodes updates each record in place.
unfoldable pub check_entries :
    HealthChecker
    → (Bytes → Bool)
    → ℕ
    → List (Bytes × NodeHealth)
    → List (Bytes × NodeHealth) × List Callback
unfolding check_node
check_entries hc ping now [] = ([], [])
check_entries hc ping now ((id, n) ∷ m) =
    let (n', calls) = check_node hc (ping n.address) now n in
    let (m', more) = check_entries hc ping now m in ((id, n') ∷ m', calls ++ more)

unfoldable pub check_all_nodes : (Bytes → Bool) → ℕ → HealthChecker → HealthChecker × List Callback
unfolding check_entries
check_all_nodes ping now hc =
    let (m, calls) = check_entries hc ping now hc.node_health in
    (record hc { node_health = m }, calls)

abbrev pub status_of : Option NodeHealth → NodeStatus
status_of none = dead
status_of (some n) = n.status

abbrev pub get_node_status : Bytes → HealthChecker → NodeStatus
get_node_status id hc = status_of (get id hc.node_health)

abbrev pub is_node_healthy : Bytes → HealthChecker → Bool
is_node_healthy id hc = is_alive (get_node_status id hc)

unfoldable pub healthy_ids : List (Bytes × NodeHealth) → List Bytes
healthy_ids [] = []
healthy_ids ((id, n) ∷ m) =
    let rest = healthy_ids m in if is_alive n.status then id ∷ rest else rest

abbrev pub get_healthy_nodes : HealthChecker → List Bytes
get_healthy_nodes hc = healthy_ids hc.node_health
