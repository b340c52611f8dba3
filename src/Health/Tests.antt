-- ===== src/Health/Tests.antt =====
-- The health checker at small inputs.
use gocache.Prelude.{ℕ, ◌≡◌, refl, Bool, true, false, List, [], ◌∷◌}
use gocache.Prelude.Maps.{bytes_discrete, get, put, delete}
use gocache.Health.{
  HealthChecker, NodeHealth, suspected, dead, node_failed, node_recovered, new_health_checker,
  set_callbacks, new_node, register_node, check_node, ping_failed, ping_succeeded, failed_status,
  check_entries, check_all_nodes, healthy_ids, get_healthy_nodes, is_dead, get_node_status,
}
use gocache.Health.Runs.{
  register_call, unregister_call, check_call, run_calls, run_calls-check_all_nodes,
}
use gocache.Health.Laws.{AllCoherent, Alternates, run_pings, run_pings-Alternates}

program : Unit {0}
unfolding get put delete bytes_discrete ping_failed ping_succeeded check_node check_entries
    check_all_nodes failed_status healthy_ids run_pings
program = tt

abbrev node : NodeHealth
node = new_node (7 ∷ []) (8 ∷ []) 5

-- A threshold of two failures, both callbacks, one node.
abbrev checker : HealthChecker
checker = register_node (7 ∷ []) (8 ∷ []) 5 (set_callbacks true true (new_health_checker 2))

abbrev after : HealthChecker
after = (check_all_nodes (λ a. false) 6 checker).0

pinged : get_node_status (7 ∷ []) after ≡ suspected
unfolding program
pinged = refl

unhealthy : get_healthy_nodes after ≡ []
unfolding program
unhealthy = refl

-- Two failures and a success.
abbrev pings : List (Bool × ℕ)
pings = (false, 6) ∷ (false, 7) ∷ (true, 8) ∷ []

called : (run_pings checker pings node).1 ≡ node_failed (7 ∷ []) ∷ node_recovered (7 ∷ []) ∷ []
unfolding program
called = refl

-- The only node seems dead without any failure.
abbrev confused : HealthChecker
confused = record checker {
  node_health = (7 ∷ [], record node { status = dead; consecutive_failures = 0 }) ∷ [];
}

run_calls-check_all_nodes_example : AllCoherent (
    run_calls
      (register_call (9 ∷ []) (8 ∷ []) 6 ∷ check_call (λ a. true) 7 ∷ unregister_call (9 ∷ []) ∷ [])
      (check_all_nodes (λ a. false) 6 confused).0)
run_calls-check_all_nodes_example =
    run_calls-check_all_nodes confused (λ a. false) 6
      (register_call (9 ∷ []) (8 ∷ []) 6 ∷ check_call (λ a. true) 7 ∷ unregister_call (9 ∷ []) ∷ [])

run_pings-Alternates_example :
    Alternates
      (is_dead node.status)
      (run_pings checker pings node).1
      (is_dead (run_pings checker pings node).0.status)
unfolding program
run_pings-Alternates_example = run_pings-Alternates checker pings node refl refl refl
