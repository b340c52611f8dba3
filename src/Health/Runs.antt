-- ===== src/Health/Runs.antt =====
-- internal/cluster/health.go: any sequence of registrations, removals and rounds of checks.
use gocache.Prelude.{ℕ, Bool, List, [], ◌∷◌}
use gocache.Prelude.Maps.{Bytes}
use gocache.Health.{HealthChecker, register_node, unregister_node, check_all_nodes}
use gocache.Health.Laws.{AllCoherent, check_all_nodes-AllCoherent, operations-AllCoherent}

-- The calls, each with what it is given; a round of checks with its pings and its time.
pub data Call : Type 0 where
  register_call : Bytes → Bytes → ℕ → Call
  unregister_call : Bytes → Call
  check_call : (Bytes → Bool) → ℕ → Call

unfoldable pub perform : Call → HealthChecker → HealthChecker
perform (register_call id address now) hc = register_node id address now hc
perform (unregister_call id) hc = unregister_node id hc
perform (check_call ping now) hc = (check_all_nodes ping now hc).0

unfoldable pub run_calls : List Call → HealthChecker → HealthChecker
run_calls [] hc = hc
run_calls (c ∷ cs) hc = run_calls cs (perform c hc)

perform-AllCoherent : (c : Call) (hc : HealthChecker) → AllCoherent hc → AllCoherent (perform c hc)
unfolding perform
perform-AllCoherent (register_call id address now) hc h =
    (operations-AllCoherent hc id address now h).0
perform-AllCoherent (unregister_call id) hc h = (operations-AllCoherent hc id [] 0 h).1
perform-AllCoherent (check_call ping now) hc h = check_all_nodes-AllCoherent hc ping now

run_calls-AllCoherent :
    (cs : List Call) (hc : HealthChecker) → AllCoherent hc → AllCoherent (run_calls cs hc)
unfolding run_calls
run_calls-AllCoherent [] hc h = h
run_calls-AllCoherent (c ∷ cs) hc h =
    run_calls-AllCoherent cs (perform c hc) (perform-AllCoherent c hc h)

-- Whatever the nodes of a checker hold, after a round of checks and any registrations, removals and
-- rounds of checks that follow, the status of every node is what its number of failures in a row
-- says: alive at none, dead from the threshold on, suspected between.
pub run_calls-check_all_nodes :
    (hc : HealthChecker) (ping : Bytes → Bool) (now : ℕ) (cs : List Call)
    → AllCoherent (run_calls cs (check_all_nodes ping now hc).0)
run_calls-check_all_nodes hc ping now cs =
    run_calls-AllCoherent cs (check_all_nodes ping now hc).0
      (check_all_nodes-AllCoherent hc ping now)
