-- ===== src/Health/Laws.antt =====
-- internal/cluster/health.go: the status follows the failures, and callbacks come in turn.
use gocache.Prelude.{
  sym, ℕ, ◌+◌, ◌≡◌, refl, ap, ◌∙◌, inl, inr, Bool, true, false, List, [], ◌∷◌, ◌++◌, arith, All,
  leb, ◌==◌, if◌then◌else◌, Bool-cases, Option-cases,
}
use gocache.Prelude.Maps.{Bytes, get, All-put, All-delete, bytes_key}
use gocache.Health.{
  HealthChecker, NodeHealth, NodeStatus, alive, suspected, dead, Callback, node_failed,
  node_recovered, check_node, failed_status, check_entries, check_all_nodes, register_node,
  unregister_node, new_node, is_dead,
}

abbrev pub status_for : ℕ → ℕ → NodeStatus
status_for threshold k = if k == 0 then alive else if leb threshold k then dead else suspected

-- The status is what the number of failures in a row says.
abbrev pub IsCoherent : ℕ → NodeHealth → Type 0
IsCoherent threshold n = n.status ≡ status_for threshold n.consecutive_failures

abbrev pub AllCoherent : HealthChecker → Type 0
AllCoherent hc = All (λ e. IsCoherent hc.failure_threshold e.1) hc.node_health

check_node-IsCoherent :
    (hc : HealthChecker) (ping : Bool) (now : ℕ) (n : NodeHealth)
    → IsCoherent hc.failure_threshold (check_node hc ping now n).0
unfolding check_node
check_node-IsCoherent hc true now n = refl
check_node-IsCoherent hc false now n = ground arith

check_entries-AllCoherent :
    (hc : HealthChecker) (ping : Bytes → Bool) (now : ℕ) (m : List (Bytes × NodeHealth))
    → All (λ e. IsCoherent hc.failure_threshold e.1) (check_entries hc ping now m).0
unfolding check_entries
check_entries-AllCoherent hc ping now [] = tt
check_entries-AllCoherent hc ping now ((id, n) ∷ m) =
    (check_node-IsCoherent hc (ping n.address) now n, check_entries-AllCoherent hc ping now m)

-- After a round of checks the statuses are in step with the failures, whatever was before.
pub check_all_nodes-AllCoherent :
    (hc : HealthChecker) (ping : Bytes → Bool) (now : ℕ)
    → AllCoherent (check_all_nodes ping now hc).0
unfolding check_all_nodes
check_all_nodes-AllCoherent hc ping now = check_entries-AllCoherent hc ping now hc.node_health

-- Registrations and removals keep the statuses in step with the failures.
pub operations-AllCoherent :
    (hc : HealthChecker) (id address : Bytes) (now : ℕ)
    → AllCoherent hc
    → AllCoherent (register_node id address now hc) × AllCoherent (unregister_node id hc)
operations-AllCoherent hc id address now h = (
  elim (Option-cases (get id hc.node_health)) [
    | inl g ↦ rw g (
        All-put (λ e. IsCoherent hc.failure_threshold e.1) id (new_node id address now)
          hc.node_health refl h)
    | inr (n, g) ↦ rw g h
  ],
  All-delete (λ e. IsCoherent hc.failure_threshold e.1) id hc.node_health h,
)

-- The pings of one node, each with its time, and all callbacks that they start.
unfoldable pub run_pings : HealthChecker → List (Bool × ℕ) → NodeHealth → NodeHealth × List Callback
run_pings hc [] n = (n, [])
run_pings hc ((ping, now) ∷ pings) n =
    let (n1, calls) = check_node hc ping now n in
    let (n2, more) = run_pings hc pings n1 in (n2, calls ++ more)

-- Failures and recoveries come in turn, a recovery first if the node is dead at the start, and a
-- last failure leaves the node dead as `final` says.
abbrev pub Alternates : Bool → List Callback → Bool → Type 0
Alternates start [] final = start ≡ final
Alternates false (node_failed id ∷ calls) final = Alternates true calls final
Alternates true (node_recovered id ∷ calls) final = Alternates false calls final
Alternates start (call ∷ calls) final = ⊥

failed_status-at :
    (threshold k : ℕ) (old : NodeStatus)
    → leb threshold (k + 1) ≡ true
    → failed_status threshold (k + 1) old ≡ dead
unfolding failed_status
failed_status-at threshold k old h = rw h refl

failed_status-below :
    (threshold k : ℕ) (old : NodeStatus)
    → leb threshold (k + 1) ≡ false
    → failed_status threshold (k + 1) old ≡ suspected
unfolding failed_status
failed_status-below threshold k old h = ground arith

is_dead-status_for :
    (threshold k : ℕ) → is_dead (status_for threshold k) ≡ true → leb threshold (k + 1) ≡ true
is_dead-status_for threshold k h = ground arith

check_node-Alternates :
    (hc : HealthChecker) (ping : Bool) (now : ℕ) (n : NodeHealth)
    → hc.has_failed ≡ true
    → hc.has_recovered ≡ true
    → IsCoherent hc.failure_threshold n
    → Alternates
        (is_dead n.status)
        (check_node hc ping now n).1
        (is_dead (check_node hc ping now n).0.status)
unfolding check_node
check_node-Alternates hc true now n f r h = elim (Bool-cases (is_dead n.status)) [
  | inl t ↦ rw (t, r) refl
  | inr t ↦ rw t refl
]
check_node-Alternates hc false now n f r h =
    elim (Bool-cases (leb hc.failure_threshold (n.consecutive_failures + 1))) [
      | inl b ↦
          let s = failed_status-at hc.failure_threshold n.consecutive_failures n.status b in
          elim (Bool-cases (is_dead n.status)) [
            | inl t ↦ rw (s, t) refl
            | inr t ↦ rw (s, t, f) refl
          ]
      | inr b ↦
          let s = failed_status-below hc.failure_threshold n.consecutive_failures n.status b in
          let alive_if : is_dead n.status ≡ true
              → leb hc.failure_threshold (n.consecutive_failures + 1) ≡ true =
            λ t.
              is_dead-status_for hc.failure_threshold n.consecutive_failures
                (ap is_dead (sym h) ∙ t) in
          elim (Bool-cases (is_dead n.status)) [
            | inl t ↦ absurd (cc (alive_if t))
            | inr t ↦ rw (s, t) refl
          ]
    ]

Alternates-append :
    (start middle final : Bool) (xs ys : List Callback)
    → Alternates start xs middle
    → Alternates middle ys final
    → Alternates start (xs ++ ys) final
Alternates-append start middle final [] ys h t = rw h t
Alternates-append false middle final (node_failed id ∷ xs) ys h t =
    Alternates-append true middle final xs ys h t
Alternates-append true middle final (node_recovered id ∷ xs) ys h t =
    Alternates-append false middle final xs ys h t
Alternates-append false middle final (node_recovered id ∷ xs) ys h t = h
Alternates-append true middle final (node_failed id ∷ xs) ys h t = h

-- With both callbacks set and a node whose status says its failures in a row, any pings of the node
-- start failure and recovery callbacks in turn: a failure comes next exactly when the node is not
-- dead, and the status at the end is dead exactly when the last callback was a failure (or the node
-- was dead before and none came).
pub run_pings-Alternates :
    (hc : HealthChecker) (pings : List (Bool × ℕ)) (n : NodeHealth)
    → hc.has_failed ≡ true
    → hc.has_recovered ≡ true
    → IsCoherent hc.failure_threshold n
    → Alternates
        (is_dead n.status)
        (run_pings hc pings n).1
        (is_dead (run_pings hc pings n).0.status)
unfolding run_pings
run_pings-Alternates hc [] n f r h = refl
run_pings-Alternates hc ((ping, now) ∷ pings) n f r h =
    let n1 = (check_node hc ping now n).0 in
    Alternates-append (is_dead n.status) (is_dead n1.status)
      (is_dead (run_pings hc pings n1).0.status) (check_node hc ping now n).1
      (run_pings hc pings n1).1 (check_node-Alternates hc ping now n f r h)
      (run_pings-Alternates hc pings n1 f r (check_node-IsCoherent hc ping now n))
