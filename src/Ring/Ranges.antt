-- ===== src/Ring/Ranges.antt =====
-- internal/cluster/migration.go: the tasks of CalculateMigrations against the owners of hash.go.
use gocache.Prelude.{
  ℕ, zero, suc, ◌-◌, ◌≤◌, ◌<◌, ◌≡◌, refl, sym, ap, ◌∙◌, ◌≢◌, inl, inr, true, List, [], ◌∷◌, ◌++◌,
  arith, All, Absent, Within, Within-append, length, ltb, ◌==◌, if◌then◌else◌, Bool-cases, ltb→lt,
  done, >>=-eq-done,
}
use gocache.Prelude.Maps.{Bytes, get, put, get-put, nat_key, bytes_key, bytes_discrete}
use gocache.Cache.Enumeration.{hash_in_range}
use gocache.Ring.{
  HashRing, RingResult, ok, value_at, search_ge, or_empty, virtual_hashes, sort_into, insert_sorted,
  claim_all, add_shard, get_shard, successor,
}
use gocache.Ring.Search.{IsSorted, next_or, successor-next_or}
use gocache.Ring.Owners.{IsRing, not_empty}
use gocache.Ring.Positions.{add_values, sort_into-IsSorted, length-sort_into}
use gocache.Ring.Migration.{
  MigrationTask, index, previous, task_for, tasks_for, calculate_migrations, key_in_range,
}

Within-value_at : (xs : List ℕ) (i : ℕ) → i < length xs → Within (value_at xs i) xs
Within-value_at [] i h = absurd (omega arith)
Within-value_at (x ∷ xs) zero h = inl refl
Within-value_at (x ∷ xs) (suc i) h = inr (Within-value_at xs i (omega arith))

index-Within : (xs : List ℕ) (i p : ℕ) → index xs i ≡ done p → Within p xs
unfolding index
index-Within xs i p h = elim (Bool-cases (ltb i (length xs))) [
  | inl t ↦
      let at : value_at xs i ≡ p = ground (arith, t) in
      rw (← at) (Within-value_at xs i (ltb→lt _ _ t))
  | inr f ↦ absurd (ground (arith, f))
]

-- What a task says: it starts at a position of the ring, and names the owner of that position.
pub record FromPosition (r : HashRing) (node : Bytes) (t : MigrationTask) : Type 0 where
  pub position : Within t.start_hash r.hash_values
  pub owner : t.from_node ≡ or_empty (get t.start_hash r.hash_to_shard)
  pub other : t.from_node ≢ node

module _ (hash : Bytes → ℕ) (node : Bytes) (r : HashRing) where
  task_for-FromPosition :
      (v : ℕ) (ts : List MigrationTask) (t : MigrationTask)
      → task_for hash node r v ≡ done ts
      → Within t ts
      → FromPosition r node t
  unfolding task_for previous
  task_for-FromPosition v ts t h w =
      let idx = search_ge r.hash_values v in
      let i = if idx == length r.hash_values then 0 else idx in
      let p = if i == 0 then length r.hash_values - 1 else i - 1 in
      let (prev, ran, rest) = >>=-eq-done (index r.hash_values p) _ h in
      let owner = or_empty (get prev r.hash_to_shard) in
      elim (bytes_discrete owner node) [
        | yes same ↦ absurd (nothing (ground (arith, rest, same)) w)
        | no differ ↦
            let task : MigrationTask = record {
              from_node = owner;
              to_node = node;
              start_hash = prev;
              end_hash = v;
            } in
            let form : ts ≡ task ∷ [] = ground (arith, rest, differ) in
            let same : task ≡ t = only task form w in
            rw (← same) (record {
              position = index-Within r.hash_values p prev ran;
              owner = refl;
              other = differ;
            })
      ]
    where
      nothing : ts ≡ [] → Within t ts → ⊥
      nothing e u = (rw e at u) tt

      only : (task : MigrationTask) → ts ≡ task ∷ [] → Within t ts → task ≡ t
      only task e u = elim (rw e at u) [ inl p ↦ p | inr q ↦ absurd (q tt) ]

  tasks_for-FromPosition :
      (vs : List ℕ) (ts : List MigrationTask) (t : MigrationTask)
      → tasks_for hash node r vs ≡ done ts
      → Within t ts
      → FromPosition r node t
  unfolding tasks_for
  tasks_for-FromPosition [] ts t h w = let e : ts ≡ [] = ground arith in absurd ((rw e at w) tt)
  tasks_for-FromPosition (v ∷ vs) ts t h w =
      let (here, ran, h1) = >>=-eq-done (task_for hash node r v) _ h in
      let (rest, rans, h2) = >>=-eq-done (tasks_for hash node r vs) _ h1 in
      let form : ts ≡ here ++ rest = ground (arith, h2) in
      elim (Within-append t here rest (rw form at w)) [
        | inl a ↦ task_for-FromPosition v here t ran a
        | inr b ↦ tasks_for-FromPosition vs rest t rans b
      ]

All-Within : (k v : ℕ) (xs : List ℕ) → All (λ y. k ≤ y) xs → Within v xs → k ≤ v
All-Within k v [] a w = absurd (w tt)
All-Within k v (x ∷ xs) a (inl p) = omega (arith, a.0)
All-Within k v (x ∷ xs) a (inr w) = All-Within k v xs a.1 w

next_or_self : (d v : ℕ) (xs : List ℕ) → IsSorted xs → Within v xs → next_or d xs v ≡ v
unfolding next_or
next_or_self d v [] s w = absurd (w tt)
next_or_self d v (x ∷ xs) s (inl p) = ground (arith, p)
next_or_self d v (x ∷ xs) s (inr w) =
    ground (arith, next_or_self d v xs s.1 w, All-Within x v xs s.0 w)

successor_self : (v : ℕ) (xs : List ℕ) → IsSorted xs → Within v xs → successor xs v ≡ v
successor_self v [] s w = absurd (w tt)
successor_self v (x ∷ xs) s w = successor-next_or x xs v s ∙ next_or_self x v (x ∷ xs) s w

Within-insert_sorted_old : (h w : ℕ) (xs : List ℕ) → Within h xs → Within h (insert_sorted w xs)
unfolding insert_sorted
Within-insert_sorted_old h w [] i = absurd (i tt)
Within-insert_sorted_old h w (x ∷ xs) i = elim (Bool-cases (ltb w x)) [
  | inl t ↦ rw t (inr i)
  | inr f ↦ rw f (elim i [ inl p ↦ inl p | inr j ↦ inr (Within-insert_sorted_old h w xs j) ])
]

Within-sort_into_old : (h : ℕ) (vs xs : List ℕ) → Within h xs → Within h (sort_into vs xs)
unfolding sort_into
Within-sort_into_old h [] xs i = i
Within-sort_into_old h (v ∷ vs) xs i =
    Within-sort_into_old h vs (insert_sorted v xs) (Within-insert_sorted_old h v xs i)

get-claim_all-Absent :
    (hash : Bytes → ℕ) (shard : Bytes) (vs : List ℕ) (m : List (ℕ × Bytes)) (h : ℕ)
    → Absent h vs
    → get h (claim_all hash shard vs m) ≡ get h m
unfolding claim_all
get-claim_all-Absent hash shard [] m h a = refl
get-claim_all-Absent hash shard (v ∷ vs) m h a =
    ground
      (arith, get-claim_all-Absent hash shard vs (put v shard m) h a.1, get-put v h shard m, a.0)

module _ (hash : Bytes → ℕ) (node : Bytes) (r : HashRing) (valid : IsRing r) where
  -- On a ring whose positions are sorted, owned and at least one, take any task of
  -- CalculateMigrations whose start is not a position of the new node: a key whose hash is the
  -- start lies in the range of the task, and yet GetShard still gives it to the source of the
  -- task after AddShard, which is not the new node.
  pub migrated_but_owned :
      (ts : List MigrationTask) (t : MigrationTask) (key : Bytes)
      → calculate_migrations hash node r ≡ done ts
      → Within t ts
      → hash key ≡ t.start_hash
      → Absent t.start_hash (virtual_hashes hash node 0 r.virtual_nodes)
      → 0 < length r.hash_values
      → (key_in_range hash key t.start_hash t.end_hash ≡ true)
        × (get_shard hash key (add_shard hash node r) ≡ ok t.from_node)
        × (t.from_node ≢ node)
  unfolding calculate_migrations key_in_range add_shard get_shard
  migrated_but_owned ts t key calc w e out some_values =
      let vs = virtual_hashes hash node 0 r.virtual_nodes in
      let from = tasks_for-FromPosition hash node r vs ts t calc w in
      let values = add_values r.hash_values vs valid.sorted in
      let full' =
        not_empty (sort_into vs r.hash_values) (omega (arith, length-sort_into vs r.hash_values)) in
      let stays =
        successor_self t.start_hash (sort_into vs r.hash_values)
          (sort_into-IsSorted vs r.hash_values valid.sorted)
          (Within-sort_into_old t.start_hash vs r.hash_values from.position) in
      let kept = get-claim_all-Absent hash node vs r.hash_to_shard t.start_hash out in
      (
        rw e (unfold hash_in_range in ground arith),
        rw (values, full', e, stays, kept) (ap (λ (s : Bytes). RingResult.ok s) (sym from.owner)),
        from.other,
      )
