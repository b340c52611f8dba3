-- ===== src/Lru/Tests.antt =====
-- The theorems on the methods of internal/lru/lru.go at a list of two nodes.
use gocache.Prelude.{suc, zero, refl, none, some, [], ◌∷◌, arith}
use gocache.Lru.{Lru, Nodes, move_to_front}
use gocache.Lru.Moves.{IsList, Leaves}
use gocache.Lru.Laws.{move_to_front-Leaves}

abbrev two_nodes : Nodes
two_nodes zero = record { key = 97 ∷ []; prev = some 1; next = none }
two_nodes (suc n) = record { key = 98 ∷ []; prev = none; next = some 0 }

abbrev two : Lru
two = record { head = some 1; tail = some 0; nodes = two_nodes; fresh = 3 }

two-IsList : IsList two (1 ∷ 0 ∷ [])
two-IsList = record {
  at_head = refl;
  at_tail = refl;
  linked = (refl, refl, (refl, refl, tt));
  distinct = omega arith;
  allocated = omega arith;
}

move_to_front-Leaves_example : Leaves (move_to_front 0 two) two (0 ∷ 1 ∷ [])
move_to_front-Leaves_example = move_to_front-Leaves two 0 (1 ∷ []) [] two-IsList
