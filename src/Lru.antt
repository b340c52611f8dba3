-- ===== src/Lru.antt =====
-- internal/lru/lru.go: the doubly linked list of keys, most recently used first. A `*Node` is an
-- address in an explicit heap, nil is `none`, and following nil is a panic.
pub mod Segments
pub mod Moves
pub mod Laws
mod Tests
use gocache.Prelude.{
  ℕ, ◌+◌, Bool, false, ◌&&◌, Option, none, some, [], ite, ℕ_discrete, Outcome, done, deref, ◌>>=◌,
  ◌==◌, if◌then◌else◌,
}
use gocache.Prelude.Maps.{Bytes}

pub record Node : Type 0 where
  pub key : Bytes
  pub prev : Option ℕ
  pub next : Option ℕ

abbrev pub Nodes : Type 0
Nodes = ℕ → Node

-- `fresh` is the next address that `&Node{}` gives out.
pub record Lru : Type 0 where
  pub head : Option ℕ
  pub tail : Option ℕ
  pub nodes : Nodes
  pub fresh : ℕ

abbrev pub no_node : Node
no_node = record { key = []; prev = none; next = none }

abbrev pub new : Lru
new = record { head = none; tail = none; nodes = λ n. no_node; fresh = 0 }

unfoldable pub set_node : Nodes → ℕ → Node → Nodes
set_node h m v k = ite (ℕ_discrete m k) v (h k)

-- `m.prev = p` and `m.next = q`
unfoldable pub set_prev : Nodes → ℕ → Option ℕ → Nodes
unfolding set_node
set_prev h m p = set_node h m (record (h m) { prev = p })

unfoldable pub set_next : Nodes → ℕ → Option ℕ → Nodes
unfolding set_node
set_next h m q = set_node h m (record (h m) { next = q })

-- pointer equality with a node
abbrev pub is_at : Option ℕ → ℕ → Bool
is_at none n = false
is_at (some m) n = m == n

abbrev pub is_nil : Option ℕ → Bool
is_nil none = Bool.true
is_nil (some m) = false

remove_head : ℕ → Lru → Outcome Lru
remove_head n l = do
  m ← deref (l.nodes n).next
  done (record l { head = (l.nodes n).next; nodes = set_prev l.nodes m none })

remove_tail : ℕ → Lru → Outcome Lru
remove_tail n l = do
  m ← deref (l.nodes n).prev
  done (record l { tail = (l.nodes n).prev; nodes = set_next l.nodes m none })

remove_middle : ℕ → Lru → Outcome Lru
remove_middle n l = do
  p ← deref (l.nodes n).prev
  let h = set_next l.nodes p (l.nodes n).next
  q ← deref (h n).next
  done (record l { nodes = set_prev h q (h n).prev })

unfoldable pub remove_node : ℕ → Lru → Outcome Lru
unfolding remove_head remove_tail remove_middle
remove_node n l =
    if is_at l.head n && is_at l.tail n
    then done (record l { head = none; tail = none })
    else if is_at l.head n
    then remove_head n l
    else if is_at l.tail n
    then remove_tail n l
    else remove_middle n l

add_to_empty : ℕ → Lru → Outcome Lru
add_to_empty n l =
    done
      (record l { head = some n; tail = some n; nodes = set_prev (set_next l.nodes n none) n none })

add_before_head : ℕ → Lru → Outcome Lru
add_before_head n l = do
  let h = set_next (set_prev l.nodes n none) n l.head
  m ← deref l.head
  done (record l { head = some n; nodes = set_prev h m (some n) })

unfoldable pub add_to_front : ℕ → Lru → Outcome Lru
unfolding add_to_empty add_before_head
add_to_front n l = if is_nil l.head && is_nil l.tail then add_to_empty n l else add_before_head n l

unfoldable pub move_to_front : ℕ → Lru → Outcome Lru
move_to_front n l = if is_at l.head n then done l else (do l' ← remove_node n l; add_to_front n l')

evict_at : Option ℕ → Lru → Outcome (Bytes × Lru)
evict_at none l = done ([], l)
evict_at (some t) l = do let key = (l.nodes t).key; l' ← remove_node t l; done (key, l')

-- `RemoveLRU`: the key at the tail, or the empty string.
unfoldable pub remove_lru : Lru → Outcome (Bytes × Lru)
unfolding evict_at
remove_lru l = evict_at l.tail l

-- `Add`: the address of the new node, and the list.
unfoldable pub add : Bytes → Lru → Outcome (ℕ × Lru)
add key l = do
  let n = l.fresh
  let h = set_node l.nodes n (record { key = key; prev = none; next = none })
  l' ← add_to_front n (record l { nodes = h; fresh = n + 1 })
  done (n, l')
