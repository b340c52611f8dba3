-- ===== src/Lru/Laws.antt =====
-- What each method of internal/lru/lru.go does to a well-formed list.
use mathlib.Core.Path.{subst}
use gocache.Prelude.{
  ℕ, ◌+◌, ◌<◌, ◌≡◌, refl, ◌∙◌, ◌≢◌, inl, inr, none, some, List, [], ◌∷◌, ◌++◌, arith, All, Absent,
  All-append_right, Distinct-middle, snoc-cases, done,
}
use gocache.Prelude.Maps.{Bytes}
use gocache.Lru.{
  Lru, Node, new, set_node, set_prev, set_next, remove_node, add_to_front, move_to_front,
  remove_lru, add,
}
use gocache.Lru.Segments.{
  final-append, Segment-set_node, Segment-set_prev_elsewhere, Segment-set_next_elsewhere,
  Segment-set_prev,
}
use gocache.Lru.Moves.{
  IsList, SameKeys, Leaves, remove-only, remove-first, remove-last, remove-between,
}

pub IsList-new : IsList new []
IsList-new = record { at_head = refl; at_tail = refl; linked = tt; distinct = tt; allocated = tt }

-- RemoveNode on a node of a well-formed list, wherever it stands, ends without a panic in the
-- well-formed list without it, every key unchanged.
pub remove_node-Leaves :
    (l : Lru) (n : ℕ) (xs ys : List ℕ)
    → IsList l (xs ++ n ∷ ys)
    → Leaves (remove_node n l) l (xs ++ ys)
remove_node-Leaves l n xs [] r = elim (snoc-cases xs) [
  | inl e ↦ rw e (remove-only l n (subst (λ (zs : List ℕ). IsList l (zs ++ n ∷ [])) e r))
  | inr (zs, p, e) ↦
      rw e (remove-last l n zs p (subst (λ (ws : List ℕ). IsList l (ws ++ n ∷ [])) e r))
]
remove_node-Leaves l n xs (m ∷ ys) r = elim (snoc-cases xs) [
  | inl e ↦ rw e (remove-first l n m ys (subst (λ (zs : List ℕ). IsList l (zs ++ n ∷ m ∷ ys)) e r))
  | inr (zs, p, e) ↦
      rw e (remove-between l n zs p m ys (subst (λ (ws : List ℕ). IsList l (ws ++ n ∷ m ∷ ys)) e r))
]

-- A node outside the list becomes its head.
add-empty : (l : Lru) (n : ℕ) → n < l.fresh → IsList l [] → Leaves (add_to_front n l) l (n ∷ [])
unfolding add_to_front set_prev set_next
add-empty l n f r = (
  record l { head = some n; tail = some n; nodes = set_prev (set_next l.nodes n none) n none },
  ground (arith, r.at_head, r.at_tail),
  record {
    at_head = refl;
    at_tail = refl;
    linked = (ground arith, ground arith, tt);
    distinct = (tt, tt);
    allocated = (f, tt);
  },
  record { key_at = λ k. ground arith; fresh = refl },
)

add-front :
    (l : Lru) (n m : ℕ) (ns : List ℕ)
    → n < l.fresh
    → Absent n (m ∷ ns)
    → IsList l (m ∷ ns)
    → Leaves (add_to_front n l) l (n ∷ m ∷ ns)
unfolding add_to_front
add-front l n m ns f a r =
    let h = set_next (set_prev l.nodes n none) n (some m) in
    (
      record l { head = some n; nodes = set_prev h m (some n) },
      ground (arith, r.at_head),
      record {
        at_head = refl;
        at_tail = r.at_tail;
        linked = (
          unfold set_prev set_next in ground (arith, a.0),
          unfold set_prev set_next in ground (arith, a.0),
          Segment-set_prev h none (some n) m ns none r.distinct.0 (
              Segment-set_next_elsewhere (set_prev l.nodes n none) none (m ∷ ns) n (some m) a
                (Segment-set_prev_elsewhere l.nodes (m ∷ ns) none n none a r.linked)),
        );
        distinct = (a, r.distinct);
        allocated = (f, r.allocated);
      },
      record { key_at = λ k. unfold set_prev set_next in ground arith; fresh = refl },
    )

pub add_to_front-Leaves :
    (l : Lru) (n : ℕ) (ns : List ℕ)
    → n < l.fresh
    → Absent n ns
    → IsList l ns
    → Leaves (add_to_front n l) l (n ∷ ns)
add_to_front-Leaves l n [] f a r = add-empty l n f r
add_to_front-Leaves l n (m ∷ ns) f a r = add-front l n m ns f a r

SameKeys-trans : {a b c : Lru} → SameKeys a b → SameKeys b c → SameKeys a c
SameKeys-trans p q = record { key_at = λ k. q.key_at k ∙ p.key_at k; fresh = q.fresh ∙ p.fresh }

-- MoveToFront on a node of a well-formed list ends without a panic with that node at the head and
-- the others in their order, every key unchanged.
pub move_to_front-Leaves :
    (l : Lru) (n : ℕ) (xs ys : List ℕ)
    → IsList l (xs ++ n ∷ ys)
    → Leaves (move_to_front n l) l (n ∷ xs ++ ys)
unfolding move_to_front
move_to_front-Leaves l n [] ys r =
    (l, ground (arith, r.at_head), r, record { key_at = λ k. refl; fresh = refl })
move_to_front-Leaves l n (x ∷ xs) ys r =
    let (rest, out) = Distinct-middle (x ∷ xs) n ys r.distinct in
    let (l1, ran1, r1, same1) = remove_node-Leaves l n (x ∷ xs) ys r in
    let f : n < l.fresh = (All-append_right (λ k. k < l.fresh) (x ∷ xs) (n ∷ ys) r.allocated).0 in
    let (l2, ran2, r2, same2) =
      add_to_front-Leaves l1 n (x ∷ xs ++ ys) (omega (arith, same1.fresh)) out r1 in
    (l2, ground (arith, r.at_head, out.0, ran1, ran2), r2, SameKeys-trans same1 same2)

-- RemoveLRU on a well-formed nonempty list returns the key of the last node and leaves the
-- well-formed list without it.
pub remove_lru-Leaves :
    (l : Lru) (n : ℕ) (xs : List ℕ)
    → IsList l (xs ++ n ∷ [])
    → (l' : Lru) × (remove_lru l ≡ done ((l.nodes n).key, l'))
      × IsList l' (xs ++ [])
      × SameKeys l l'
unfolding remove_lru
remove_lru-Leaves l n xs r =
    let (l1, ran, r1, same) = remove_node-Leaves l n xs [] r in
    (l1, ground (arith, r.at_tail, final-append none xs n [], ran), r1, same)

-- On the empty list it changes nothing and returns the empty string.
pub remove_lru-empty : (l : Lru) → IsList l [] → remove_lru l ≡ done ([], l)
unfolding remove_lru
remove_lru-empty l r = ground (arith, r.at_tail)

Absent-fresh : (f : ℕ) (ns : List ℕ) → All (λ n. n < f) ns → Absent f ns
Absent-fresh f [] h = tt
Absent-fresh f (n ∷ ns) h = (omega arith, Absent-fresh f ns h.1)

All-lt_suc : (f : ℕ) (ns : List ℕ) → All (λ n. n < f) ns → All (λ n. n < f + 1) ns
All-lt_suc f [] h = tt
All-lt_suc f (n ∷ ns) h = (omega arith, All-lt_suc f ns h.1)

-- Add on a well-formed list puts a new node with the key at the head, at the next address, and
-- keeps the other keys.
pub add-Leaves :
    (l : Lru) (key : Bytes) (ns : List ℕ)
    → IsList l ns
    → (l' : Lru) × (add key l ≡ done (l.fresh, l'))
      × IsList l' (l.fresh ∷ ns)
      × ((l'.nodes l.fresh).key ≡ key)
      × ((k : ℕ) → k ≢ l.fresh → (l'.nodes k).key ≡ (l.nodes k).key)
      × (l'.fresh ≡ l.fresh + 1)
unfolding add
add-Leaves l key ns r =
    let f = l.fresh in
    let v : Node = record { key = key; prev = none; next = none } in
    let l1 : Lru = record l { nodes = set_node l.nodes f v; fresh = f + 1 } in
    let out = Absent-fresh f ns r.allocated in
    let r1 : IsList l1 ns = record {
      at_head = r.at_head;
      at_tail = r.at_tail;
      linked = Segment-set_node l.nodes none ns none f v out r.linked;
      distinct = r.distinct;
      allocated = All-lt_suc f ns r.allocated;
    } in
    let (l2, ran, r2, same) = add_to_front-Leaves l1 f ns (omega arith) out r1 in
    (
      l2,
      ground (arith, ran),
      r2,
      same.key_at f ∙ (unfold set_node in ground arith),
      (λ k ne. same.key_at k ∙ (unfold set_node in ground arith)),
      same.fresh,
    )
