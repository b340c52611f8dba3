-- ===== src/Lru/Segments.antt =====
-- List segments of the heap of internal/lru/lru.go.
use gocache.Prelude.{ℕ, ◌≡◌, refl, Option, none, some, List, [], ◌∷◌, ◌++◌, arith, Absent}
use gocache.Lru.{Node, Nodes, set_node, set_prev, set_next}

-- The first node of a segment, or where it leads if it is empty; the same from the other end.
abbrev pub first : List ℕ → Option ℕ → Option ℕ
first [] q = q
first (n ∷ ns) q = some n

abbrev pub final : Option ℕ → List ℕ → Option ℕ
final p [] = p
final p (n ∷ ns) = final (some n) ns

-- `ns` is linked in both directions, from `p` before it to `q` behind it.
abbrev pub Segment : Nodes → Option ℕ → List ℕ → Option ℕ → Type 0
Segment h p [] q = Unit
Segment h p (n ∷ ns) q = ((h n).prev ≡ p) × ((h n).next ≡ first ns q) × Segment h (some n) ns q

pub final-append :
    (p : Option ℕ) (xs : List ℕ) (n : ℕ) (ys : List ℕ) → final p (xs ++ n ∷ ys) ≡ final (some n) ys
final-append p [] n ys = refl
final-append p (x ∷ xs) n ys = final-append (some x) xs n ys

pub Segment-split :
    (h : Nodes) (p : Option ℕ) (xs ys : List ℕ) (q : Option ℕ)
    → Segment h p (xs ++ ys) q
    → Segment h p xs (first ys q) × Segment h (final p xs) ys q
Segment-split h p [] ys q s = (tt, s)
Segment-split h p (x ∷ []) ys q s = ((s.0, s.1, tt), s.2)
Segment-split h p (x ∷ y ∷ xs) ys q s =
    let (a, b) = Segment-split h (some x) (y ∷ xs) ys q s.2 in ((s.0, s.1, a), b)

pub Segment-join :
    (h : Nodes) (p : Option ℕ) (xs ys : List ℕ) (q : Option ℕ)
    → Segment h p xs (first ys q)
    → Segment h (final p xs) ys q
    → Segment h p (xs ++ ys) q
Segment-join h p [] ys q a b = b
Segment-join h p (x ∷ []) ys q a b = (a.0, a.1, b)
Segment-join h p (x ∷ y ∷ xs) ys q a b = (a.0, a.1, Segment-join h (some x) (y ∷ xs) ys q a.2 b)

-- A write elsewhere leaves the segment.
pub Segment-set_node :
    (h : Nodes) (p : Option ℕ) (xs : List ℕ) (q : Option ℕ) (m : ℕ) (v : Node)
    → Absent m xs
    → Segment h p xs q
    → Segment (set_node h m v) p xs q
unfolding set_node
Segment-set_node h p [] q m v a s = tt
Segment-set_node h p (x ∷ xs) q m v a s =
    (ground arith, ground arith, Segment-set_node h (some x) xs q m v a.1 s.2)

pub Segment-set_prev_elsewhere :
    (h : Nodes) (xs : List ℕ) (q : Option ℕ) (m : ℕ) (v : Option ℕ)
    → Absent m xs
    → Segment h none xs q
    → Segment (set_prev h m v) none xs q
unfolding set_prev
Segment-set_prev_elsewhere h xs q m v a s =
    Segment-set_node h none xs q m (record (h m) { prev = v }) a s

pub Segment-set_next_elsewhere :
    (h : Nodes) (p : Option ℕ) (xs : List ℕ) (m : ℕ) (v : Option ℕ)
    → Absent m xs
    → Segment h p xs none
    → Segment (set_next h m v) p xs none
unfolding set_next
Segment-set_next_elsewhere h p xs m v a s =
    Segment-set_node h p xs none m (record (h m) { next = v }) a s

pub Segment-set_prev :
    (h : Nodes) (p p' : Option ℕ) (x : ℕ) (xs : List ℕ) (q : Option ℕ)
    → Absent x xs
    → Segment h p (x ∷ xs) q
    → Segment (set_prev h x p') p' (x ∷ xs) q
unfolding set_prev
Segment-set_prev h p p' x xs q a s = (
  ground arith,
  ground arith,
  Segment-set_node h (some x) xs q x (record (h x) { prev = p' }) a s.2,
)

-- The write of the last node's `next`.
pub Segment-set_next :
    (h : Nodes) (p : Option ℕ) (xs : List ℕ) (x : ℕ) (q q' : Option ℕ)
    → Absent x xs
    → Segment h p (xs ++ x ∷ []) q
    → Segment (set_next h x q') p (xs ++ x ∷ []) q'
unfolding set_next
Segment-set_next h p xs x q q' a s =
    let (before, here) = Segment-split h p xs (x ∷ []) q s in
    Segment-join (set_next h x q') p xs (x ∷ []) q'
      (Segment-set_node h p xs (some x) x (record (h x) { next = q' }) a before)
      (ground arith, ground arith, tt)
