-- ===== src/Ring/Search.antt =====
-- sort.Search in internal/cluster/hash.go, against a scan from the left.
use gocache.Prelude.{
  ℕ, zero, suc, ◌+◌, ◌-◌, ◌/◌, ◌≤◌, ◌<◌, ◌≡◌, refl, inl, inr, List, [], ◌∷◌, arith, All, length,
  ltb, leb, if◌then◌else◌, Bool-cases, ltb→lt,
}
use gocache.Ring.{value_at, search_between, search_ge, successor}

abbrev pub IsSorted : List ℕ → Type 0
IsSorted [] = Unit
IsSorted (x ∷ xs) = All (λ y. x ≤ y) xs × IsSorted xs

-- How many values stand before the first one at or after `v`.
unfoldable pub first_ge : List ℕ → ℕ → ℕ
first_ge [] v = 0
first_ge (x ∷ xs) v = let rest = first_ge xs v in if ltb x v then suc rest else 0

first_ge-le : (xs : List ℕ) (v : ℕ) → first_ge xs v ≤ length xs
unfolding first_ge
first_ge-le [] v = omega arith
first_ge-le (x ∷ xs) v = ground (arith, first_ge-le xs v)

All-value_at :
    (k : ℕ) (xs : List ℕ) (h : ℕ) → All (λ y. k ≤ y) xs → h < length xs → k ≤ value_at xs h
All-value_at k [] h a lt = absurd (omega arith)
All-value_at k (x ∷ xs) zero a lt = a.0
All-value_at k (x ∷ xs) (suc h) a lt = All-value_at k xs h a.1 (omega arith)

below :
    (xs : List ℕ) (v h : ℕ) → IsSorted xs → h < length xs → value_at xs h < v → h < first_ge xs v
unfolding first_ge
below [] v h s lt b = absurd (omega arith)
below (x ∷ xs) v zero s lt b = ground arith
below (x ∷ xs) v (suc h) s lt b =
    ground (arith, below xs v h s.1 (omega arith) b, All-value_at x xs h s.0 (omega arith))

above : (xs : List ℕ) (v h : ℕ) → h < length xs → v ≤ value_at xs h → first_ge xs v ≤ h
unfolding first_ge
above [] v h lt b = absurd (omega arith)
above (x ∷ xs) v zero lt b = ground arith
above (x ∷ xs) v (suc h) lt b = ground (arith, above xs v h (omega arith) b)

search_between-lem :
    (f : ℕ) (xs : List ℕ) (v i j : ℕ)
    → IsSorted xs
    → i ≤ first_ge xs v
    → first_ge xs v ≤ j
    → j ≤ length xs
    → j - i < f
    → search_between f xs v i j ≡ first_ge xs v
unfolding search_between
search_between-lem zero xs v i j s lo hi len fuel = absurd (omega arith)
search_between-lem (suc f) xs v i j s lo hi len fuel = elim (Bool-cases (ltb i j)) [
  | inr stop ↦ rw stop (ground arith)
  | inl go ↦
      let lt : i < j = ltb→lt i j go in
      let h = (i + j) / 2 in
      elim (Bool-cases (ltb (value_at xs h) v)) [
        | inl t ↦
            rw (go, t)
              (search_between-lem f xs v (h + 1) j s
                (omega (arith, below xs v h s (omega arith) (ltb→lt _ _ t))) hi len (omega arith))
        | inr t ↦
            rw (go, t)
              (search_between-lem f xs v i h s lo (above xs v h (omega arith) (ground arith))
                (omega arith) (omega arith))
      ]
]

-- On a sorted list the binary search of the ring finds the index of the first value at or after
-- the one sought, which is the length of the list if there is none.
pub search_ge-first_ge : (xs : List ℕ) (v : ℕ) → IsSorted xs → search_ge xs v ≡ first_ge xs v
unfolding search_ge
search_ge-first_ge xs v s =
    search_between-lem (suc (length xs)) xs v 0 (length xs) s (omega arith) (first_ge-le xs v)
      (omega arith) (omega arith)

-- The first value at or after `v`, or `d` if there is none.
unfoldable pub next_or : ℕ → List ℕ → ℕ → ℕ
next_or d [] v = d
next_or d (x ∷ xs) v = let rest = next_or d xs v in if ltb x v then rest else x

next_or-value_at :
    (d : ℕ) (xs : List ℕ) (v : ℕ)
    → next_or d xs v ≡ (if leb (length xs) (first_ge xs v) then d else value_at xs (first_ge xs v))
unfolding next_or first_ge
next_or-value_at d [] v = refl
next_or-value_at d (x ∷ xs) v = elim (Bool-cases (ltb x v)) [
  | inl t ↦ ground (arith, t, next_or-value_at d xs v)
  | inr f ↦ ground (arith, f)
]

-- On a nonempty sorted list the position that GetShard picks, wrapping round behind the end, is
-- the first value at or after the hash, or the first value of the list if there is none.
pub successor-next_or :
    (x : ℕ) (xs : List ℕ) (v : ℕ) → IsSorted (x ∷ xs) → successor (x ∷ xs) v ≡ next_or x (x ∷ xs) v
unfolding successor
successor-next_or x xs v s =
    let found = search_ge-first_ge (x ∷ xs) v s in
    elim (Bool-cases (leb (length (x ∷ xs)) (first_ge (x ∷ xs) v))) [
      | inl t ↦ ground (arith, found, t, next_or-value_at x (x ∷ xs) v)
      | inr f ↦ ground (arith, found, f, next_or-value_at x (x ∷ xs) v)
    ]
