-- ===== src/Prelude/Lists.antt =====
-- Lists measured and indexed by native numbers, and predicates by recursion on a list.
use Prim.Native.Nat.{ℕ, zero, suc, ◌+◌}
use mathlib.Core.Path.{◌≡◌, refl, ap, sym, ◌∙◌}
use mathlib.Core.Logic.{◌≢◌, ◌⊎◌, inl, inr}
use mathlib.Core.List.{List, [], ◌∷◌, ◌++◌, map}
use mathlib.Core.Option.{Option, none, some}
use native.Mathlib.Omega.{arith}

module _ {ℓ} {A : Type ℓ} where
  abbrev pub length : List A → ℕ
  length [] = 0
  length (x ∷ xs) = suc (length xs)

  abbrev pub get_elem? : List A → ℕ → Option A
  get_elem? [] i = none
  get_elem? (x ∷ xs) zero = some x
  get_elem? (x ∷ xs) (suc i) = get_elem? xs i

  abbrev pub take : ℕ → List A → List A
  take zero xs = []
  take (suc n) [] = []
  take (suc n) (x ∷ xs) = x ∷ take n xs

  abbrev pub drop : ℕ → List A → List A
  drop zero xs = xs
  drop (suc n) [] = []
  drop (suc n) (x ∷ xs) = drop n xs

  pub length-append : (xs ys : List A) → length (xs ++ ys) ≡ length xs + length ys
  length-append [] ys = omega arith
  length-append (x ∷ xs) ys = omega (arith, length-append xs ys)

module _ {ℓ κ} {A : Type ℓ} (P : A → Type κ) where
  abbrev pub All : List A → Type κ
  All [] = Unit
  All (x ∷ xs) = P x × All xs

  pub All-append : (xs ys : List A) → All xs → All ys → All (xs ++ ys)
  All-append [] ys hx hy = hy
  All-append (x ∷ xs) ys hx hy = (hx.0, All-append xs ys hx.1 hy)

  pub All-append_left : (xs ys : List A) → All (xs ++ ys) → All xs
  All-append_left [] ys h = tt
  All-append_left (x ∷ xs) ys h = (h.0, All-append_left xs ys h.1)

  pub All-append_right : (xs ys : List A) → All (xs ++ ys) → All ys
  All-append_right [] ys h = h
  All-append_right (x ∷ xs) ys h = All-append_right xs ys h.1

module _ {ℓ} {A : Type ℓ} where
  -- `a` is not among the items.
  abbrev pub Absent : A → List A → Type ℓ
  Absent a = All (λ x. x ≢ a)

  -- No item stands twice.
  abbrev pub Distinct : List A → Type ℓ
  Distinct [] = Unit
  Distinct (x ∷ xs) = Absent x xs × Distinct xs

  -- `a` is among the items, with its place.
  abbrev pub Within : A → List A → Type ℓ
  Within a [] = Unit → ⊥
  Within a (x ∷ xs) = (x ≡ a) ⊎ Within a xs

  pub length-map {κ} : {B : Type κ} (f : A → B) (xs : List A) → length (map f xs) ≡ length xs
  length-map f [] = refl
  length-map f (x ∷ xs) = ap suc (length-map f xs)

  pub ne_of_Within : {a b : A} (xs : List A) → Absent a xs → Within b xs → b ≢ a
  ne_of_Within [] h w = absurd (w tt)
  ne_of_Within (x ∷ xs) h (inl p) = λ q. h.0 (p ∙ q)
  ne_of_Within (x ∷ xs) h (inr w) = ne_of_Within xs h.1 w

  pub Distinct-middle :
      (xs : List A) (n : A) (ys : List A)
      → Distinct (xs ++ n ∷ ys)
      → Distinct (xs ++ ys) × Absent n (xs ++ ys)
  Distinct-middle [] n ys d = (d.1, d.0)
  Distinct-middle (x ∷ xs) n ys d =
      let (rest, out) = Distinct-middle xs n ys d.1 in
      let here = All-append_right (λ y. y ≢ x) xs (n ∷ ys) d.0 in
      let left = All-append_left (λ y. y ≢ x) xs (n ∷ ys) d.0 in
      ((All-append (λ y. y ≢ x) xs ys left here.1, rest), (λ p. here.0 (sym p), out))

  pub Distinct-left : (xs ys : List A) → Distinct (xs ++ ys) → Distinct xs
  Distinct-left [] ys d = tt
  Distinct-left (x ∷ xs) ys d = (All-append_left (λ y. y ≢ x) xs ys d.0, Distinct-left xs ys d.1)

  pub All-middle {κ} :
      (P : A → Type κ) (xs : List A) (n : A) (ys : List A) → All P (xs ++ n ∷ ys) → All P (xs ++ ys)
  All-middle P [] n ys h = h.1
  All-middle P (x ∷ xs) n ys h = (h.0, All-middle P xs n ys h.1)

  -- A list is empty, or it has a last item.
  pub snoc-cases : (xs : List A) → (xs ≡ []) ⊎ ((ys : List A) × (y : A) × (xs ≡ ys ++ y ∷ []))
  snoc-cases [] = inl refl
  snoc-cases (x ∷ xs) = elim (snoc-cases xs) [
    | inl e ↦ inr ([], x, ap (◌∷◌ x) e)
    | inr (ys, y, e) ↦ inr (x ∷ ys, y, ap (◌∷◌ x) e)
  ]

  pub Within-split :
      (a : A) (xs : List A) → Within a xs → (ys : List A) × (zs : List A) × (xs ≡ ys ++ a ∷ zs)
  Within-split a [] w = absurd (w tt)
  Within-split a (x ∷ xs) (inl p) = ([], xs, ap (λ (b : A). b ∷ xs) p)
  Within-split a (x ∷ xs) (inr w) =
      let (ys, zs, e) = Within-split a xs w in (x ∷ ys, zs, ap (◌∷◌ x) e)

  -- A list with one more item in the middle holds that item and those of the list.
  pub Within-middle :
      (a : A) (xs : List A) (n : A) (ys : List A)
      → Within a (xs ++ n ∷ ys)
      → (n ≡ a) ⊎ Within a (xs ++ ys)
  Within-middle a [] n ys w = w
  Within-middle a (x ∷ xs) n ys (inl p) = inr (inl p)
  Within-middle a (x ∷ xs) n ys (inr w) = elim (Within-middle a xs n ys w) [
    | inl p ↦ inl p
    | inr v ↦ inr (inr v)
  ]

  pub Within-insert :
      (a : A) (xs : List A) (n : A) (ys : List A) → Within a (xs ++ ys) → Within a (xs ++ n ∷ ys)
  Within-insert a [] n ys w = inr w
  Within-insert a (x ∷ xs) n ys (inl p) = inl p
  Within-insert a (x ∷ xs) n ys (inr w) = inr (Within-insert a xs n ys w)

  pub Within-at : (a : A) (xs ys : List A) → Within a (xs ++ a ∷ ys)
  Within-at a [] ys = inl refl
  Within-at a (x ∷ xs) ys = inr (Within-at a xs ys)

  pub Within-append : (a : A) (xs ys : List A) → Within a (xs ++ ys) → Within a xs ⊎ Within a ys
  Within-append a [] ys w = inr w
  Within-append a (x ∷ xs) ys (inl p) = inl (inl p)
  Within-append a (x ∷ xs) ys (inr w) = elim (Within-append a xs ys w) [
    | inl v ↦ inl (inr v)
    | inr v ↦ inr v
  ]
