-- ===== src/Ring/Positions.antt =====
-- internal/cluster/hash.go: the positions of the ring, with new ones put in.
use mathlib.Core.List.{append-nil, append_assoc}
use mathlib.Core.Path.{subst}
use gocache.Prelude.{
  ℕ, suc, ◌+◌, ◌≤◌, ◌<◌, ◌≡◌, refl, sym, ap, ◌∙◌, ◌⊎◌, inl, inr, true, false, List, [], ◌∷◌, ◌++◌,
  arith, All, All-append, Within, length, ltb, Bool-cases, ltb→lt,
}
use gocache.Prelude.Maps.{nat_key, bytes_key}
use gocache.Ring.{insert_sorted, sort_into, successor}
use gocache.Ring.Search.{IsSorted, next_or, successor-next_or}

All-insert_sorted :
    (k w : ℕ) (xs : List ℕ) → k ≤ w → All (λ y. k ≤ y) xs → All (λ y. k ≤ y) (insert_sorted w xs)
unfolding insert_sorted
All-insert_sorted k w [] le h = (le, tt)
All-insert_sorted k w (x ∷ xs) le h = elim (Bool-cases (ltb w x)) [
  | inl t ↦ rw t (le, h)
  | inr f ↦ rw f (h.0, All-insert_sorted k w xs le h.1)
]

All-le_trans : (j k : ℕ) (xs : List ℕ) → j ≤ k → All (λ y. k ≤ y) xs → All (λ y. j ≤ y) xs
All-le_trans j k [] le h = tt
All-le_trans j k (x ∷ xs) le h = (omega arith, All-le_trans j k xs le h.1)

insert_sorted-IsSorted : (w : ℕ) (xs : List ℕ) → IsSorted xs → IsSorted (insert_sorted w xs)
unfolding insert_sorted
insert_sorted-IsSorted w [] s = (tt, tt)
insert_sorted-IsSorted w (x ∷ xs) s = elim (Bool-cases (ltb w x)) [
  | inl t ↦ let lt = ltb→lt w x t in rw t ((omega arith, All-le_trans w x xs (omega arith) s.0), s)
  | inr f ↦
      let le : x ≤ w = ground arith in
      rw f (All-insert_sorted x w xs le s.0, insert_sorted-IsSorted w xs s.1)
]

pub sort_into-IsSorted : (vs xs : List ℕ) → IsSorted xs → IsSorted (sort_into vs xs)
unfolding sort_into
sort_into-IsSorted [] xs s = s
sort_into-IsSorted (v ∷ vs) xs s =
    sort_into-IsSorted vs (insert_sorted v xs) (insert_sorted-IsSorted v xs s)

sort_into-append : (us vs xs : List ℕ) → sort_into (us ++ vs) xs ≡ sort_into vs (sort_into us xs)
unfolding sort_into
sort_into-append [] vs xs = refl
sort_into-append (u ∷ us) vs xs = sort_into-append us vs (insert_sorted u xs)

insert_sorted-snoc : (w : ℕ) (xs : List ℕ) → All (λ y. y ≤ w) xs → insert_sorted w xs ≡ xs ++ w ∷ []
unfolding insert_sorted
insert_sorted-snoc w [] h = refl
insert_sorted-snoc w (x ∷ xs) h =
    let late : ltb w x ≡ false = ground (arith, h.0) in
    rw late (ap (◌∷◌ x) (insert_sorted-snoc w xs h.1))

-- Sorting what is sorted already changes nothing.
sort_into-sorted :
    (us xs : List ℕ) → IsSorted us → All (λ x. All (λ u. x ≤ u) us) xs → sort_into us xs ≡ xs ++ us
unfolding sort_into
sort_into-sorted [] xs s h = sym (append-nil xs)
sort_into-sorted (u ∷ us) xs s h =
    ap (sort_into us) (insert_sorted-snoc u xs (heads xs h))
    ∙ sort_into-sorted us (xs ++ u ∷ []) s.1
        (All-append (λ x. All (λ y. x ≤ y) us) xs (u ∷ []) (tails xs h) (s.0, tt))
    ∙ append_assoc xs (u ∷ []) us
  where
    heads : (ys : List ℕ) → All (λ x. All (λ y. x ≤ y) (u ∷ us)) ys → All (λ y. y ≤ u) ys
    heads [] k = tt
    heads (y ∷ ys) k = (k.0.0, heads ys k.1)

    tails :
        (ys : List ℕ) → All (λ x. All (λ y. x ≤ y) (u ∷ us)) ys → All (λ x. All (λ y. x ≤ y) us) ys
    tails [] k = tt
    tails (y ∷ ys) k = (k.0.1, tails ys k.1)

-- The positions after AddShard: those of before with the new ones put in one by one.
pub add_values : (us vs : List ℕ) → IsSorted us → sort_into (us ++ vs) [] ≡ sort_into vs us
add_values us vs s = sort_into-append us vs [] ∙ ap (sort_into vs) (sort_into-sorted us [] s tt)

next_or-insert_sorted :
    (d w v : ℕ) (xs : List ℕ)
    → (next_or d (insert_sorted w xs) v ≡ w) ⊎ (next_or d (insert_sorted w xs) v ≡ next_or d xs v)
unfolding next_or insert_sorted
next_or-insert_sorted d w v [] = ground arith
next_or-insert_sorted d w v (x ∷ xs) = ground (arith, next_or-insert_sorted d w v xs)

next_or-default :
    (d e v : ℕ) (xs : List ℕ) → (next_or d xs v ≡ d) ⊎ (next_or d xs v ≡ next_or e xs v)
unfolding next_or
next_or-default d e v [] = inl refl
next_or-default d e v (x ∷ xs) = ground (arith, next_or-default d e v xs)

successor-insert_sorted :
    (w v : ℕ) (xs : List ℕ)
    → IsSorted xs
    → 0 < length xs
    → (successor (insert_sorted w xs) v ≡ w) ⊎ (successor (insert_sorted w xs) v ≡ successor xs v)
successor-insert_sorted w v [] s h = absurd (omega arith)
successor-insert_sorted w v (x ∷ xs) s h =
    let old = successor-next_or x xs v s in
    let sorted = insert_sorted-IsSorted w (x ∷ xs) s in
    elim (Bool-cases (ltb w x)) [
      | inl t ↦
          let form : insert_sorted w (x ∷ xs) ≡ w ∷ x ∷ xs =
            unfold insert_sorted in ground (arith, t) in
          let new =
            successor-next_or w (x ∷ xs) v (subst (λ (l : List ℕ). IsSorted l) form sorted) in
          rw (form, new, old) (unfold next_or in ground (arith, next_or-default w x v xs))
      | inr f ↦
          let form : insert_sorted w (x ∷ xs) ≡ x ∷ insert_sorted w xs =
            unfold insert_sorted in ground (arith, f) in
          let new =
            successor-next_or x (insert_sorted w xs) v
              (subst (λ (l : List ℕ). IsSorted l) form sorted) in
          rw (form, new, old) (unfold next_or in ground (arith, next_or-insert_sorted x w v xs))
    ]

length-insert_sorted : (w : ℕ) (xs : List ℕ) → length (insert_sorted w xs) ≡ suc (length xs)
unfolding insert_sorted
length-insert_sorted w [] = refl
length-insert_sorted w (x ∷ xs) = ground (arith, length-insert_sorted w xs)

pub length-sort_into : (vs xs : List ℕ) → length (sort_into vs xs) ≡ length vs + length xs
unfolding sort_into
length-sort_into [] xs = omega arith
length-sort_into (v ∷ vs) xs =
    omega (arith, length-sort_into vs (insert_sorted v xs), length-insert_sorted v xs)

-- With new positions put in, a hash belongs to one of them or to the position of before.
pub successor-sort_into :
    (vs : List ℕ) (v : ℕ) (xs : List ℕ)
    → IsSorted xs
    → 0 < length xs
    → Within (successor (sort_into vs xs) v) vs ⊎ (successor (sort_into vs xs) v ≡ successor xs v)
unfolding sort_into
successor-sort_into [] v xs s h = inr refl
successor-sort_into (w ∷ vs) v xs s h =
    let ih =
      successor-sort_into vs v (insert_sorted w xs) (insert_sorted-IsSorted w xs s)
        (omega (arith, length-insert_sorted w xs)) in
    elim ih [
      | inl new ↦ inl (inr new)
      | inr same ↦ elim (successor-insert_sorted w v xs s h) [
        | inl p ↦ inl (inl (sym (same ∙ p)))
        | inr p ↦ inr (same ∙ p)
      ]
    ]

Within-insert_sorted :
    (h w : ℕ) (xs : List ℕ) → Within h (insert_sorted w xs) → (w ≡ h) ⊎ Within h xs
unfolding insert_sorted
Within-insert_sorted h w [] (inl p) = inl p
Within-insert_sorted h w [] (inr e) = absurd (e tt)
Within-insert_sorted h w (x ∷ xs) i = elim (Bool-cases (ltb w x)) [
  | inl t ↦ first t i
  | inr f ↦ elim (later f i) [
    | inl p ↦ inr (inl p)
    | inr v ↦ elim (Within-insert_sorted h w xs v) [ inl p ↦ inl p | inr u ↦ inr (inr u) ]
  ]
]
  where
    first : ltb w x ≡ true → Within h (insert_sorted w (x ∷ xs)) → (w ≡ h) ⊎ Within h (x ∷ xs)
    first t j = rw t at j

    later :
        ltb w x ≡ false
        → Within h (insert_sorted w (x ∷ xs))
        → (x ≡ h) ⊎ Within h (insert_sorted w xs)
    later f j = rw f at j

pub Within-sort_into :
    (h : ℕ) (vs xs : List ℕ) → Within h (sort_into vs xs) → Within h vs ⊎ Within h xs
unfolding sort_into
Within-sort_into h [] xs i = inr i
Within-sort_into h (v ∷ vs) xs i = elim (Within-sort_into h vs (insert_sorted v xs) i) [
  | inl a ↦ inl (inr a)
  | inr b ↦ elim (Within-insert_sorted h v xs b) [ inl p ↦ inl (inl p) | inr c ↦ inr c ]
]
