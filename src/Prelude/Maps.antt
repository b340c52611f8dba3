-- ===== src/Prelude/Maps.antt =====
-- Go maps as association lists with one entry for each key, over keys with decidable equality.
-- The order of the entries stands for the order, unspecified in Go, in which `range` visits them.
use Prim.Native.Nat.{ℕ, suc, ◌+◌}
use mathlib.Core.Path.{◌≡◌, refl, sym, ◌∙◌}
use mathlib.Core.Logic.{◌≢◌, ite, if_pos, if_neg}
use mathlib.Core.List.{List, [], ◌∷◌}
use mathlib.Core.Option.{Option, none, some}
use native.Mathlib.Decide.{ℕ_discrete}
use native.Mathlib.Omega.{arith}
use gocache.Prelude.Tests.{ite_intro}
use gocache.Prelude.Lists.{length, All}

pub record Key {ℓ} (K : Type ℓ) : Type ℓ where
  pub dec : Discrete K

instance abbrev pub nat_key : Key ℕ
nat_key = record { dec = ℕ_discrete }

abbrev pub Bytes : Type 0
Bytes = List ℕ

-- Go's `==` on strings.
unfoldable pub bytes_discrete : Discrete Bytes
unfolding ℕ_discrete
bytes_discrete [] [] = yes refl
bytes_discrete [] (b ∷ bs) = no (λ p. cc)
bytes_discrete (a ∷ as') [] = no (λ p. cc)
bytes_discrete (a ∷ as') (b ∷ bs) = elim (ℕ_discrete a b) [
  | no p ↦ no (λ q. p (cc))
  | yes p ↦ elim (bytes_discrete as' bs) [ no r ↦ no (λ q. r (cc)) | yes r ↦ yes (cc) ]
]

instance abbrev pub bytes_key : Key Bytes
bytes_key = record { dec = bytes_discrete }

abbrev pub keys {ℓ} : {K V : Type ℓ} → List (K × V) → List K
keys [] = []
keys ((k, v) ∷ m) = k ∷ keys m

-- No entry has the key.
abbrev pub Missing {ℓ} : {K V : Type ℓ} → K → List (K × V) → Type ℓ
Missing k = All (λ e. e.0 ≢ k)

-- Each key has one entry.
abbrev pub IsMap {ℓ} : {K V : Type ℓ} → List (K × V) → Type ℓ
IsMap [] = Unit
IsMap ((k, v) ∷ m) = Missing k m × IsMap m

-- A measure added up over the entries.
abbrev pub total {ℓ} : {K V : Type ℓ} → (K → V → ℕ) → List (K × V) → ℕ
total f [] = 0
total f ((k, v) ∷ m) = f k v + total f m

module _ {ℓ} {K V : Type ℓ} ⦃e : Key K⦄ where
  -- `v, ok := m[k]`
  unfoldable pub get : K → List (K × V) → Option V
  get k [] = none
  get k ((j, v) ∷ m) = ite (e.dec j k) (some v) (get k m)

  -- `m[k] = v`
  unfoldable pub put : K → V → List (K × V) → List (K × V)
  put k v [] = (k, v) ∷ []
  put k v ((j, w) ∷ m) = ite (e.dec j k) ((k, v) ∷ m) ((j, w) ∷ put k v m)

  -- `delete(m, k)`
  unfoldable pub delete : K → List (K × V) → List (K × V)
  delete k [] = []
  delete k ((j, w) ∷ m) = ite (e.dec j k) (delete k m) ((j, w) ∷ delete k m)

  pub get-put :
      (k j : K) (v : V) (m : List (K × V)) → get j (put k v m) ≡ ite (e.dec k j) (some v) (get j m)
  unfolding get put
  get-put k j v [] = refl
  get-put k j v ((i, w) ∷ m) = ground (arith, get-put k j v m)

  pub get-delete :
      (k j : K) (m : List (K × V)) → get j (delete k m) ≡ ite (e.dec k j) none (get j m)
  unfolding get delete
  get-delete k j [] = ground arith
  get-delete k j ((i, w) ∷ m) = ground (arith, get-delete k j m)

  pub get-put_same : (k : K) (v : V) (m : List (K × V)) → get k (put k v m) ≡ some v
  get-put_same k v m = get-put k k v m ∙ if_pos (e.dec k k) refl (some v) (get k m)

  pub get-put_other : (k j : K) (v : V) (m : List (K × V)) → k ≢ j → get j (put k v m) ≡ get j m
  get-put_other k j v m n = get-put k j v m ∙ if_neg (e.dec k j) n (some v) (get j m)

  pub get-delete_same : (k : K) (m : List (K × V)) → get k (delete k m) ≡ none
  get-delete_same k m = get-delete k k m ∙ if_pos (e.dec k k) refl none (get k m)

  pub get-delete_other : (k j : K) (m : List (K × V)) → k ≢ j → get j (delete k m) ≡ get j m
  get-delete_other k j m n = get-delete k j m ∙ if_neg (e.dec k j) n none (get j m)

  pub All-put {κ} :
      (P : K × V → Type κ) (k : K) (v : V) (m : List (K × V))
      → P (k, v)
      → All P m
      → All P (put k v m)
  unfolding put
  All-put P k v [] p h = (p, tt)
  All-put P k v ((i, w) ∷ m) p h =
      ite_intro (All P) (e.dec i k) ((k, v) ∷ m) ((i, w) ∷ put k v m) (λ q. (p, h.1))
        (λ q. (h.0, All-put P k v m p h.1))

  pub All-delete {κ} :
      (P : K × V → Type κ) (k : K) (m : List (K × V)) → All P m → All P (delete k m)
  unfolding delete
  All-delete P k [] h = tt
  All-delete P k ((i, w) ∷ m) h =
      ite_intro (All P) (e.dec i k) (delete k m) ((i, w) ∷ delete k m) (λ q. All-delete P k m h.1)
        (λ q. (h.0, All-delete P k m h.1))

  pub IsMap-put : (k : K) (v : V) (m : List (K × V)) → IsMap m → IsMap (put k v m)
  unfolding put
  IsMap-put k v [] h = (tt, tt)
  IsMap-put k v ((i, w) ∷ m) h =
      ite_intro IsMap (e.dec i k) ((k, v) ∷ m) ((i, w) ∷ put k v m) (λ q. (rw (← q) h.0, h.1))
        (λ q. (All-put (λ x. x.0 ≢ i) k v m (λ r. q (sym r)) h.0, IsMap-put k v m h.1))

  pub IsMap-delete : (k : K) (m : List (K × V)) → IsMap m → IsMap (delete k m)
  unfolding delete
  IsMap-delete k [] h = tt
  IsMap-delete k ((i, w) ∷ m) h =
      ite_intro IsMap (e.dec i k) (delete k m) ((i, w) ∷ delete k m) (λ q. IsMap-delete k m h.1)
        (λ q. (All-delete (λ x. x.0 ≢ i) k m h.0, IsMap-delete k m h.1))

  pub get-Missing : (k : K) (m : List (K × V)) → Missing k m → get k m ≡ none
  unfolding get
  get-Missing k [] h = refl
  get-Missing k ((i, w) ∷ m) h = rw (if_neg _ h.0) (get-Missing k m h.1)

  pub delete-Missing : (k : K) (m : List (K × V)) → Missing k m → delete k m ≡ m
  unfolding delete
  delete-Missing k [] h = refl
  delete-Missing k ((i, w) ∷ m) h = rw (if_neg _ h.0, delete-Missing k m h.1)

  pub length-put_new :
      (k : K) (v : V) (m : List (K × V)) → get k m ≡ none → length (put k v m) ≡ suc (length m)
  unfolding get put
  length-put_new k v [] h = refl
  length-put_new k v ((i, w) ∷ m) h = ground (arith, length-put_new k v m)

  pub length-put_old :
      (k : K) (v w : V) (m : List (K × V)) → get k m ≡ some w → length (put k v m) ≡ length m
  unfolding get put
  length-put_old k v w [] h = cc
  length-put_old k v w ((i, x) ∷ m) h = ground (arith, length-put_old k v w m)

  pub total-put_new :
      (f : K → V → ℕ) (k : K) (v : V) (m : List (K × V))
      → get k m ≡ none
      → total f (put k v m) ≡ total f m + f k v
  unfolding get put
  total-put_new f k v [] h = omega arith
  total-put_new f k v ((i, w) ∷ m) h = ground (arith, total-put_new f k v m)

  pub total-put_old :
      (f : K → V → ℕ) (k : K) (v w : V) (m : List (K × V))
      → get k m ≡ some w
      → total f (put k v m) + f k w ≡ total f m + f k v
  unfolding get put
  total-put_old f k v w [] h = cc
  total-put_old f k v w ((i, x) ∷ m) h = ground (arith, total-put_old f k v w m)

  pub total-delete :
      (f : K → V → ℕ) (k : K) (w : V) (m : List (K × V))
      → IsMap m
      → get k m ≡ some w
      → total f (delete k m) + f k w ≡ total f m
  unfolding get delete
  total-delete f k w [] d h = cc
  total-delete f k w ((i, x) ∷ m) d h = elim (e.dec i k) [
    | yes p ↦ ground (arith, delete-Missing k m (rw (← p) d.0))
    | no p ↦ ground (arith, total-delete f k w m d.1)
  ]

  pub length-delete :
      (k : K) (w : V) (m : List (K × V))
      → IsMap m
      → get k m ≡ some w
      → suc (length (delete k m)) ≡ length m
  unfolding get delete
  length-delete k w [] d h = cc
  length-delete k w ((i, x) ∷ m) d h = elim (e.dec i k) [
    | yes p ↦ ground (arith, delete-Missing k m (rw (← p) d.0))
    | no p ↦ ground (arith, length-delete k w m d.1)
  ]
