-- ===== src/Migrator/Laws.antt =====
-- internal/cluster/migrator.go and transfer.go: what a migration does with the keys of this node.
use mathlib.Core.Path.{subst}
use gocache.Prelude.{
  ℕ, suc, ◌+◌, ◌<◌, ◌≡◌, refl, ap, ◌∙◌, Bool, true, false, Option, none, some, List, [], ◌∷◌,
  lt→ltb, take, drop, if_pos, if_neg, ◌≢◌, sym, inl, inr, Bool-cases, Option-cases, if◌then◌else◌,
  Outcome, done,
}
use gocache.Prelude.Maps.{Bytes, get, put, delete, get-delete_other, bytes_key, bytes_discrete}
use gocache.Resp.{Value, Items, str}
use gocache.Cache.{Cache, get_value, expired}
use gocache.Cache.Spec.{Entry, spec_get, spec_delete}
use gocache.Cache.Steps.{Refines, Becomes}
use gocache.Cache.Reads.{Replies}
use gocache.Cache.Runs.{get_value-Replies, delete_key-Becomes}
use gocache.Server.Texts.{ok_text}
use gocache.Migrator.{
  MigrationError, transfer_failed, verification_failed, add_value, collect_values, delete_keys,
  delete_after, verify_after, move_keys,
}
use gocache.Migrator.Transfer.{
  set_request, get_request, value_of, value_or_empty, batch_values, send_keys,
  transfer_keys_on_connection, transfer_batches, transfer_keys_batch, verify_keys, verify_transfer,
}

-- The reads and the deletions of the keys, on the list of entries.
unfoldable pub spec_collect :
    (ℕ → ℕ) → ℕ → List Bytes → List (Bytes × Bytes) → List Entry → List (Bytes × Bytes) × List Entry
spec_collect clock j [] values es = (values, es)
spec_collect clock j (key ∷ keys) values es =
    let r = spec_get key (clock j) es in
    spec_collect clock (suc j) keys (add_value key r.0 values) r.1

unfoldable pub spec_deletes : List Bytes → List Entry → List Entry
spec_deletes [] es = es
spec_deletes (key ∷ keys) es = spec_deletes keys (spec_delete key es)

collect_values-Replies :
    (clock : ℕ → ℕ) (j : ℕ) (keys : List Bytes) (values : List (Bytes × Bytes)) (c : Cache)
    (es : List Entry)
    → c.held ≡ false
    → Refines c es
    → Replies (collect_values clock j keys values c) c (spec_collect clock j keys values es)
unfolding collect_values spec_collect
collect_values-Replies clock j [] values c es free r = (c, refl, r, refl, refl)
collect_values-Replies clock j (key ∷ keys) values c es free r =
    let (c1, ran1, r1, size1, lock1) = get_value-Replies c es free r key (clock j) in
    let got = spec_get key (clock j) es in
    let (c2, ran2, r2, size2, lock2) =
      collect_values-Replies clock (suc j) keys (add_value key got.0 values) c1 got.1 (lock1 ∙ free)
        r1 in
    (c2, rw ran1 ran2, r2, size2 ∙ size1, lock2 ∙ lock1)

delete_keys-Becomes :
    (keys : List Bytes) (c : Cache) (es : List Entry)
    → c.held ≡ false
    → Refines c es
    → Becomes (delete_keys keys c) c (spec_deletes keys es)
unfolding delete_keys spec_deletes
delete_keys-Becomes [] c es free r = (c, refl, r, refl, refl)
delete_keys-Becomes (key ∷ keys) c es free r =
    let (c1, ran1, r1, size1, lock1) = delete_key-Becomes c es free r key in
    let (c2, ran2, r2, size2, lock2) =
      delete_keys-Becomes keys c1 (spec_delete key es) (lock1 ∙ free) r1 in
    (c2, rw ran1 ran2, r2, size2 ∙ size1, lock2 ∙ lock1)

-- The entries after the deletions or without them.
abbrev pub entries_after : Option MigrationError → List Bytes → List Entry → List Entry
entries_after none keys es = spec_deletes keys es
entries_after (some e) keys es = es

-- The error of a task, from whether the transfer and whether its verification failed.
abbrev pub spec_error : Bool → Bool → Option MigrationError
spec_error true v = some transfer_failed
spec_error false true = some verification_failed
spec_error false false = none

get-head_same :
    (j k : Bytes) (v : Bytes × Option ℕ) (m : List Entry) → j ≡ k → get k ((j, v) ∷ m) ≡ some v
unfolding get
get-head_same j k v m p = if_pos (bytes_discrete j k) p (some v) (get k m)

get-head_other :
    (j k : Bytes) (v : Bytes × Option ℕ) (m : List Entry) → j ≢ k → get k ((j, v) ∷ m) ≡ get k m
unfolding get
get-head_other j k v m n = if_neg (bytes_discrete j k) n (some v) (get k m)

get-spec_get :
    (key k : Bytes) (now : ℕ) (es : List Entry) → get k (spec_get key now es).1 ≡ get k es
get-spec_get key k now es = elim (Option-cases (get key es)) [
  | inl none_there ↦ rw none_there refl
  | inr ((value, exp), there) ↦ elim (Bool-cases (expired exp now)) [
    | inl late ↦ rw (there, late) refl
    | inr live ↦ rw (there, live) (moved value exp there)
  ]
]
  where
    moved :
        (value : Bytes) (exp : Option ℕ)
        → get key es ≡ some (value, exp)
        → get k ((key, (value, exp)) ∷ delete key es) ≡ get k es
    moved value exp there = elim (bytes_discrete key k) [
      | yes p ↦
          get-head_same key k (value, exp) (delete key es) p
          ∙ sym there
          ∙ ap (λ (x : Bytes). get x es) p
      | no n ↦ get-head_other key k (value, exp) (delete key es) n ∙ get-delete_other key k es n
    ]

get-spec_collect :
    (clock : ℕ → ℕ) (j : ℕ) (keys : List Bytes) (values : List (Bytes × Bytes)) (es : List Entry)
    (k : Bytes)
    → get k (spec_collect clock j keys values es).1 ≡ get k es
unfolding spec_collect
get-spec_collect clock j [] values es k = refl
get-spec_collect clock j (key ∷ keys) values es k =
    let r = spec_get key (clock j) es in
    get-spec_collect clock (suc j) keys (add_value key r.0 values) r.1 k
    ∙ get-spec_get key k (clock j) es

module _ {Peers : Type 0} (dial : Bytes → Peers → Bool)
    (ask : Bytes → Items → Peers → Option Value × Peers) where
  -- How a task ends, for the results of a transfer and of a verification after it.
  abbrev pub Moves :
      Outcome ((Option MigrationError × Cache) × Peers)
      → Bool × Peers
      → (Bool × Peers)
      → Cache
      → List Bytes
      → List Entry
      → Type 0
  Moves o sent verified c keys es =
      (c' : Cache) × (o
        ≡ done ((spec_error sent.0 verified.0, c'), if sent.0 then sent.1 else verified.1))
      × Refines c' (entries_after (spec_error sent.0 verified.0) keys es)
      × (c'.max_size ≡ c.max_size)
      × (c'.held ≡ c.held)

  delete_after-Moves :
      (keys : List Bytes) (p : Peers) (verified : Bool × Peers) (c : Cache) (es : List Entry)
      → c.held ≡ false
      → Refines c es
      → Moves (delete_after dial ask keys verified c) (false, p) verified c keys es
  delete_after-Moves keys p (true, q) c es free r = (c, refl, r, refl, refl)
  delete_after-Moves keys p (false, q) c es free r =
      let (c1, ran, r1, size, lock) = delete_keys-Becomes keys c es free r in
      (c1, rw ran refl, r1, size, lock)

  verify_after-Moves :
      (addr : Bytes) (keys : List Bytes) (sent : Bool × Peers) (c : Cache) (es : List Entry)
      → c.held ≡ false
      → Refines c es
      → Moves
          (verify_after dial ask addr keys sent c)
          sent
          (verify_transfer dial ask addr keys sent.1)
          c
          keys
          es
  verify_after-Moves addr keys (true, p) c es free r = (c, refl, r, refl, refl)
  verify_after-Moves addr keys (false, p) c es free r =
      delete_after-Moves keys p (verify_transfer dial ask addr keys p) c es free r

  -- Whatever the network and the other node do, the move of the keys of a task, at least one, ends on
  -- a free cache that holds some entries, and leaves it free. The keys are read, which keeps for every
  -- key what is found under it, and then sent with the values read. If the transfer fails, the error
  -- is that of the transfer, nothing is verified, and every entry is still there. If the transfer
  -- succeeds and the verification fails, the error is that of the verification, and every entry is
  -- still there. If both succeed there is no error, and exactly the keys of the task are deleted.
  pub move_keys-Moves :
      (clock : ℕ → ℕ) (addr key : Bytes) (keys : List Bytes) (c : Cache) (p : Peers)
      (es : List Entry)
      → c.held ≡ false
      → Refines c es
      → (values : List (Bytes × Bytes)) × (es' : List Entry) × ((values, es')
          ≡ spec_collect clock 0 (key ∷ keys) [] es)
        × ((k : Bytes) → get k es' ≡ get k es)
        × Moves
            (move_keys dial ask clock addr (key ∷ keys) c p)
            (transfer_keys_batch dial ask addr (key ∷ keys) values 100 p)
            (verify_transfer dial ask addr
              (key ∷ keys)
              (transfer_keys_batch dial ask addr (key ∷ keys) values 100 p).1)
            c
            (key ∷ keys)
            es'
  unfolding move_keys
  move_keys-Moves clock addr key keys c p es free r =
      let (c1, ran, r1, size, lock) = collect_values-Replies clock 0 (key ∷ keys) [] c es free r in
      let after = spec_collect clock 0 (key ∷ keys) [] es in
      let (c2, ran2, r2, size2, lock2) =
        verify_after-Moves addr (key ∷ keys)
          (transfer_keys_batch dial ask addr (key ∷ keys) after.0 100 p) c1 after.1 (lock ∙ free)
          r1 in
      (
        after.0,
        after.1,
        refl,
        get-spec_collect clock 0 (key ∷ keys) [] es,
        (c2, rw ran ran2, r2, size2 ∙ size, lock2 ∙ lock),
      )

  send_one :
      (addr key value : Bytes) (p p1 : Peers)
      → ask addr (set_request key value) p ≡ (some (str ok_text), p1)
      → transfer_keys_on_connection dial ask addr (key ∷ []) ((key, value) ∷ []) p ≡ (false, p1)
  unfolding transfer_keys_on_connection send_keys get bytes_discrete
  send_one addr key value p p1 answer =
      let found : value_of key ((key, value) ∷ []) ≡ value =
        ap value_or_empty (if_pos (bytes_discrete key key) refl (some value) none) in
      rw (found, answer) refl

  transfer_batches-step :
      (addr : Bytes) (keys : List Bytes) (values : List (Bytes × Bytes)) (size n start : ℕ)
      (p p1 : Peers)
      → transfer_keys_on_connection dial ask addr
          (take size (drop start keys))
          (batch_values (take size (drop start keys)) values [])
          p
        ≡ (false, p1)
      → transfer_batches dial ask addr keys values size (suc n) start p
        ≡ transfer_batches dial ask addr keys values size n (start + size) p1
  unfolding transfer_batches
  transfer_batches-step addr keys values size n start p p1 sent =
      ap
        (λ (r : Bool × Peers). elim (r.0) [
          | true ↦ r
          | false ↦ transfer_batches dial ask addr keys values size n (start + size) r.1
        ])
        sent

  one_batch :
      (addr key : Bytes) (p p1 : Peers)
      → dial addr p ≡ true
      → ask addr (set_request key []) p ≡ (some (str ok_text), p1)
      → transfer_keys_batch dial ask addr (key ∷ []) [] 100 p ≡ (false, p1)
  unfolding transfer_keys_batch transfer_batches batch_values put get
  one_batch addr key p p1 up answer =
      let round : transfer_batches dial ask addr (key ∷ []) [] 100 1 0 p ≡ (false, p1) =
        transfer_batches-step addr (key ∷ []) [] 100 0 0 p p1 (send_one addr key [] p p1 answer) in
      rw up round

  -- A key that is still in the map and has expired, alone in the range of a task: when the other node
  -- can be reached and answers OK, it is sent SET with the key and an empty value, without a
  -- lifetime, any answer to GET passes for a verification, and the key is deleted here.
  pub move_keys-expired :
      (clock : ℕ → ℕ) (addr key value : Bytes) (t : ℕ) (c : Cache) (p p1 p2 : Peers) (v : Value)
      (es : List Entry)
      → c.held ≡ false
      → Refines c es
      → get key es ≡ some (value, some t)
      → t < clock 0
      → dial addr p ≡ true
      → ask addr (set_request key []) p ≡ (some (str ok_text), p1)
      → dial addr p1 ≡ true
      → ask addr (get_request key) p1 ≡ (some v, p2)
      → (c' : Cache) × (move_keys dial ask clock addr (key ∷ []) c p ≡ done ((none, c'), p2))
        × Refines c' (spec_delete key es)
  unfolding move_keys collect_values delete_keys verify_transfer verify_keys
  move_keys-expired clock addr key value t c p p1 p2 v es free r stale late up answer up1 answer1 =
      let (c1, ran, r1, size, lock) = get_value-Replies c es free r key (clock 0) in
      let nothing : spec_get key (clock 0) es ≡ (none, es) =
        rw (stale, lt→ltb t (clock 0) late) refl in
      let (c2, ran2, r2, size2, lock2) =
        delete_key-Becomes c1 (spec_get key (clock 0) es).1 (lock ∙ free) r1 key in
      let sent = one_batch addr key p p1 up answer in
      let read : get_value key (clock 0) c ≡ done (none, c1) =
        ran ∙ ap (λ (k : Option Bytes × List Entry). done (k.0, c1)) nothing in
      (
        c2,
        rw (read, sent, up1, answer1, ran2) refl,
        subst (λ (k : Option Bytes × List Entry). Refines c2 (spec_delete key k.1)) nothing r2,
      )
