-- ===== src/Migrator/Transfer.antt =====
-- internal/cluster/transfer.go: the transfer of keys to another node and its verification.
use gocache.Prelude.{
  ℕ, zero, suc, ◌+◌, ◌-◌, ◌/◌, Bool, true, false, Option, none, some, List, [], ◌∷◌, length, take,
  drop, ltb, if◌then◌else◌,
}
use gocache.Prelude.Maps.{Bytes, get, put, bytes_key}
use gocache.Resp.{Value, Items, str, int, arr, nil, cons}
use gocache.Config.{same_bytes}
use gocache.Persistence.{set_word}
use gocache.Server.Texts.{get_word, ok_text}

abbrev pub set_request : Bytes → Bytes → Items
set_request key value = cons (str set_word) (cons (str key) (cons (str value) nil))

abbrev pub get_request : Bytes → Items
get_request key = cons (str get_word) (cons (str key) nil)

abbrev pub is_ok_response : Value → Bool
is_ok_response (str s) = same_bytes s ok_text
is_ok_response (int z) = false
is_ok_response (arr vs) = false

-- `response == nil`: Parse returns a string, an int or a slice, and none of them is nil.
abbrev pub is_nil_response : Value → Bool
is_nil_response v = false

-- `values[key]`, an empty string for a missing key
abbrev pub value_or_empty : Option Bytes → Bytes
value_or_empty none = []
value_or_empty (some value) = value

abbrev pub value_of : Bytes → List (Bytes × Bytes) → Bytes
value_of key values = value_or_empty (get key values)

unfoldable pub batch_values :
    List Bytes → List (Bytes × Bytes) → List (Bytes × Bytes) → List (Bytes × Bytes)
batch_values [] values batch = batch
batch_values (key ∷ keys) values batch =
    batch_values keys values (put key (value_of key values) batch)

-- The network and the nodes behind it are the parameters: `dial` tells whether a connection to an
-- address is made, and `ask` sends a request on it and gives the value that Parse reads in answer,
-- none if writing or reading fails.
module _ {Peers : Type 0} (dial : Bytes → Peers → Bool)
    (ask : Bytes → Items → Peers → Option Value × Peers) where
  abbrev pub count_failure : Option Value → ℕ → ℕ
  count_failure none n = suc n
  count_failure (some v) n = if is_ok_response v then n else suc n

  -- The number of keys that failed.
  unfoldable pub send_keys : Bytes → List Bytes → List (Bytes × Bytes) → ℕ → Peers → ℕ × Peers
  send_keys addr [] values failed p = (failed, p)
  send_keys addr (key ∷ keys) values failed p =
      let answer = ask addr (set_request key (value_of key values)) p in
      send_keys addr keys values (count_failure answer.0 failed) answer.1

  -- The flag is the error.
  unfoldable pub transfer_keys_on_connection :
      Bytes → List Bytes → List (Bytes × Bytes) → Peers → Bool × Peers
  unfolding send_keys
  transfer_keys_on_connection addr keys values p =
      let sent = send_keys addr keys values 0 p in (ltb 0 sent.0, sent.1)

  unfoldable pub transfer_keys : Bytes → List Bytes → List (Bytes × Bytes) → Peers → Bool × Peers
  unfolding transfer_keys_on_connection
  transfer_keys addr keys values p =
      if dial addr p then transfer_keys_on_connection addr keys values p else (true, p)

  -- The attempts that are left; the pauses between them are left out.
  unfoldable pub transfer_keys_with_retry :
      Bytes → List Bytes → List (Bytes × Bytes) → ℕ → Peers → Bool × Peers
  unfolding transfer_keys
  transfer_keys_with_retry addr keys values zero p = (true, p)
  transfer_keys_with_retry addr keys values (suc n) p =
      let r = transfer_keys addr keys values p in
      elim (r.0) [ false ↦ r | true ↦ transfer_keys_with_retry addr keys values n r.1 ]

  -- The batches that are left, from a place of the keys on.
  unfoldable pub transfer_batches :
      Bytes → List Bytes → List (Bytes × Bytes) → ℕ → ℕ → ℕ → Peers → Bool × Peers
  unfolding transfer_keys_on_connection batch_values
  transfer_batches addr keys values size zero start p = (false, p)
  transfer_batches addr keys values size (suc n) start p =
      let batch = take size (drop start keys) in
      let r = transfer_keys_on_connection addr batch (batch_values batch values []) p in
      elim (r.0) [ true ↦ r | false ↦ transfer_batches addr keys values size n (start + size) r.1 ]

  unfoldable pub transfer_keys_batch :
      Bytes → List Bytes → List (Bytes × Bytes) → ℕ → Peers → Bool × Peers
  unfolding transfer_batches
  transfer_keys_batch addr keys values size p =
      if dial addr p
      then transfer_batches addr keys values size ((length keys + size - 1) / size) 0 p
      else (true, p)

  abbrev pub is_bad_answer : Option Value → Bool
  is_bad_answer none = true
  is_bad_answer (some v) = is_nil_response v

  unfoldable pub verify_keys : Bytes → List Bytes → Peers → Bool × Peers
  verify_keys addr [] p = (false, p)
  verify_keys addr (key ∷ keys) p =
      let answer = ask addr (get_request key) p in
      let rest = verify_keys addr keys answer.1 in
      if is_bad_answer answer.0 then (true, answer.1) else rest

  unfoldable pub verify_transfer : Bytes → List Bytes → Peers → Bool × Peers
  unfolding verify_keys
  verify_transfer addr keys p = if dial addr p then verify_keys addr keys p else (true, p)
