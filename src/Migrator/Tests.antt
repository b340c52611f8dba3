-- ===== src/Migrator/Tests.antt =====
-- Migrations at a concrete node.
use gocache.Prelude.{◌≡◌, refl, Bool, true, false, Option, none, some, List, [], ◌∷◌, arith, done}
use gocache.Prelude.Int.{pos}
use gocache.Prelude.Maps.{Bytes, get, bytes_key, bytes_discrete}
use gocache.Resp.{Value, Items, str}
use gocache.Cache.{Cache, new_cache}
use gocache.Cache.Spec.{Entry, spec_delete}
use gocache.Cache.Steps.{Refines}
use gocache.Cache.Runs.{Refines-new, set-Becomes}
use gocache.Server.Texts.{ok_text}
use gocache.Migrator.{move_keys}
use gocache.Migrator.Transfer.{set_request, get_request, transfer_keys_batch, verify_transfer}
use gocache.Migrator.Laws.{Moves, spec_collect, move_keys-Moves, move_keys-expired}

abbrev a : Bytes
a = b'a' ∷ []

-- A network that reaches every node, and nodes that answer OK to everything; what they are sent is
-- kept, the latest first.
abbrev dial_all : Bytes → List Items → Bool
dial_all addr p = true

abbrev answer_ok : Bytes → Items → List Items → Option Value × List Items
answer_ok addr vs p = (some (str ok_text), vs ∷ p)

-- `a` was set at the time 10 with 5 nanoseconds to live.
abbrev stale : Cache
stale = (set-Becomes (new_cache 2) [] refl (Refines-new 2 (omega arith)) a a (pos 5) 10).0

abbrev entries : List Entry
entries = (a, (a, some 15)) ∷ []

stale-Refines : Refines stale entries
unfolding get
stale-Refines = (set-Becomes (new_cache 2) [] refl (Refines-new 2 (omega arith)) a a (pos 5) 10).2

stale_free : stale.held ≡ false
stale_free = (set-Becomes (new_cache 2) [] refl (Refines-new 2 (omega arith)) a a (pos 5) 10).4

move_keys-Moves_example :
    (values : List (Bytes × Bytes)) × (es : List Entry) × ((values, es)
      ≡ spec_collect (λ j. 12) 0 (a ∷ []) [] entries)
    × ((k : Bytes) → get k es ≡ get k entries)
    × Moves dial_all answer_ok
        (move_keys dial_all answer_ok (λ j. 12) a (a ∷ []) stale [])
        (transfer_keys_batch dial_all answer_ok a (a ∷ []) values 100 [])
        (verify_transfer dial_all answer_ok a
          (a ∷ [])
          (transfer_keys_batch dial_all answer_ok a (a ∷ []) values 100 []).1)
        stale
        (a ∷ [])
        es
move_keys-Moves_example =
    move_keys-Moves dial_all answer_ok (λ j. 12) a a [] stale [] entries stale_free stale-Refines

move_keys-expired_example :
    (c : Cache) × (move_keys dial_all answer_ok (λ j. 20) a (a ∷ []) stale []
      ≡ done ((none, c), get_request a ∷ set_request a [] ∷ []))
    × Refines c (spec_delete a entries)
unfolding get bytes_discrete
move_keys-expired_example =
    move_keys-expired dial_all answer_ok (λ j. 20) a a a 15 stale [] (set_request a [] ∷ [])
      (get_request a ∷ set_request a [] ∷ []) (str ok_text) entries stale_free stale-Refines refl
      (omega arith) refl refl refl refl
