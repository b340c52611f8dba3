-- ===== src/Server/Lengths.antt =====
-- internal/server/handler.go and internal/cache: keys and values stay shorter than 2^63 bytes, so
-- that a snapshot of the cache can be written and read back.
use gocache.Prelude.{
  ℕ, suc, ◌≡◌, refl, sym, ap, ◌∙◌, ◌<◌, ◌^◌, Bool-cases, Option-cases, inl, inr, Option, none, some,
  List, [], ◌∷◌, All, length, leb, if_pos, if_neg,
}
use gocache.Prelude.Maps.{Bytes, get, IsMap, All-delete, get-Missing, bytes_key, bytes_discrete}
use gocache.Cache.{Cache, CacheItem, Data, expired, snapshot_entries}
use gocache.Cache.Spec.{Entry, drop_last, without_victim, spec_get}
use gocache.Cache.Contents.{get-contents}
use gocache.Cache.Steps.{Refines}
use gocache.Persistence.Contents.{IsItem}
use gocache.Server.Commands.{
  Command, plain_set, set_ex, get_one, del_one, ping, IsCommand, spec_command, spec_commands,
}

-- A key and a value shorter than 2^63 bytes.
abbrev pub IsShort : Entry → Type 0
IsShort (key, (value, exp)) = (length key < 2 ^ 63) × (length value < 2 ^ 63)

All-drop_last : (es : List Entry) → All IsShort es → All IsShort (drop_last es)
All-drop_last [] h = tt
All-drop_last (x ∷ []) h = tt
All-drop_last (x ∷ y ∷ es) h = (h.0, All-drop_last (y ∷ es) h.1)

All-without_victim :
    (old : Option (Bytes × Option ℕ)) (cap : ℕ) (key : Bytes) (es : List Entry)
    → All IsShort es
    → All IsShort (without_victim old cap key es)
All-without_victim (some old) cap key es h = All-delete IsShort key es h
All-without_victim none cap key es h = elim (Bool-cases (leb cap (length es))) [
  | inl full ↦ rw full (All-drop_last es h)
  | inr free ↦ rw free h
]

get-IsShort :
    (key : Bytes) (v : Bytes × Option ℕ) (es : List Entry)
    → get key es ≡ some v
    → All IsShort es
    → IsShort (key, v)
unfolding get
get-IsShort key v [] at h = cc
get-IsShort key v ((k, w) ∷ es) at h = elim (bytes_discrete k key) [
  | yes p ↦
      let same : w ≡ v = cc (at, if_pos (bytes_discrete k key) p (some w) (get key es)) in
      rw (← p, ← same) h.0
  | no n ↦
      get-IsShort key v es (sym (if_neg (bytes_discrete k key) n (some w) (get key es)) ∙ at) h.1
]

All-spec_get :
    (key : Bytes) (now : ℕ) (es : List Entry) → All IsShort es → All IsShort (spec_get key now es).1
All-spec_get key now es h = elim (Option-cases (get key es)) [
  | inl absent ↦ rw absent h
  | inr ((value, exp), there) ↦ elim (Bool-cases (expired exp now)) [
    | inl late ↦ rw (there, late) h
    | inr live ↦
        rw (there, live) (get-IsShort key (value, exp) es there h, All-delete IsShort key es h)
  ]
]

All-spec_command :
    (cap now : ℕ) (c : Command) (es : List Entry)
    → IsCommand c
    → All IsShort es
    → All IsShort (spec_command cap now c es).1
All-spec_command cap now (plain_set key value) es w h =
    ((w.0, w.1), All-without_victim (get key es) cap key es h)
All-spec_command cap now (set_ex key value z) es w h =
    ((w.0, w.1), All-without_victim (get key es) cap key es h)
All-spec_command cap now (get_one key) es w h = All-spec_get key now es h
All-spec_command cap now (del_one key) es w h = All-delete IsShort key es h
All-spec_command cap now ping es w h = h

-- Well-formed commands leave short entries short.
pub All-spec_commands :
    (cap : ℕ) (clock : ℕ → ℕ) (i : ℕ) (cs : List Command) (es : List Entry)
    → All IsCommand cs
    → All IsShort es
    → All IsShort (spec_commands cap clock i cs es).1
unfolding spec_commands
All-spec_commands cap clock i [] es w h = h
All-spec_commands cap clock i (c ∷ cs) es w h =
    All-spec_commands cap clock (suc i) cs (spec_command cap (clock i) c es).1 w.1
      (All-spec_command cap (clock i) c es w.0 h)

snapshot_entries-IsItem :
    (m : Data)
    → IsMap m
    → ((key : Bytes) (item : CacheItem)
        → get key m ≡ some item
        → IsShort (key, (item.value, item.expires_at)))
    → All IsItem (snapshot_entries m)
unfolding get
snapshot_entries-IsItem [] d h = tt
snapshot_entries-IsItem ((k, v) ∷ m) d h = (
  h k v (if_pos (bytes_discrete k k) refl (some v) (get k m)),
  snapshot_entries-IsItem m d.1 (λ key item at. elim (bytes_discrete k key) [
    | yes p ↦ absurd (missed p at)
    | no n ↦ h key item (if_neg (bytes_discrete k key) n (some v) (get key m) ∙ at)
  ]),
)
  where
    missed : {key : Bytes} {item : CacheItem} → k ≡ key → get key m ≡ some item → ⊥
    missed {key} {item} p at =
        let gone : get k m ≡ none = get-Missing k m d.0 in
        let there : get k m ≡ some item = ap (λ (x : Bytes). get x m) p ∙ at in cc (gone, there)

-- A snapshot of a cache that stands for short entries has short items.
pub Refines-IsItem :
    (c : Cache) (es : List Entry)
    → Refines c es
    → All IsShort es
    → All IsItem (snapshot_entries c.entries)
Refines-IsItem c es r h = snapshot_entries-IsItem c.entries r.valid.linked.is_map (λ key item at.
    get-IsShort key (item.value, item.expires_at) es
      (ap (get key) (sym r.shows) ∙ get-contents c.lru c.entries key item r.nodes at r.valid.linked)
      h)
