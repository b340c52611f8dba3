-- ===== src/PubSub/Delivery.antt =====
-- internal/pubsub/pubsub.go: which queues Publish fills, and what it counts.
use mathlib.Core.Path.{subst}
use gocache.Prelude.{
  ℕ, suc, ◌+◌, ◌≡◌, ◌≢◌, refl, sym, ap, ◌∙◌, none, some, Option, List, [], ◌∷◌, ◌++◌, arith, All,
  Bool, true, false, Bool-cases, inl, inr, ltb, length, done, if◌then◌else◌,
}
use gocache.Prelude.Maps.{
  Bytes, get, put, get-put_same, get-put_other, nat_key, bytes_key, IsMap, Missing,
}
use gocache.PubSub.{Message, Subscriber, PubSub, offer, send_all, publish}
use gocache.PubSub.Members.{members}
use gocache.PubSub.Queues.{Heap, IsLive, IsOpen, put-IsUpdate, All-keeps, some_eq}
use gocache.PubSub.Laws.{IsConsistent, linked_open, publish-IsConsistent}

-- The message stands at the end of a queue with room, and a full queue stays as it is.
abbrev pub delivered : Message → Subscriber → Subscriber
delivered msg s =
    if ltb (length s.messages) 100 then record s { messages = s.messages ++ (msg ∷ []) } else s

abbrev pub delivered_to : Message → Option Subscriber → Option Subscriber
delivered_to msg none = none
delivered_to msg (some s) = some (delivered msg s)

-- Whether there is room in a queue, as a number.
abbrev pub room : Option Subscriber → ℕ
room none = 0
room (some s) = if ltb (length s.messages) 100 then 1 else 0

-- The members whose queues have room.
abbrev pub members_with_room : List (ℕ × ℕ) → Heap → ℕ
members_with_room [] heap = 0
members_with_room ((conn, a) ∷ m) heap = room (get a heap) + members_with_room m heap

-- The subscriber is that of no member.
abbrev pub IsOutsider : ℕ → List (ℕ × ℕ) → Type 0
IsOutsider a = All (λ e. e.1 ≢ a)

-- No two members have the same subscriber.
abbrev pub HaveOwn : List (ℕ × ℕ) → Type 0
HaveOwn [] = Unit
HaveOwn ((conn, a) ∷ m) = IsOutsider a m × HaveOwn m

offer-delivered :
    (msg : Message) (conn : ℕ) (s : Subscriber)
    → IsLive conn s
    → offer msg (some s) ≡ done (ltb (length s.messages) 100, delivered msg s)
unfolding offer
offer-delivered msg conn s h = elim (Bool-cases (ltb (length s.messages) 100)) [
  | inl e ↦ rw (h.messages_open, e) refl
  | inr e ↦ rw (h.messages_open, e) refl
]

delivered-IsLive :
    (msg : Message) (conn : ℕ) (s : Subscriber) → IsLive conn s → IsLive conn (delivered msg s)
delivered-IsLive msg conn s h = elim (Bool-cases (ltb (length s.messages) 100)) [
  | inl e ↦
      rw e
        (record { its_conn = h.its_conn; messages_open = h.messages_open; done_open = h.done_open })
  | inr e ↦ rw e h
]

members_with_room-put :
    (m : List (ℕ × ℕ)) (a : ℕ) (t : Subscriber) (heap : Heap)
    → IsOutsider a m
    → members_with_room m (put a t heap) ≡ members_with_room m heap
members_with_room-put [] a t heap h = refl
members_with_room-put ((conn, b) ∷ m) a t heap h =
    rw (get-put_other a b t heap (λ p. h.0 (sym p)), members_with_room-put m a t heap h.1) refl

-- What the loop of Publish over the members has done.
pub record Delivers (msg : Message) (m : List (ℕ × ℕ)) (old new : Heap) : Type 0 where
  pub reached : All (λ e. get e.1 new ≡ delivered_to msg (get e.1 old)) m
  pub untouched : (a : ℕ) → IsOutsider a m → get a new ≡ get a old

reached_later :
    (msg : Message) (m : List (ℕ × ℕ)) (a : ℕ) (t : Subscriber) (heap new : Heap)
    → IsOutsider a m
    → All (λ e. get e.1 new ≡ delivered_to msg (get e.1 (put a t heap))) m
    → All (λ e. get e.1 new ≡ delivered_to msg (get e.1 heap)) m
reached_later msg [] a t heap new h k = tt
reached_later msg ((conn, b) ∷ m) a t heap new h k = (
  k.0 ∙ ap (delivered_to msg) (get-put_other a b t heap (λ p. h.0 (sym p))),
  reached_later msg m a t heap new h.1 k.1,
)

count_step : (b : Bool) (n : ℕ) → (if b then suc n else n) ≡ (if b then 1 else 0) + n
count_step true n = omega arith
count_step false n = omega arith

send_all-Delivers :
    (msg : Message) (m : List (ℕ × ℕ)) (heap : Heap)
    → All (λ e. IsOpen heap e.0 e.1) m
    → HaveOwn m
    → (new : Heap) × (send_all msg m heap ≡ done (members_with_room m heap, new))
      × Delivers msg m heap new
unfolding send_all
send_all-Delivers msg [] heap h own =
    (heap, refl, record { reached = tt; untouched = λ a out. refl })
send_all-Delivers msg ((conn, a) ∷ m) heap h own =
    let (s, at, live) = h.0 in
    let t = delivered msg s in
    let u = put-IsUpdate heap a conn s t at live (delivered-IsLive msg conn s live) in
    let (new, ran, d) =
      send_all-Delivers msg m (put a t heap) (All-keeps heap (put a t heap) m u h.1) own.1 in
    let now : get a new ≡ delivered_to msg (get a heap) =
      d.untouched a own.0 ∙ get-put_same a t heap ∙ sym (ap (delivered_to msg) at) in
    let same = members_with_room-put m a t heap own.0 in
    (
      new,
      rw (at, offer-delivered msg conn s live, ran, same)
          (ap (λ (k : ℕ). done (k, new))
            (count_step (ltb (length s.messages) 100) (members_with_room m heap))),
      record {
        reached = (now, reached_later msg m a t heap new own.0 d.reached);
        untouched = λ b out. d.untouched b out.1 ∙ get-put_other a b t heap (λ p. out.0 p);
      },
    )

Missing-IsOutsider :
    (conn a : ℕ) (m : List (ℕ × ℕ)) (heap : Heap)
    → IsOpen heap conn a
    → Missing conn m
    → All (λ e. IsOpen heap e.0 e.1) m
    → IsOutsider a m
Missing-IsOutsider conn a [] heap o out h = tt
Missing-IsOutsider conn a ((other, b) ∷ m) heap o out h =
    let (s, at, live) = o in
    let (t, at', live') = h.0 in
    (
      λ p.
          let same : t ≡ s = some_eq (sym at' ∙ ap (λ (x : ℕ). get x heap) p ∙ at) in
          out.0 (sym live'.its_conn ∙ ap (λ (x : Subscriber). x.conn) same ∙ live.its_conn),
      Missing-IsOutsider conn a m heap o out.1 h.1,
    )

IsMap-HaveOwn :
    (m : List (ℕ × ℕ)) (heap : Heap) → IsMap m → All (λ e. IsOpen heap e.0 e.1) m → HaveOwn m
IsMap-HaveOwn [] heap d h = tt
IsMap-HaveOwn ((conn, a) ∷ m) heap d h =
    (Missing-IsOutsider conn a m heap h.0 d.0 h.1, IsMap-HaveOwn m heap d.1 h.1)

-- On a consistent manager in which the members of the channel are a map, with one entry for each
-- connection, Publish ends in a consistent manager and returns the number of the members whose queue
-- holds fewer than 100 messages. Each of those queues has the message added at its end, the full
-- queues stay as they are, and so do all other subscribers and the three maps.
pub publish-Delivers :
    (ps : PubSub) (channel content : Bytes)
    → IsConsistent ps
    → IsMap (members channel ps.subscribers)
    → (new : Heap) × (publish channel content ps
        ≡ done
            (members_with_room (members channel ps.subscribers) ps.heap, record ps { heap = new }))
      × IsConsistent (record ps { heap = new })
      × Delivers
          (record { channel = channel; content = content })
          (members channel ps.subscribers)
          ps.heap
          new
unfolding publish
publish-Delivers ps channel content h d =
    let open_all = linked_open ps channel h in
    let (new, ran, done_all) =
      send_all-Delivers (record { channel = channel; content = content })
        (members channel ps.subscribers) ps.heap open_all
        (IsMap-HaveOwn (members channel ps.subscribers) ps.heap d open_all) in
    let (count, ps', ran', few, good) = publish-IsConsistent ps channel content h in
    let ended : publish channel content ps
        ≡ done
            (members_with_room (members channel ps.subscribers) ps.heap, record ps { heap = new }) =
      rw ran refl in
    let same : ps' ≡ record ps { heap = new } = cc (ran', ended) in
    (new, ended, subst IsConsistent same good, done_all)
