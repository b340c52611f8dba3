-- ===== src/PubSub/Queues.antt =====
-- internal/pubsub/pubsub.go: the subscribers of the heap, and what Publish does to their queues.
use gocache.Prelude.{
  ℕ, suc, ◌≤◌, ◌≡◌, refl, sym, ap, ◌∙◌, some, List, [], ◌∷◌, ◌++◌, arith, All, Bool, true, false,
  Bool-cases, inl, inr, ltb, length, ℕ_discrete, done,
}
use gocache.Prelude.Maps.{get, put, get-put_same, get-put_other, nat_key}
use gocache.PubSub.{Message, Subscriber, offer, send_all}

abbrev pub Heap : Type 0
Heap = List (ℕ × Subscriber)

-- A subscriber of the connection, with both its channels open.
pub record IsLive (conn : ℕ) (s : Subscriber) : Type 0 where
  pub its_conn : s.conn ≡ conn
  pub messages_open : s.messages_closed ≡ false
  pub done_open : s.done_closed ≡ false

abbrev pub IsOpen : Heap → ℕ → ℕ → Type 0
IsOpen heap conn a = (s : Subscriber) × (get a heap ≡ some s) × IsLive conn s

-- A change of the heap that keeps open what is open, and adds no address.
pub record IsUpdate (old new : Heap) : Type 0 where
  pub keeps : (conn a : ℕ) → IsOpen old conn a → IsOpen new conn a
  pub adds_none :
      (a : ℕ) (s : Subscriber) → get a new ≡ some s → (t : Subscriber) × (get a old ≡ some t)

pub some_eq : {A : Type 0} {a b : A} → some a ≡ some b → a ≡ b
some_eq e = cc e

pub put-IsUpdate :
    (heap : Heap) (a conn : ℕ) (s t : Subscriber)
    → get a heap ≡ some s
    → IsLive conn s
    → IsLive conn t
    → IsUpdate heap (put a t heap)
put-IsUpdate heap a conn s t at live live' = record { keeps = keeps; adds_none = adds_none }
  where
    keeps : (other b : ℕ) → IsOpen heap other b → IsOpen (put a t heap) other b
    keeps other b (u, got, h) = elim (ℕ_discrete a b) [
      | yes p ↦
          let same : s ≡ u = some_eq (sym at ∙ ap (λ (x : ℕ). get x heap) p ∙ got) in
          (
            t,
            rw (← p) (get-put_same a t heap),
            record {
              its_conn =
                  live'.its_conn
                  ∙ sym live.its_conn
                  ∙ ap (λ (x : Subscriber). x.conn) same
                  ∙ h.its_conn;
              messages_open = live'.messages_open;
              done_open = live'.done_open;
            },
          )
      | no n ↦ (u, get-put_other a b t heap n ∙ got, h)
    ]

    adds_none :
        (b : ℕ) (u : Subscriber)
        → get b (put a t heap) ≡ some u
        → (v : Subscriber) × (get b heap ≡ some v)
    adds_none b u got = elim (ℕ_discrete a b) [
      | yes p ↦ (s, rw (← p) at)
      | no n ↦ (u, sym (get-put_other a b t heap n) ∙ got)
    ]

offer-IsLive :
    (msg : Message) (conn : ℕ) (s : Subscriber)
    → IsLive conn s
    → (b : Bool) × (t : Subscriber) × (offer msg (some s) ≡ done (b, t)) × IsLive conn t
unfolding offer
offer-IsLive msg conn s h = elim (Bool-cases (ltb (length s.messages) 100)) [
  | inl e ↦ (
    true,
    record s { messages = s.messages ++ (msg ∷ []) },
    rw (h.messages_open, e) refl,
    record { its_conn = h.its_conn; messages_open = h.messages_open; done_open = h.done_open },
  )
  | inr e ↦ (false, s, rw (h.messages_open, e) refl, h)
]

IsUpdate-trans : (a b c : Heap) → IsUpdate a b → IsUpdate b c → IsUpdate a c
IsUpdate-trans a b c h k = record {
  keeps = λ conn x o. k.keeps conn x (h.keeps conn x o);
  adds_none = λ x s got. let (t, e) = k.adds_none x s got in h.adds_none x t e;
}

pub All-keeps :
    (old new : Heap) (m : List (ℕ × ℕ))
    → IsUpdate old new
    → All (λ e. IsOpen old e.0 e.1) m
    → All (λ e. IsOpen new e.0 e.1) m
All-keeps old new [] u h = tt
All-keeps old new ((conn, a) ∷ m) u h = (u.keeps conn a h.0, All-keeps old new m u h.1)

pub send_all-IsUpdate :
    (msg : Message) (m : List (ℕ × ℕ)) (heap : Heap)
    → All (λ e. IsOpen heap e.0 e.1) m
    → (count : ℕ) × (new : Heap) × (send_all msg m heap ≡ done (count, new))
      × (count ≤ length m)
      × IsUpdate heap new
unfolding send_all
send_all-IsUpdate msg [] heap h =
    (0, heap, refl, omega arith, record { keeps = λ conn a o. o; adds_none = λ a s got. (s, got) })
send_all-IsUpdate msg ((conn, a) ∷ m) heap h =
    let (s, at, live) = h.0 in
    let (b, t, sent, live') = offer-IsLive msg conn s live in
    let u = put-IsUpdate heap a conn s t at live live' in
    let (count, new, ran, few, v) =
      send_all-IsUpdate msg m (put a t heap) (All-keeps heap (put a t heap) m u h.1) in
    elim (Bool-cases b) [
      | inl e ↦ (
        suc count,
        new,
        rw (at, sent, ran, e) refl,
        omega (arith, few),
        IsUpdate-trans heap (put a t heap) new u v,
      )
      | inr e ↦ (
        count,
        new,
        rw (at, sent, ran, e) refl,
        omega (arith, few),
        IsUpdate-trans heap (put a t heap) new u v,
      )
    ]
