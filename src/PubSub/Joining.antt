-- ===== src/PubSub/Joining.antt =====
-- internal/pubsub/pubsub.go: Subscribe.
use gocache.Prelude.{
  ℕ, suc, ◌≡◌, ◌≢◌, refl, sym, ap, ◌∙◌, Option, none, some, List, [], arith, Bool, true, false,
  Bool-cases, Option-cases, inl, inr, ℕ_discrete, done,
}
use gocache.Prelude.Maps.{
  Bytes, get, put, get-put_same, get-put_other, All-put, nat_key, bytes_key, bytes_discrete,
}
use gocache.PubSub.{
  PubSub, new_subscriber, or_empty, wants, want, add_channel, new_connection, subscribe_as,
  subscribe,
}
use gocache.PubSub.Members.{members}
use gocache.PubSub.Queues.{IsOpen}
use gocache.PubSub.Laws.{IsSound, IsConsistent, AgreesOn, All-map, none_is_not_some}

-- A connection that is not known gets an open subscriber and no channels.
module _ (ps : PubSub) (conn : ℕ) (h : IsConsistent ps)
    (unknown : get conn ps.connection_to_subscriber ≡ none) where
  abbrev joined : PubSub
  joined = record ps {
    connection_to_subscriber = put conn ps.next ps.connection_to_subscriber;
    subscriptions = put conn [] ps.subscriptions;
    heap = put ps.next (new_subscriber conn) ps.heap;
    next = suc ps.next;
  }

  joined_opened :
      (other b : ℕ)
      → get other joined.connection_to_subscriber ≡ some b
      → IsOpen joined.heap other b
  joined_opened other b got = elim (ℕ_discrete conn other) [
    | yes p ↦
        let at : some ps.next ≡ some b =
          sym (get-put_same conn ps.next ps.connection_to_subscriber)
          ∙ ap (λ (x : ℕ). get x joined.connection_to_subscriber) p
          ∙ got in
        let same : ps.next ≡ b = cc at in
        (
          new_subscriber conn,
          rw (← same) (get-put_same ps.next (new_subscriber conn) ps.heap),
          record { its_conn = p; messages_open = refl; done_open = refl },
        )
    | no n ↦
        let was = sym (get-put_other conn other ps.next ps.connection_to_subscriber n) ∙ got in
        let (u, at, live) = h.sound.opened other b was in
        let older = h.sound.fresh b u at in
        (
          u,
          get-put_other ps.next b (new_subscriber conn) ps.heap (λ e. absurd (omega arith)) ∙ at,
          live,
        )
  ]

  joined-IsSound : IsSound joined
  joined-IsSound = record {
    opened = joined_opened;
    tracked = λ other a got. elim (ℕ_discrete conn other) [
      | yes p ↦ ([], rw (← p) (get-put_same conn [] ps.subscriptions))
      | no n ↦
          let (set, e) =
            h.sound.tracked other a
              (sym (get-put_other conn other ps.next ps.connection_to_subscriber n) ∙ got) in
          (set, get-put_other conn other [] ps.subscriptions n ∙ e)
    ];
    untracked = λ other got. elim (ℕ_discrete conn other) [
      | yes p ↦ absurd (
          none_is_not_some {a = ps.next}
            (sym got ∙ rw (← p) (get-put_same conn ps.next ps.connection_to_subscriber)))
      | no n ↦
          get-put_other conn other [] ps.subscriptions n
          ∙ h.sound.untracked other
              (sym (get-put_other conn other ps.next ps.connection_to_subscriber n) ∙ got)
    ];
    fresh = λ b u got. elim (ℕ_discrete ps.next b) [
      | yes p ↦ omega arith
      | no n ↦
          let older =
            h.sound.fresh b u
              (sym (get-put_other ps.next b (new_subscriber conn) ps.heap n) ∙ got) in
          omega (arith, older)
    ];
    linked = λ c.
        All-map (λ e. get e.0 ps.connection_to_subscriber ≡ some e.1)
          (λ e. get e.0 joined.connection_to_subscriber ≡ some e.1) (members c ps.subscribers)
          (λ e was.
            get-put_other conn e.0 ps.next ps.connection_to_subscriber
              (λ p. none_is_not_some {a = e.1} (sym unknown ∙ rw p was))
            ∙ was)
          (h.sound.linked c);
  }

  joined-AgreesOn : (other : ℕ) → AgreesOn other joined
  unfolding wants get
  joined-AgreesOn other c = elim (ℕ_discrete conn other) [
    | yes p ↦
        let off : wants conn c ps ≡ false = rw (h.sound.untracked conn unknown) refl in
        rw (← p, get-put_same conn [] ps.subscriptions) (h.agree conn c ∙ rw off refl)
    | no n ↦
        rw
          (
            get-put_other conn other [] ps.subscriptions n,
            get-put_other conn other ps.next ps.connection_to_subscriber n,
          )
          (h.agree other c)
  ]

-- A known connection is added to a channel.
module _ (ps : PubSub) (conn a : ℕ) (channel : Bytes) (set : List (Bytes × Bool))
    (h : IsConsistent ps) (known : get conn ps.connection_to_subscriber ≡ some a)
    (tracked : get conn ps.subscriptions ≡ some set) where
  abbrev wider : List (ℕ × ℕ)
  wider = put conn a (members channel ps.subscribers)

  abbrev added : PubSub
  added = record ps {
    subscriptions = put conn (put channel true set) ps.subscriptions;
    subscribers = put channel wider ps.subscribers;
  }

  members-same : members channel added.subscribers ≡ wider
  members-same =
      ap (λ (m : Option (List (ℕ × ℕ))). or_empty m) (get-put_same channel wider ps.subscribers)

  members-other : (c : Bytes) → channel ≢ c → members c added.subscribers ≡ members c ps.subscribers
  members-other c n =
      ap (λ (m : Option (List (ℕ × ℕ))). or_empty m)
        (get-put_other channel c wider ps.subscribers n)

  added-wants_same : wants conn channel added ≡ true
  unfolding wants
  added-wants_same =
      rw (get-put_same conn (put channel true set) ps.subscriptions, get-put_same channel true set)
        refl

  added-wants_other : (c : Bytes) → channel ≢ c → wants conn c added ≡ wants conn c ps
  unfolding wants
  added-wants_other c n =
      rw
        (
          get-put_same conn (put channel true set) ps.subscriptions,
          get-put_other channel c true set n,
          tracked,
        )
        refl

  added-IsSound : IsSound added
  added-IsSound = record {
    opened = h.sound.opened;
    tracked = λ other b got. elim (ℕ_discrete conn other) [
      | yes p ↦ (
        put channel true set,
        rw (← p) (get-put_same conn (put channel true set) ps.subscriptions),
      )
      | no n ↦
          let (set', e) = h.sound.tracked other b got in
          (set', get-put_other conn other (put channel true set) ps.subscriptions n ∙ e)
    ];
    untracked = λ other got. elim (ℕ_discrete conn other) [
      | yes p ↦ absurd (none_is_not_some {a = a} (sym got ∙ rw (← p) known))
      | no n ↦
          get-put_other conn other (put channel true set) ps.subscriptions n
          ∙ h.sound.untracked other got
    ];
    fresh = h.sound.fresh;
    linked = λ c. elim (bytes_discrete channel c) [
      | yes p ↦
          rw (← p, members-same)
            (All-put (λ x. get x.0 ps.connection_to_subscriber ≡ some x.1) conn a
              (members channel ps.subscribers) known (h.sound.linked channel))
      | no n ↦ rw (members-other c n) (h.sound.linked c)
    ];
  }

  own-AgreesOn : AgreesOn conn added
  own-AgreesOn c = elim (bytes_discrete channel c) [
    | yes p ↦
        rw (← p, members-same, added-wants_same)
          (get-put_same conn a (members channel ps.subscribers) ∙ sym known)
    | no n ↦ rw (members-other c n, added-wants_other c n) (h.agree conn c)
  ]

  others-AgreesOn : (other : ℕ) → conn ≢ other → AgreesOn other added
  unfolding wants
  others-AgreesOn other n c =
      rw (get-put_other conn other (put channel true set) ps.subscriptions n)
        (elim (bytes_discrete channel c) [
          | yes p ↦
              rw (← p, members-same)
                (get-put_other conn other a (members channel ps.subscribers) n
                  ∙ h.agree other channel)
          | no q ↦ rw (members-other c q) (h.agree other c)
        ])

  added-IsConsistent : IsConsistent added
  added-IsConsistent = record {
    sound = added-IsSound;
    agree = λ other. elim (ℕ_discrete conn other) [
      | yes p ↦ rw (← p) own-AgreesOn
      | no n ↦ others-AgreesOn other n
    ];
  }

add_channel-IsConsistent :
    (ps : PubSub) (conn a : ℕ) (channel : Bytes)
    → IsConsistent ps
    → get conn ps.connection_to_subscriber ≡ some a
    → (ps' : PubSub) × (add_channel conn channel a ps ≡ done ps')
      × IsConsistent ps'
      × (wants conn channel ps' ≡ true)
unfolding add_channel want
add_channel-IsConsistent ps conn a channel h known =
    let (set, tracked) = h.sound.tracked conn a known in
    (
      added ps conn a channel set h known tracked,
      rw tracked refl,
      added-IsConsistent ps conn a channel set h known tracked,
      added-wants_same ps conn a channel set h known tracked,
    )

-- On a consistent manager Subscribe ends in a consistent one in which the connection is
-- subscribed to the channel.
pub subscribe-IsConsistent :
    (ps : PubSub) (conn : ℕ) (channel : Bytes)
    → IsConsistent ps
    → (ps' : PubSub) × (subscribe conn channel ps ≡ done ps')
      × IsConsistent ps'
      × (wants conn channel ps' ≡ true)
unfolding subscribe subscribe_as new_connection
subscribe-IsConsistent ps conn channel h =
    elim (Option-cases (get conn ps.connection_to_subscriber)) [
      | inl e ↦
          let (ps', ran, good, on) =
            add_channel-IsConsistent (joined ps conn h e) conn ps.next channel
              (record { sound = joined-IsSound ps conn h e; agree = joined-AgreesOn ps conn h e })
              (get-put_same conn ps.next ps.connection_to_subscriber) in
          (ps', rw e ran, good, on)
      | inr (a, e) ↦ elim (Bool-cases (wants conn channel ps)) [
        | inl w ↦ (ps, rw (e, w) refl, h, w)
        | inr w ↦
            let (ps', ran, good, on) = add_channel-IsConsistent ps conn a channel h e in
            (ps', rw (e, w) ran, good, on)
      ]
    ]
