-- ===== src/PubSub/Leaving.antt =====
-- internal/pubsub/pubsub.go: Unsubscribe and RemoveConnection.
use gocache.Prelude.{
  ◌⊎◌, ◌↔◌, ℕ, ◌≡◌, ◌≢◌, refl, sym, ap, ◌∙◌, Option, none, some, List, [], ◌∷◌, Bool, true, false,
  Bool-cases, Option-cases, inl, inr, ℕ_discrete, done,
}
use gocache.Prelude.Maps.{
  Bytes, get, put, delete, get-put_same, get-put_other, get-delete_same, get-delete_other, nat_key,
  bytes_key, bytes_discrete,
}
use gocache.PubSub.{
  PubSub, PubSubError, no_subscriptions, not_subscribed, or_false, wants, cleanup_as,
  cleanup_if_empty, leave_channel, leave_all, unsubscribe_from, unsubscribe, remove_as,
  remove_connection,
}
use gocache.PubSub.Members.{
  members, leave_channel_self, leave_channel-others, members-leave_other, All-leave_channel,
  leave_all_self, leave_all-others, All-leave_all,
}
use gocache.PubSub.Laws.{IsSound, IsConsistent, AgreesOn, forget-IsConsistent, none_is_not_some}

-- On a consistent manager RemoveConnection ends in a consistent one that knows neither a
-- subscriber nor channels of the connection.
pub remove_connection-IsConsistent :
    (ps : PubSub) (conn : ℕ)
    → IsConsistent ps
    → (ps' : PubSub) × (remove_connection conn ps ≡ done ps')
      × IsConsistent ps'
      × (get conn ps'.connection_to_subscriber ≡ none)
      × (get conn ps'.subscriptions ≡ none)
unfolding remove_connection remove_as wants
remove_connection-IsConsistent ps conn h =
    elim (Option-cases (get conn ps.connection_to_subscriber)) [
      | inl e ↦ (ps, rw e refl, h, e, h.sound.untracked conn e)
      | inr (a, e) ↦
          let (set, t) = h.sound.tracked conn a e in
          let left : PubSub = record ps { subscribers = leave_all conn set ps.subscribers } in
          let sound : IsSound left = record {
            opened = h.sound.opened;
            tracked = h.sound.tracked;
            untracked = h.sound.untracked;
            fresh = h.sound.fresh;
            linked =
                All-leave_all (λ x. get x.0 ps.connection_to_subscriber ≡ some x.1) conn set
                  ps.subscribers h.sound.linked;
          } in
          let (ps', ran, good, out, out') =
            forget-IsConsistent conn a left sound e
              (λ c.
                leave_all_self conn set c ps.subscribers
                  (λ none_there. unwanted c set t none_there))
              (λ other n c. leave_all-others conn other set c ps.subscribers n ∙ h.agree other c) in
          (ps', rw (e, t) ran, good, out, out')
    ]
  where
    unwanted :
        (c : Bytes) (set : List (Bytes × Bool))
        → get conn ps.subscriptions ≡ some set
        → get c set ≡ none
        → get conn (members c ps.subscribers) ≡ none
    unwanted c set t out =
        let off : wants conn c ps ≡ false = rw (t, out) refl in h.agree conn c ∙ rw off refl

-- The step of Unsubscribe before the cleanup.
module _ (ps : PubSub) (conn : ℕ) (channel : Bytes) (set : List (Bytes × Bool))
    (h : IsConsistent ps) (tracked : get conn ps.subscriptions ≡ some set) where
  abbrev stepped : PubSub
  stepped = record ps {
    subscriptions = put conn (delete channel set) ps.subscriptions;
    subscribers = leave_channel conn channel ps.subscribers;
  }

  is_known : (a : ℕ) × (get conn ps.connection_to_subscriber ≡ some a)
  is_known = elim (Option-cases (get conn ps.connection_to_subscriber)) [
    | inl e ↦ absurd (none_is_not_some (sym (h.sound.untracked conn e) ∙ tracked))
    | inr (a, e) ↦ (a, e)
  ]

  stepped-IsSound : IsSound stepped
  stepped-IsSound = record {
    opened = h.sound.opened;
    tracked = λ other a got. elim (ℕ_discrete conn other) [
      | yes p ↦
          (delete channel set, rw (← p) (get-put_same conn (delete channel set) ps.subscriptions))
      | no n ↦
          let (set', e) = h.sound.tracked other a got in
          (set', get-put_other conn other (delete channel set) ps.subscriptions n ∙ e)
    ];
    untracked = λ other got. elim (ℕ_discrete conn other) [
      | yes p ↦ absurd (none_is_not_some {a = is_known.0} (sym got ∙ rw (← p) is_known.1))
      | no n ↦
          get-put_other conn other (delete channel set) ps.subscriptions n
          ∙ h.sound.untracked other got
    ];
    fresh = h.sound.fresh;
    linked = λ c.
        All-leave_channel (λ x. get x.0 ps.connection_to_subscriber ≡ some x.1) conn channel c
          ps.subscribers (h.sound.linked c) (h.sound.linked channel);
  }

  stepped-wants_same : wants conn channel stepped ≡ false
  unfolding wants
  stepped-wants_same =
      rw (get-put_same conn (delete channel set) ps.subscriptions, get-delete_same channel set) refl

  stepped-wants_other : (c : Bytes) → channel ≢ c → wants conn c stepped ≡ wants conn c ps
  unfolding wants
  stepped-wants_other c n =
      rw
        (
          get-put_same conn (delete channel set) ps.subscriptions,
          get-delete_other channel c set n,
          tracked,
        )
        refl

  stepped-AgreesOn : (other : ℕ) → AgreesOn other stepped
  unfolding wants
  stepped-AgreesOn other c = elim (ℕ_discrete conn other) [
    | yes p ↦ rw (← p) (elim (bytes_discrete channel c) [
      | yes q ↦
          rw (← q, stepped-wants_same)
            (leave_channel_self conn channel channel ps.subscribers (λ n. absurd (n refl)))
      | no n ↦
          ap (λ (m : List (ℕ × ℕ)). get conn m)
            (members-leave_other conn channel c ps.subscribers n)
          ∙ h.agree conn c
          ∙ rw (stepped-wants_other c n) refl
    ])
    | no n ↦
        rw (get-put_other conn other (delete channel set) ps.subscriptions n)
          (leave_channel-others conn other channel c ps.subscribers n ∙ h.agree other c)
  ]

  emptied :
      (c : Bytes)
      → delete channel set ≡ []
      → get conn (members c ps.subscribers) ≡ none ⊎ (channel ≡ c)
  unfolding wants get
  emptied c e = elim (bytes_discrete channel c) [
    | yes p ↦ inr p
    | no n ↦
        let nothing : get c set ≡ none =
          sym (get-delete_other channel c set n) ∙ ap (λ (m : List (Bytes × Bool)). get c m) e in
        let off : wants conn c ps ≡ false = rw (tracked, nothing) refl in
        inl (h.agree conn c ∙ rw off refl)
  ]

  cleanup-IsConsistent :
      (ps' : PubSub) × (cleanup_if_empty conn (delete channel set) stepped ≡ done ps')
      × IsConsistent ps'
      × (wants conn channel ps' ≡ false)
  unfolding wants get cleanup_as
  cleanup-IsConsistent = elim (empty_or_not (delete channel set)) [
    | inl e ↦
        let (ps', ran, good, out, out') =
          forget-IsConsistent conn is_known.0 stepped stepped-IsSound is_known.1 (λ c. gone c e)
            (λ other n. stepped-AgreesOn other) in
        (
          ps',
          ap (λ (m : List (Bytes × Bool)). cleanup_if_empty conn m stepped) e ∙ rw is_known.1 ran,
          good,
          rw out' refl,
        )
    | inr (c, rest, e) ↦ (
      stepped,
      ap (λ (m : List (Bytes × Bool)). cleanup_if_empty conn m stepped) e,
      record { sound = stepped-IsSound; agree = stepped-AgreesOn },
      stepped-wants_same,
    )
  ]
    where
      empty_or_not :
          (m : List (Bytes × Bool))
          → (m ≡ []) ⊎ ((e : Bytes × Bool) × (rest : List (Bytes × Bool)) × (m ≡ e ∷ rest))
      empty_or_not [] = inl refl
      empty_or_not (e ∷ m) = inr (e, m, refl)

      gone : (c : Bytes) → delete channel set ≡ [] → get conn (members c stepped.subscribers) ≡ none
      gone c e =
          leave_channel_self conn channel c ps.subscribers
            (λ n. elim (emptied c e) [ inl x ↦ x | inr y ↦ absurd (n y) ])

refused : (e : PubSubError) (b : Bool) → b ≡ false → (some e ≡ none) ↔ (b ≡ true)
refused e b off = (λ x. absurd (cc x), λ w. absurd (cc (off, w)))

-- On a consistent manager Unsubscribe ends in a consistent one in which the connection is not
-- subscribed to the channel, and returns no error exactly when it was.
pub unsubscribe-IsConsistent :
    (ps : PubSub) (conn : ℕ) (channel : Bytes)
    → IsConsistent ps
    → (error : Option PubSubError) × (ps' : PubSub) × (unsubscribe conn channel ps
        ≡ done (error, ps'))
      × IsConsistent ps'
      × (wants conn channel ps' ≡ false)
      × ((error ≡ none) ↔ (wants conn channel ps ≡ true))
unfolding unsubscribe unsubscribe_from wants get
unsubscribe-IsConsistent ps conn channel h = elim (Option-cases (get conn ps.subscriptions)) [
  | inl e ↦
      let off : wants conn channel ps ≡ false = rw e refl in
      (
        some no_subscriptions,
        ps,
        rw e refl,
        h,
        off,
        refused no_subscriptions (wants conn channel ps) off,
      )
  | inr (set, t) ↦ elim (Bool-cases (or_false (get channel set))) [
    | inl w ↦
        let (ps', ran, good, off) = cleanup-IsConsistent ps conn channel set h t in
        (none, ps', rw (t, w, ran) refl, good, off, (λ e. rw t w, λ x. refl))
    | inr w ↦
        let off : wants conn channel ps ≡ false = rw t w in
        (
          some not_subscribed,
          ps,
          rw (t, w) refl,
          h,
          off,
          refused not_subscribed (wants conn channel ps) off,
        )
  ]
]
