-- ===== src/PubSub/Laws.antt =====
-- internal/pubsub/pubsub.go: the maps agree, and no call panics.
use gocache.Prelude.{
  ℕ, ◌≤◌, ◌<◌, ◌≡◌, ◌≢◌, refl, sym, ap, ◌∙◌, none, some, List, [], ◌∷◌, All, Bool, true, length,
  ℕ_discrete, done, if◌then◌else◌,
}
use gocache.Prelude.Maps.{
  Bytes, get, put, delete, get-put_other, get-delete_same, get-delete_other, nat_key, bytes_key,
}
use gocache.PubSub.{Subscriber, PubSub, wants, publish, close_subscriber, forget}
use gocache.PubSub.Members.{members, Missing-get}
use gocache.PubSub.Queues.{IsOpen, send_all-IsUpdate}

-- Every connection that is known has an open subscriber of its own and a set of channels, and the
-- members of a channel are known connections with their subscribers.
pub record IsSound (ps : PubSub) : Type 0 where
  pub opened : (conn a : ℕ) → get conn ps.connection_to_subscriber ≡ some a → IsOpen ps.heap conn a
  pub tracked :
      (conn a : ℕ)
      → get conn ps.connection_to_subscriber ≡ some a
      → (set : List (Bytes × Bool)) × (get conn ps.subscriptions ≡ some set)
  pub untracked :
      (conn : ℕ) → get conn ps.connection_to_subscriber ≡ none → get conn ps.subscriptions ≡ none
  pub fresh : (a : ℕ) (s : Subscriber) → get a ps.heap ≡ some s → a < ps.next
  pub linked :
      (c : Bytes)
      → All (λ e. get e.0 ps.connection_to_subscriber ≡ some e.1) (members c ps.subscribers)

-- A connection is a member of a channel, with its subscriber, exactly when it wants the channel.
abbrev pub AgreesOn : ℕ → PubSub → Type 0
AgreesOn conn ps =
    (c : Bytes)
    → get conn (members c ps.subscribers)
      ≡ (if wants conn c ps then get conn ps.connection_to_subscriber else none)

pub record IsConsistent (ps : PubSub) : Type 0 where
  pub sound : IsSound ps
  pub agree : (conn : ℕ) → AgreesOn conn ps

pub All-map :
    (P Q : ℕ × ℕ → Type 0) (m : List (ℕ × ℕ)) → ((e : ℕ × ℕ) → P e → Q e) → All P m → All Q m
All-map P Q [] f h = tt
All-map P Q (e ∷ m) f h = (f e h.0, All-map P Q m f h.1)

pub linked_open :
    (ps : PubSub) (channel : Bytes)
    → IsConsistent ps
    → All (λ e. IsOpen ps.heap e.0 e.1) (members channel ps.subscribers)
linked_open ps channel h =
    All-map (λ e. get e.0 ps.connection_to_subscriber ≡ some e.1) (λ e. IsOpen ps.heap e.0 e.1)
      (members channel ps.subscribers) (λ e got. h.sound.opened e.0 e.1 got)
      (h.sound.linked channel)

pub publish-IsConsistent :
    (ps : PubSub) (channel content : Bytes)
    → IsConsistent ps
    → (count : ℕ) × (ps' : PubSub) × (publish channel content ps ≡ done (count, ps'))
      × (count ≤ length (members channel ps.subscribers))
      × IsConsistent ps'
unfolding publish wants
publish-IsConsistent ps channel content h =
    let (count, new, ran, few, u) =
      send_all-IsUpdate (record { channel = channel; content = content })
        (members channel ps.subscribers) ps.heap (linked_open ps channel h) in
    (
      count,
      record ps { heap = new },
      rw ran refl,
      few,
      record {
        sound = record {
          opened = λ conn a got. u.keeps conn a (h.sound.opened conn a got);
          tracked = h.sound.tracked;
          untracked = h.sound.untracked;
          fresh = λ a s got. let (t, e) = u.adds_none a s got in h.sound.fresh a t e;
          linked = h.sound.linked;
        };
        agree = h.agree;
      },
    )

All-map_both :
    (P Q R : ℕ × ℕ → Type 0) (m : List (ℕ × ℕ))
    → ((e : ℕ × ℕ) → P e → Q e → R e)
    → All P m
    → All Q m
    → All R m
All-map_both P Q R [] f h k = tt
All-map_both P Q R (e ∷ m) f h k = (f e h.0 k.0, All-map_both P Q R m f h.1 k.1)

pub none_is_not_some : {A : Type 0} {a : A} → none ≡ some a → ⊥
none_is_not_some e = cc e

-- What the closes and the deletions do, once the connection is a member of no channel.
module _ (conn a : ℕ) (ps : PubSub) (sound : IsSound ps)
    (known : get conn ps.connection_to_subscriber ≡ some a)
    (gone : (c : Bytes) → get conn (members c ps.subscribers) ≡ none)
    (others : (other : ℕ) → conn ≢ other → AgreesOn other ps) where
  subscriber : IsOpen ps.heap conn a
  subscriber = sound.opened conn a known

  abbrev closed : Subscriber
  closed = record (subscriber.0) { messages_closed = true; done_closed = true }

  abbrev forgotten : PubSub
  forgotten = record ps {
    heap = put a closed ps.heap;
    subscriptions = delete conn ps.subscriptions;
    connection_to_subscriber = delete conn ps.connection_to_subscriber;
  }

  still_known :
      (other b : ℕ)
      → get other forgotten.connection_to_subscriber ≡ some b
      → (conn ≢ other) × (get other ps.connection_to_subscriber ≡ some b)
  still_known other b got = elim (ℕ_discrete conn other) [
    | yes p ↦
        absurd (
          none_is_not_some
            (sym (rw (← p) (get-delete_same conn ps.connection_to_subscriber)) ∙ got))
    | no n ↦ (n, sym (get-delete_other conn other ps.connection_to_subscriber n) ∙ got)
  ]

  forgotten_opened :
      (other b : ℕ)
      → get other forgotten.connection_to_subscriber ≡ some b
      → IsOpen forgotten.heap other b
  forgotten_opened other b got =
      let (n, was) = still_known other b got in
      let (s, at, live) = subscriber in
      let (u, at', live') = sound.opened other b was in
      let apart : a ≢ b = λ p.
        let same : s ≡ u = cc (at, at', p) in
        n (sym live.its_conn ∙ ap (λ (x : Subscriber). x.conn) same ∙ live'.its_conn) in
      (u, get-put_other a b closed ps.heap apart ∙ at', live')

  forgotten_fresh : (b : ℕ) (u : Subscriber) → get b forgotten.heap ≡ some u → b < forgotten.next
  forgotten_fresh b u got = elim (ℕ_discrete a b) [
    | yes p ↦ let (s, at, live) = subscriber in rw (← p) (sound.fresh a s at)
    | no n ↦ sound.fresh b u (sym (get-put_other a b closed ps.heap n) ∙ got)
  ]

  forgotten_untracked :
      (other : ℕ)
      → get other forgotten.connection_to_subscriber ≡ none
      → get other forgotten.subscriptions ≡ none
  forgotten_untracked other got = elim (ℕ_discrete conn other) [
    | yes p ↦ rw (← p) (get-delete_same conn ps.subscriptions)
    | no n ↦
        get-delete_other conn other ps.subscriptions n
        ∙ sound.untracked other
            (sym (get-delete_other conn other ps.connection_to_subscriber n) ∙ got)
  ]

  forgotten-AgreesOn : (other : ℕ) → AgreesOn other forgotten
  unfolding wants get
  forgotten-AgreesOn other c = elim (ℕ_discrete conn other) [
    | yes p ↦ rw (← p, get-delete_same conn ps.subscriptions) (gone c)
    | no n ↦
        rw
          (
            get-delete_other conn other ps.subscriptions n,
            get-delete_other conn other ps.connection_to_subscriber n,
          )
          (others other n c)
  ]

  pub forget-IsConsistent :
      (ps' : PubSub) × (forget conn a ps ≡ done ps')
      × IsConsistent ps'
      × (get conn ps'.connection_to_subscriber ≡ none)
      × (get conn ps'.subscriptions ≡ none)
  unfolding forget close_subscriber
  forget-IsConsistent =
      let (s, at, live) = subscriber in
      (
        forgotten,
        rw (at, live.messages_open, live.done_open) refl,
        record {
          sound = record {
            opened = forgotten_opened;
            tracked = λ other b got.
                let (n, was) = still_known other b got in
                let (set, e) = sound.tracked other b was in
                (set, get-delete_other conn other ps.subscriptions n ∙ e);
            untracked = forgotten_untracked;
            fresh = forgotten_fresh;
            linked = λ c.
                All-map_both (λ e. get e.0 ps.connection_to_subscriber ≡ some e.1) (λ e. e.0 ≢ conn)
                  (λ e. get e.0 forgotten.connection_to_subscriber ≡ some e.1)
                  (members c ps.subscribers)
                  (λ e was n.
                    get-delete_other conn e.0 ps.connection_to_subscriber (λ p. n (sym p)) ∙ was)
                  (sound.linked c) (Missing-get conn (members c ps.subscribers) (gone c));
          };
          agree = forgotten-AgreesOn;
        },
        get-delete_same conn ps.connection_to_subscriber,
        get-delete_same conn ps.subscriptions,
      )
