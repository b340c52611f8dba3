-- ===== src/PubSub/Members.antt =====
-- internal/pubsub/pubsub.go: who is in a channel after a connection leaves it.
use gocache.Prelude.{
  ℕ, ◌≡◌, ◌≢◌, refl, sym, ◌∙◌, none, some, List, [], ◌∷◌, arith, All, ite, if_pos, if_neg,
  Option-cases, inl, inr, ℕ_discrete, Bool,
}
use gocache.Prelude.Maps.{
  Bytes, get, delete, Missing, get-put, get-delete, get-delete_same, get-delete_other, All-delete,
  nat_key, bytes_key, bytes_discrete,
}
use gocache.PubSub.{or_empty, put_or_delete, leave, leave_channel, leave_all}

abbrev pub Channels : Type 0
Channels = List (Bytes × List (ℕ × ℕ))

abbrev pub members : Bytes → Channels → List (ℕ × ℕ)
members channel all = or_empty (get channel all)

put_or_delete-lem :
    (c d : Bytes) (m : List (ℕ × ℕ)) (all : Channels)
    → members d (put_or_delete c m all) ≡ ite (bytes_discrete c d) m (members d all)
put_or_delete-lem c d [] all = ground (arith, get-delete c d all)
put_or_delete-lem c d (e ∷ m) all = ground (arith, get-put c d (e ∷ m) all)

members-leave_channel :
    (conn : ℕ) (c d : Bytes) (all : Channels)
    → members d (leave_channel conn c all)
      ≡ ite (bytes_discrete c d) (delete conn (members c all)) (members d all)
unfolding leave_channel leave delete
members-leave_channel conn c d all = elim (Option-cases (get c all)) [
  | inl e ↦ ground (arith, e)
  | inr (m, e) ↦ rw (e) (put_or_delete-lem c d (delete conn m) all)
]

pub members-leave_same :
    (conn : ℕ) (c : Bytes) (all : Channels)
    → members c (leave_channel conn c all) ≡ delete conn (members c all)
members-leave_same conn c all =
    members-leave_channel conn c c all
    ∙ if_pos (bytes_discrete c c) refl (delete conn (members c all)) (members c all)

pub members-leave_other :
    (conn : ℕ) (c d : Bytes) (all : Channels)
    → c ≢ d
    → members d (leave_channel conn c all) ≡ members d all
members-leave_other conn c d all n =
    members-leave_channel conn c d all
    ∙ if_neg (bytes_discrete c d) n (delete conn (members c all)) (members d all)

pub leave_channel_self :
    (conn : ℕ) (c d : Bytes) (all : Channels)
    → (c ≢ d → get conn (members d all) ≡ none)
    → get conn (members d (leave_channel conn c all)) ≡ none
leave_channel_self conn c d all h = elim (bytes_discrete c d) [
  | yes p ↦ rw (← p, members-leave_same conn c all) (get-delete_same conn (members c all))
  | no n ↦ rw (members-leave_other conn c d all n) (h n)
]

pub leave_channel-others :
    (conn other : ℕ) (c d : Bytes) (all : Channels)
    → conn ≢ other
    → get other (members d (leave_channel conn c all)) ≡ get other (members d all)
leave_channel-others conn other c d all h = elim (bytes_discrete c d) [
  | yes p ↦ rw (← p, members-leave_same conn c all) (get-delete_other conn other (members c all) h)
  | no n ↦ rw (members-leave_other conn c d all n) refl
]

pub All-leave_channel :
    (P : ℕ × ℕ → Type 0) (conn : ℕ) (c d : Bytes) (all : Channels)
    → All P (members d all)
    → All P (members c all)
    → All P (members d (leave_channel conn c all))
All-leave_channel P conn c d all h k = elim (bytes_discrete c d) [
  | yes p ↦ rw (← p, members-leave_same conn c all) (All-delete P conn (members c all) k)
  | no n ↦ rw (members-leave_other conn c d all n) h
]

pub leave_all_self :
    (conn : ℕ) (set : List (Bytes × Bool)) (d : Bytes) (all : Channels)
    → (get d set ≡ none → get conn (members d all) ≡ none)
    → get conn (members d (leave_all conn set all)) ≡ none
unfolding leave_all get
leave_all_self conn [] d all h = h refl
leave_all_self conn ((c, b) ∷ set) d all h =
    leave_all_self conn set d (leave_channel conn c all) (λ out.
      leave_channel_self conn c d all
        (λ n. h (if_neg (bytes_discrete c d) n (some b) (get d set) ∙ out)))

pub leave_all-others :
    (conn other : ℕ) (set : List (Bytes × Bool)) (d : Bytes) (all : Channels)
    → conn ≢ other
    → get other (members d (leave_all conn set all)) ≡ get other (members d all)
unfolding leave_all
leave_all-others conn other [] d all h = refl
leave_all-others conn other ((c, b) ∷ set) d all h =
    leave_all-others conn other set d (leave_channel conn c all) h
    ∙ leave_channel-others conn other c d all h

pub All-leave_all :
    (P : ℕ × ℕ → Type 0) (conn : ℕ) (set : List (Bytes × Bool)) (all : Channels)
    → ((d : Bytes) → All P (members d all))
    → (d : Bytes) → All P (members d (leave_all conn set all))
unfolding leave_all
All-leave_all P conn [] all h d = h d
All-leave_all P conn ((c, b) ∷ set) all h d =
    All-leave_all P conn set (leave_channel conn c all)
      (λ x. All-leave_channel P conn c x all (h x) (h c)) d

pub Missing-get : (conn : ℕ) (m : List (ℕ × ℕ)) → get conn m ≡ none → Missing conn m
unfolding get
Missing-get conn [] h = tt
Missing-get conn ((c, a) ∷ m) h = elim (ℕ_discrete c conn) [
  | yes p ↦ absurd (ground (arith, p, h))
  | no n ↦ (n, Missing-get conn m (sym (if_neg (ℕ_discrete c conn) n (some a) (get conn m)) ∙ h))
]
