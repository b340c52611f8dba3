-- ===== src/PubSub/Tests.antt =====
-- The pub/sub manager at small inputs.
use gocache.Prelude.{arith, ◌≡◌, ◌↔◌, refl, true, false, Option, none, List, [], ◌∷◌, done}
use gocache.Prelude.Maps.{Bytes, get, put, delete, nat_key, bytes_key, bytes_discrete}
use gocache.PubSub.{
  PubSub, PubSubError, new_pub_sub, wants, want, subscribe, subscribe_as, add_channel,
  new_connection, publish, send_all, offer, unsubscribe, unsubscribe_from, cleanup_as, forget,
  close_subscriber, leave, leave_channel, remove_connection,
}
use gocache.PubSub.Members.{members}
use gocache.PubSub.Queues.{Heap}
use gocache.PubSub.Laws.{IsConsistent}
use gocache.PubSub.Delivery.{members_with_room, Delivers, publish-Delivers}
use gocache.PubSub.Leaving.{unsubscribe-IsConsistent, remove_connection-IsConsistent}
use gocache.PubSub.Joining.{subscribe-IsConsistent}
use gocache.PubSub.Runs.{
  Call, subscribe_call, unsubscribe_call, publish_call, remove_call, run_calls, perform,
  run_calls-IsConsistent, new_pub_sub-IsConsistent,
}

program : Unit {0}
unfolding get put delete bytes_discrete wants want subscribe subscribe_as add_channel new_connection
    publish send_all offer unsubscribe unsubscribe_from cleanup_as forget close_subscriber leave
    leave_channel remove_connection run_calls perform
program = tt

-- "n"
abbrev news : Bytes
news = b'n' ∷ []

-- Two connections in one channel.
abbrev two : PubSub
two = record {
  connection_to_subscriber = (4, 0) ∷ (5, 1) ∷ [];
  subscribers = (news, (4, 0) ∷ (5, 1) ∷ []) ∷ [];
  subscriptions = (4, (news, true) ∷ []) ∷ (5, (news, true) ∷ []) ∷ [];
  heap =
      (0, record { conn = 4; messages = []; messages_closed = false; done_closed = false })
      ∷ (1, record { conn = 5; messages = []; messages_closed = false; done_closed = false })
      ∷ [];
  next = 2;
}

two_joined : run_calls (subscribe_call 4 news ∷ subscribe_call 5 news ∷ []) new_pub_sub ≡ done two
unfolding program
two_joined = refl

two-IsConsistent : IsConsistent two
two-IsConsistent =
    let (ps', ran, good) =
      run_calls-IsConsistent (subscribe_call 4 news ∷ subscribe_call 5 news ∷ []) new_pub_sub
        new_pub_sub-IsConsistent in
    let same : ps' ≡ two = cc (ran, two_joined) in rw (← same) good

abbrev calls : List Call
calls =
    subscribe_call 4 news
    ∷ publish_call news (b'x' ∷ [])
    ∷ unsubscribe_call 4 news
    ∷ remove_call 4
    ∷ publish_call news (b'y' ∷ [])
    ∷ []

run_calls-IsConsistent_example :
    (ps' : PubSub) × (run_calls calls new_pub_sub ≡ done ps') × IsConsistent ps'
run_calls-IsConsistent_example = run_calls-IsConsistent calls new_pub_sub new_pub_sub-IsConsistent

subscribe-IsConsistent_example :
    (ps' : PubSub) × (subscribe 6 news two ≡ done ps')
    × IsConsistent ps'
    × (wants 6 news ps' ≡ true)
subscribe-IsConsistent_example = subscribe-IsConsistent two 6 news two-IsConsistent

unsubscribe-IsConsistent_example :
    (error : Option PubSubError) × (ps' : PubSub) × (unsubscribe 4 news two ≡ done (error, ps'))
    × IsConsistent ps'
    × (wants 4 news ps' ≡ false)
    × ((error ≡ none) ↔ (wants 4 news two ≡ true))
unsubscribe-IsConsistent_example = unsubscribe-IsConsistent two 4 news two-IsConsistent

remove_connection-IsConsistent_example :
    (ps' : PubSub) × (remove_connection 5 two ≡ done ps')
    × IsConsistent ps'
    × (get 5 ps'.connection_to_subscriber ≡ none)
    × (get 5 ps'.subscriptions ≡ none)
remove_connection-IsConsistent_example = remove_connection-IsConsistent two 5 two-IsConsistent

publish-Delivers_example :
    (new : Heap) × (publish news (b'x' ∷ []) two
      ≡ done (members_with_room (members news two.subscribers) two.heap, record two { heap = new }))
    × IsConsistent (record two { heap = new })
    × Delivers
        (record { channel = news; content = b'x' ∷ [] })
        (members news two.subscribers)
        two.heap
        new
unfolding get bytes_discrete
publish-Delivers_example =
    publish-Delivers two news (b'x' ∷ []) two-IsConsistent ((omega arith, tt), (tt, tt))
