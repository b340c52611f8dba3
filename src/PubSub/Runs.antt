-- ===== src/PubSub/Runs.antt =====
-- internal/pubsub/pubsub.go: sequences of calls on a new manager.
use gocache.Prelude.{ℕ, ◌≡◌, refl, List, [], ◌∷◌, Outcome, done, ◌>>=◌}
use gocache.Prelude.Maps.{Bytes, get, nat_key, bytes_key}
use gocache.PubSub.{PubSub, new_pub_sub, wants, subscribe, publish, unsubscribe, remove_connection}
use gocache.PubSub.Laws.{IsConsistent, publish-IsConsistent, none_is_not_some}
use gocache.PubSub.Leaving.{unsubscribe-IsConsistent, remove_connection-IsConsistent}
use gocache.PubSub.Joining.{subscribe-IsConsistent}

pub data Call : Type 0 where
  subscribe_call unsubscribe_call : ℕ → Bytes → Call
  remove_call : ℕ → Call
  publish_call : Bytes → Bytes → Call

unfoldable pub perform : Call → PubSub → Outcome PubSub
perform (subscribe_call conn channel) ps = subscribe conn channel ps
perform (unsubscribe_call conn channel) ps = do (error, ps') ← unsubscribe conn channel ps; done ps'
perform (remove_call conn) ps = remove_connection conn ps
perform (publish_call channel content) ps = do (count, ps') ← publish channel content ps; done ps'

unfoldable pub run_calls : List Call → PubSub → Outcome PubSub
unfolding perform
run_calls [] ps = done ps
run_calls (c ∷ cs) ps = do ps' ← perform c ps; run_calls cs ps'

pub new_pub_sub-IsConsistent : IsConsistent new_pub_sub
unfolding get wants
new_pub_sub-IsConsistent = record {
  sound = record {
    opened = λ conn a e. absurd (none_is_not_some e);
    tracked = λ conn a e. absurd (none_is_not_some e);
    untracked = λ conn e. refl;
    fresh = λ a s e. absurd (none_is_not_some e);
    linked = λ c. tt;
  };
  agree = λ conn c. refl;
}

perform-IsConsistent :
    (c : Call) (ps : PubSub)
    → IsConsistent ps
    → (ps' : PubSub) × (perform c ps ≡ done ps') × IsConsistent ps'
unfolding perform
perform-IsConsistent (subscribe_call conn channel) ps h =
    let (ps', ran, good, on) = subscribe-IsConsistent ps conn channel h in (ps', ran, good)
perform-IsConsistent (unsubscribe_call conn channel) ps h =
    let (error, ps', ran, good, off, why) = unsubscribe-IsConsistent ps conn channel h in
    (ps', rw ran refl, good)
perform-IsConsistent (remove_call conn) ps h =
    let (ps', ran, good, out, out') = remove_connection-IsConsistent ps conn h in (ps', ran, good)
perform-IsConsistent (publish_call channel content) ps h =
    let (count, ps', ran, few, good) = publish-IsConsistent ps channel content h in
    (ps', rw ran refl, good)

-- From a consistent manager any sequence of Subscribe, Unsubscribe, RemoveConnection and Publish
-- calls ends without a panic (no send on a closed channel, no second close, no write to a nil
-- map) in a consistent manager: its three maps agree, and each known connection has an open
-- subscriber.
pub run_calls-IsConsistent :
    (cs : List Call) (ps : PubSub)
    → IsConsistent ps
    → (ps' : PubSub) × (run_calls cs ps ≡ done ps') × IsConsistent ps'
unfolding run_calls
run_calls-IsConsistent [] ps h = (ps, refl, h)
run_calls-IsConsistent (c ∷ cs) ps h =
    let (ps1, ran, good) = perform-IsConsistent c ps h in
    let (ps2, rans, goods) = run_calls-IsConsistent cs ps1 good in (ps2, rw (ran, rans) refl, goods)
