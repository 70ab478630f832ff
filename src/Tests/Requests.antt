-- ===== src/Tests/Requests.antt =====
-- Requests to a relay, and a subscription.
use Prim.Native.String.{String}
use khawasu_pc.Base.{
  ℕ, ◌≡◌, refl, true, false, [], ◌∷◌, some, none, nat_eq, arith, ◌==◌, if◌then◌else◌,
}
use khawasu_pc.Base.Outcome.{ok}
use khawasu_pc.Base.Dict.{find}
use khawasu_pc.Protocol.{success, subscription_callback}
use khawasu_pc.DeviceInfo.{ActionResponse}
use khawasu_pc.Manager.State.{Manager, callback_called, emit, lookup_log, send_hello}
use khawasu_pc.Manager.Receive.{handle_packet}
use khawasu_pc.Manager.Execute
use khawasu_pc.Manager.Execute.{Round, in_time}
use khawasu_pc.Manager.Execute.Answers.{result_packet, execute_action-answered}
use khawasu_pc.Manager.Fetch
use khawasu_pc.Manager.Subscribe.{subscribe_action}
use khawasu_pc.Manager.Subscribe.Delivery.{
  subscription, subscription_packet, after_subscribe, subscribe_action-delivered,
}
use khawasu_pc.Manager.Steps.{none_yet, more}
use khawasu_pc.Manager.Valid.{IsValid}
use khawasu_pc.Manager.Valid.Reach.{sends_hello}
use khawasu_pc.Relay.{on_action_get}
use khawasu_pc.Relay.Laws.{incoming, fetch_action-on_action_get}
use khawasu_pc.Tests.Fixtures.{proto, relay, knowing, round}

knowing-IsValid : IsValid knowing
knowing-IsValid = record {
  devices = (((refl, refl), tt), tt);
  responses = tt;
  subscribed = tt;
  request_fits = omega arith;
  subscription_fits = omega arith;
}

abbrev answering : Round
answering = record { clock = 80; taken_at = 81; during = result_packet 7 20 9 0 success ∷ [] }

execute_action-answered_example :
    (m' : Manager) × (Execute.execute_action proto knowing 7 20 0 [] true 50 60
        (round 70 ∷ answering ∷ round 90 ∷ [])
      ≡ ok (some success, m'))
    × ((j : ℕ)
        → find j m'.action_responses ≡ (if j == 0 then none else find j knowing.action_responses))
unfolding in_time find
execute_action-answered_example =
    execute_action-answered proto knowing 7 20 0 [] 50 60 (round 70 ∷ []) [] answering (round 90) 7
      20 9 success refl (refl, refl, tt) refl refl refl refl refl

-- The manager says hello between the subscription and its first packet.
abbrev later : Manager
later = send_hello (after_subscribe knowing relay (subscription 0 7 20 0 10 100 1 false))

subscribe_action-delivered_example :
    let s = subscription 0 7 20 0 10 100 1 false in
    (subscribe_action knowing 7 20 0 10 100 [] (some 1) none false
      ≡ ok (after_subscribe knowing relay s))
    × ((after_subscribe knowing relay s).events ≡ subscription_packet relay 3 s ∷ [])
    × (handle_packet proto later 7
          (record { src_addr = 20; body = subscription_callback 0 (5 ∷ 6 ∷ 7 ∷ []) })
          11
        ≡ ok (emit (callback_called 1 s (5 ∷ 6 ∷ [])) later))
unfolding lookup_log find
subscribe_action-delivered_example =
    subscribe_action-delivered proto knowing later 7 20 0 10 100 [] 1 none false relay 7 20 11
      (5 ∷ 6 ∷ 7 ∷ []) refl refl (more none_yet sends_hello) (omega arith) (omega arith)
      (omega arith)

abbrev action_number : String → ℕ
action_number name = 0

abbrev replying : Round
replying = record {
  clock = 80;
  taken_at = 81;
  during =
      incoming proto 7 (on_action_get action_number (record { status = success }) 20 0 (1, 3) 0);
}

fetch_action-on_action_get_example :
    (a : ActionResponse) × (m' : Manager) × (Fetch.fetch_action proto knowing 7 20 0 [] 50 60
        (round 70 ∷ replying ∷ round 90 ∷ [])
      ≡ ok (some a, m'))
    × (a.payload ≡ 1 ∷ [])
    × (a.status ≡ some success)
unfolding in_time find
fetch_action-on_action_get_example =
    fetch_action-on_action_get proto action_number knowing 7 20 0 [] 50 60 (round 70 ∷ []) []
      replying (round 90) (record { status = success }) (1, 3) refl refl (refl, refl, tt) refl refl
      (omega arith) refl refl
