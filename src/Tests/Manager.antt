-- ===== src/Tests/Manager.antt =====
-- The manager's theorems at a relay that has announced itself.
use khawasu_pc.Base.{
  ℕ, ◌≡◌, ◌↔◌, ◌-◌, ◌%◌, ◌⊎◌, refl, true, false, [], ◌∷◌, some, none, nat_eq, arith, inl, inr,
  if◌then◌else◌, ◌==◌,
}
use khawasu_pc.Base.Outcome.{ok, Settles}
use khawasu_pc.Base.Dict.{find}
use khawasu_pc.Protocol.{success, action_fetch}
use khawasu_pc.DeviceInfo.{ActionResponse, fetch, action_response}
use khawasu_pc.Manager.State.{Manager, Subscription, sent, emit, phy_device_manager}
use khawasu_pc.Manager.Receive.{handle_done}
use khawasu_pc.Manager.Execute.{in_time, execute_action_by_name}
use khawasu_pc.Manager.Execute.Returns.{execute_action_by_name-Settles}
use khawasu_pc.Manager.Fetch.{fetch_action}
use khawasu_pc.Manager.Fetch.Answers.{answer_packet, answered, fetch_action-answered}
use khawasu_pc.Manager.Fetch.Unanswered.{fetch_action-unanswered, fetch_action-stale}
use khawasu_pc.Manager.Registry.{Grows, directory}
use khawasu_pc.Manager.Registry.Calls.{Step-Grows}
use khawasu_pc.Manager.Requests.{fetches, request_ids, request_ids-eq_iff}
use khawasu_pc.Manager.Valid.{IsValid}
use khawasu_pc.Manager.Valid.Reach.{
  created, called, handles, Reach-IsValid, handle_done_lem, restart,
}
use khawasu_pc.Tests.Fixtures.{proto, announcement, knowing, knowing_lem, round}

Reach-IsValid_example : IsValid knowing
Reach-IsValid_example =
    Reach-IsValid proto {port = 3} (called created (handles 7 announcement 40 knowing_lem))

abbrev subscribed : Manager
subscribed = record knowing {
  subscriptions =
      (
        0,
        record {
          device = some (7, 20);
          id = 0;
          action_id = 0;
          duration = 10;
          period = 100;
          is_renew = true;
          callback = some 1;
          done_callback = none;
        },
      )
      ∷ [];
}

subscribed-IsValid : IsValid subscribed
unfolding find
subscribed-IsValid = record {
  devices = (((refl, refl), tt), tt);
  responses = tt;
  subscribed = ((refl, omega arith, refl, (7, 20, refl, λ e. cc)), tt);
  request_fits = omega arith;
  subscription_fits = omega arith;
}

handle_done_lem_example :
    ((find 0 subscribed.subscriptions ≡ none) × (handle_done proto subscribed 0 ≡ ok subscribed))
    ⊎ ((s : Subscription) × (a : ℕ) × (p : ℕ) × (find 0 subscribed.subscriptions ≡ some s)
        × (s.device ≡ some (a, p))
        × (handle_done proto subscribed 0
            ≡ ok (if s.is_renew then emit (restart subscribed s a p) subscribed else subscribed)))
handle_done_lem_example = handle_done_lem proto subscribed 0 subscribed-IsValid

fetch_action-answered_example :
    (m' : Manager) × (fetch_action proto knowing 7 20 0 [] 50 60 (
        round 70
        ∷ record {
          clock = 80;
          taken_at = 81;
          during = answer_packet 7 20 9 0 success (5 ∷ 6 ∷ []) ∷ [];
        }
        ∷ round 90
        ∷ [])
      ≡ ok (
        some (record (answered proto (action_response 0 fetch 7 20 50) 9 success (5 ∷ 6 ∷ [])) {
          time_received = 91;
        }),
        m',
      ))
    × ((j : ℕ)
        → find j m'.action_responses ≡ (if j == 0 then none else find j knowing.action_responses))
unfolding in_time find
fetch_action-answered_example =
    fetch_action-answered proto knowing 7 20 0 [] 50 60 (round 70 ∷ []) []
      (record {
        clock = 80;
        taken_at = 81;
        during = answer_packet 7 20 9 0 success (5 ∷ 6 ∷ []) ∷ [];
      })
      (round 90) 7 20 9 success (5 ∷ 6 ∷ []) refl (refl, refl, tt) refl refl (omega arith) refl refl

fetch_action-unanswered_example :
    (m' : Manager) × (fetch_action proto knowing 7 20 0
        (1 ∷ [])
        50
        60
        (round 70 ∷ round 6_000_000 ∷ [])
      ≡ ok (none, m'))
    × (m'.events ≡ (
        sent
          (record { dest_phy = 7; dest_log = 20; src_port = 3; fields = action_fetch 0 0 (1 ∷ []) })
        ∷ []))
    × (find 0 m'.action_responses ≡ some (action_response 0 fetch 7 20 50))
unfolding in_time find
fetch_action-unanswered_example =
    fetch_action-unanswered proto knowing 7 20 0 (1 ∷ []) 50 60 (round 70 ∷ []) [] (round 6_000_000)
      refl (refl, refl, tt) refl

-- An answer to a request of long ago, for another device.
abbrev old_answer : ActionResponse
old_answer = record {
  is_waiting = false;
  req_id = 0;
  response_type = fetch;
  src_phy = 9;
  src_port = 1;
  status = some success;
  payload = 5 ∷ [];
  time_sent = 1;
  time_received = 0;
}

abbrev holding : Manager
holding = record knowing { action_responses = (0, old_answer) ∷ [] }

fetch_action-stale_example :
    (m' : Manager) × (fetch_action proto holding 7 20 0 [] 50 60 (round 70 ∷ [])
      ≡ ok (some (record old_answer { time_received = 71 }), m'))
unfolding in_time find
fetch_action-stale_example =
    fetch_action-stale proto holding 7 20 0 [] 50 60 [] (round 70) old_answer refl refl refl refl

request_ids-eq_iff_example : (◌≡◌ {A = ℕ} 0 1) ↔ (◌≡◌ {A = ℕ} ((1 - 0) % 256) 0)
unfolding request_ids
request_ids-eq_iff_example =
    request_ids-eq_iff knowing (fetches 7 20 0 [] 50 ∷ fetches 7 20 0 [] 60 ∷ []) 0 1 0 1
      (omega arith) (omega arith) refl refl

execute_action_by_name-Settles_example : Settles (
    execute_action_by_name proto knowing 7 20
      (111 ∷ 110 ∷ [])
      (1 ∷ [])
      true
      50
      60
      (round 70 ∷ round 6_000_000 ∷ []))
execute_action_by_name-Settles_example =
    execute_action_by_name-Settles proto knowing 7 20 (111 ∷ 110 ∷ []) (1 ∷ []) true 50 60
      (round 70 ∷ round 6_000_000 ∷ []) (inr (inl (omega arith, omega arith)))

Step-Grows_example : Grows (directory (phy_device_manager 3)) (directory knowing)
Step-Grows_example = Step-Grows proto (handles 7 announcement 40 knowing_lem)
