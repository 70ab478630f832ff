-- ===== src/Tests/CApi.antt =====
-- A client of the C library that has set its functions, and knows the relay.
use khawasu_pc.Base.{◌≡◌, ◌⊎◌, refl, true, none, some, Option, [], ◌∷◌, length, bytes_beq, nat_eq}
use khawasu_pc.Base.Outcome.{ok, fault, null_pointer}
use khawasu_pc.Base.Dict.{find, emplace}
use khawasu_pc.Protocol.{success, LogicalPacket, other}
use khawasu_pc.DeviceInfo.{
  ActionResponse, log_device_info, parse_attribs, parse_actions, bytes_at, c_str,
}
use khawasu_pc.Manager.State.{Manager, phy_device_manager, lookup_log, lookup_action, find_action}
use khawasu_pc.Manager.Fetch.{fetch_action_by_name}
use khawasu_pc.Manager.Fetch.Answers.{answer_packet}
use khawasu_pc.CallbackDevice.{on_action_get, on_action_set}
use khawasu_pc.Overlay.{OverlayFormat, overlay_log, reliable}
use khawasu_pc.App
use khawasu_pc.App.{KhawasuApp, khawasu_app}
use khawasu_pc.CApi.{Context, dispatched}
use khawasu_pc.CApi.Functions.{new_context, fetch_action, mesh_packet_handler, created}
use khawasu_pc.CApi.Requests.{fetch_action-result}
use khawasu_pc.CApi.Devices.{created-on_action}
use khawasu_pc.CApi.Announcements.{hello_packet, told, mesh_packet_handler-announcement}
use khawasu_pc.Tests.Fixtures.{proto, relay_hello, relay, knowing}

-- All data is one reliable packet.
abbrev pub carrying : LogicalPacket → OverlayFormat
carrying log = record {
  type_size = 1;
  reliable_size = 4;
  unreliable_size = 2;
  overlay_type = λ memory. reliable;
  reliable_data = λ memory. log;
  unreliable_data = λ memory. log;
}

abbrev client : Context
client = record (new_context 3) {
  new_device_callback = true;
  action_fetch_result_callback = true;
  action_execute_callback = some (λ addr port name type buffer. 7);
}

abbrev acquainted : Context
acquainted = record client {
  manager = record knowing { new_device_callback = true; action_callback = true };
}

unknown_device :
    fetch_action_by_name proto client.manager 7 20 (111 ∷ 110 ∷ []) [] 50 60 []
    ≡ ok (none, client.manager)
unfolding fetch_action_by_name lookup_action lookup_log phy_device_manager find
unknown_device = refl

fetch_action-result_example :
    ((◌≡◌ {A = Option ActionResponse} none none)
      × (fetch_action proto client 7 20 (111 ∷ 110 ∷ []) [] 50 60 [] ≡ fault null_pointer))
    ⊎ ((r : ActionResponse) × (c' : Context) × (◌≡◌ {A = Option ActionResponse} none (some r))
        × (fetch_action proto client 7 20 (111 ∷ 110 ∷ []) [] 50 60 []
            ≡ ok ((r.payload, length r.payload), c'))
        × (c'.manager ≡ record client.manager { events = [] }))
unfolding phy_device_manager
fetch_action-result_example =
    fetch_action-result proto client 7 20 (111 ∷ 110 ∷ []) [] 50 60 [] none client.manager refl
      unknown_device

abbrev pub answer : LogicalPacket
answer = (answer_packet 7 20 9 0 success (5 ∷ 6 ∷ [])).log

pub known_action_here :
    lookup_action acquainted.manager 7 20 (111 ∷ 110 ∷ [])
    ≡ some (0, record { name = 111 ∷ 110 ∷ []; action_type = 1 })
unfolding lookup_action lookup_log find find_action c_str bytes_beq
known_action_here = refl

pub answer_read : overlay_log (carrying answer) [] 9 ≡ some answer
unfolding overlay_log
answer_read = refl

abbrev app : KhawasuApp
app = record {
  fresh_network_name = "dev network";
  fresh_network_addr = 1;
  fresh_network_psk = "123";
  phy_manager = some acquainted.manager;
  interfaces = [];
}

-- A client that takes the device's port for a status, and fetches two bytes of three.
abbrev serving : Context
serving = record acquainted {
  action_execute_callback = some (λ addr port name type buffer. port);
  action_fetch_callback = some (λ addr port name type buffer. (type ∷ 6 ∷ 7 ∷ [], 2));
}

created-on_action_example :
    let d = created other serving 1124 ((111 ∷ 110 ∷ [], 1) ∷ []) in
    (on_action_set d 0 (1 ∷ []) (7, 20) ≡ ok (other 1124))
    × (on_action_get d 0 (1 ∷ []) (7, 20) 5 ≡ ok (some ((7, 20), 5, 1 ∷ 6 ∷ [])))
created-on_action_example =
    created-on_action other serving 1124 ((111 ∷ 110 ∷ [], 1) ∷ []) 0 (111 ∷ 110 ∷ []) 1 (1 ∷ [])
      (7, 20) 5 refl

hello_read :
    overlay_log (carrying (hello_packet 20 relay_hello)) [] 40 ≡ some (hello_packet 20 relay_hello)
unfolding overlay_log
hello_read = refl

relay_read : log_device_info proto 7 20 relay_hello ≡ ok relay
unfolding log_device_info parse_attribs parse_actions bytes_at c_str emplace find
relay_read = refl

mesh_packet_handler-announcement_example :
    (c' : Context) × (mesh_packet_handler proto
        (carrying (hello_packet 20 relay_hello))
        client
        7
        []
        40
      ≡ ok c')
    × (c'.effects
        ≡ dispatched (hello_packet 20 relay_hello) 40 7
          ∷ (elim (lookup_log client.manager 7 20) [ none ↦ told relay ∷ [] | some old ↦ [] ]))
unfolding phy_device_manager
mesh_packet_handler-announcement_example =
    mesh_packet_handler-announcement proto (carrying (hello_packet 20 relay_hello)) client 7 20 40
      [] relay_hello relay hello_read relay_read refl refl refl
