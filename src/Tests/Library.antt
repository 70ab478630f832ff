-- ===== src/Tests/Library.antt =====
-- The C library's context from `init_ctx` to `deinit_ctx`.
use khawasu_pc.Base.{
  ◌%◌, ◌≡◌, ◌⊎◌, ◌↔◌, ◌<◌, map, length, arith, refl, true, false, some, none, List, [], ◌∷◌,
  bytes_beq, nat_eq,
}
use khawasu_pc.Base.Outcome.{ok, fault, use_after_free}
use khawasu_pc.Base.Dict.{find, emplace, assign}
use khawasu_pc.Protocol
use khawasu_pc.DeviceInfo.{log_device_info, parse_attribs, parse_actions, bytes_at, c_str}
use khawasu_pc.Manager.State.{
  phy_device_manager, start, send_hello, device_added, hello_sent, lookup_action, lookup_log,
  find_action,
}
use khawasu_pc.Manager.Receive.{handle_packet}
use khawasu_pc.MeshSocket.{MeshSocketInterface, empty_buffer}
use khawasu_pc.MeshSocket.Interface.{mesh_socket_interface}
use khawasu_pc.Socket.Unix
use khawasu_pc.Overlay.{overlay_log}
use khawasu_pc.CApi.{
  Action, fetch_result, Context, deliver_all, with_manager, transmitted, dispatched, execute_result,
}
use khawasu_pc.CApi.Functions.{
  init_ctx, new_context, mesh_packet_handler, on_new_peer, execute_action_async,
  register_callback_action_execute_result, register_callback_action_fetch_result,
  fetch_action_async, created,
}
use khawasu_pc.CApi.Lifetime.{
  Call, live, freed, deinits, checks, meets_peer, receives, registers_execute_result,
  registers_fetch_result, perform, perform_all, AllHarmless, perform_all-deinits,
}
use khawasu_pc.CApi.Ready.{IsReady}
use khawasu_pc.CApi.Calls.{init_ctx-perform_all}
use khawasu_pc.CApi.Program.{power_state, execute_action_async-unknown}
use khawasu_pc.Tests.Fixtures.{proto, announcement, knowing}
use khawasu_pc.Tests.Socket.{system, wide_little_endian}
use khawasu_pc.CApi.Conversation.{fetch_action_async-created}
use khawasu_pc.CApi.Listed.{api_action, get_api_actions-created}
use khawasu_pc.CApi.Answers.{request_packet}
use khawasu_pc.CallbackDevice.{on_action_get, get_api_actions}
use khawasu_pc.Tests.CApi.{answer, answer_read, known_action_here, carrying}

abbrev to_peer : MeshSocketInterface
to_peer = record {
  is_server = false;
  self_handle = 5;
  clients = (16777343, record { buffer = empty_buffer; handle = 5 }) ∷ [];
}

abbrev fresh : Context
fresh = record (new_context 3) { effects = transmitted (device_added 3) ∷ [] }

made : init_ctx (Unix.unix system wide_little_endian) 3 "127.0.0.1" 49152 ≡ ok (fresh, to_peer)
unfolding init_ctx mesh_socket_interface Unix.connect Unix.address_u64 phy_device_manager start
    with_manager deliver_all
made = refl

abbrev calls : List Call
calls =
    registers_execute_result true ∷ registers_fetch_result true ∷ receives 7 [] 40 ∷ meets_peer ∷ []

-- The relay has announced itself, and the peer has been greeted.
abbrev met : Context
met = record fresh {
  manager = record knowing { new_device_callback = true; action_callback = true };
  action_execute_result_callback = true;
  action_fetch_result_callback = true;
  effects = transmitted (hello_sent 3) ∷ dispatched announcement 40 7 ∷ fresh.effects;
}

called : perform_all proto (carrying announcement) (live fresh) calls ≡ ok (live met)
unfolding perform_all perform overlay_log mesh_packet_handler on_new_peer send_hello with_manager
    deliver_all handle_packet phy_device_manager log_device_info parse_attribs parse_actions
    bytes_at c_str find emplace assign register_callback_action_execute_result
    register_callback_action_fetch_result
called = refl

init_ctx-perform_all_example : IsReady met
init_ctx-perform_all_example =
    init_ctx-perform_all proto (carrying announcement) (Unix.unix system wide_little_endian) 3
      "127.0.0.1" 49152 calls fresh met to_peer made called

perform_all-deinits_example :
    let o =
      perform_all proto (carrying announcement) (live met) (deinits ∷ checks ∷ meets_peer ∷ []) in
    (AllHarmless (carrying announcement) (checks ∷ meets_peer ∷ [])
      × ((c' : Context) × (o ≡ ok (freed c'))))
    ⊎ ((¬ AllHarmless (carrying announcement) (checks ∷ meets_peer ∷ []))
        × (o ≡ fault use_after_free))
perform_all-deinits_example =
    perform_all-deinits proto (carrying announcement) met (checks ∷ meets_peer ∷ [])

met-IsReady : IsReady met
met-IsReady =
    init_ctx-perform_all proto (carrying announcement) (Unix.unix system wide_little_endian) 3
      "127.0.0.1" 49152 calls fresh met to_peer made called

unknown : lookup_action met.manager 7 20 power_state ≡ none
unfolding lookup_action lookup_log find find_action c_str bytes_beq
unknown = refl

execute_action_async-unknown_example :
    execute_action_async met 7 20 power_state (255 ∷ []) false 60
    ≡ ok (
      0,
      record met {
        manager = record met.manager { action_responses_counter = 1 };
        effects = execute_result 0 (some Protocol.Status.unknown) ∷ met.effects;
      },
    )
execute_action_async-unknown_example =
    execute_action_async-unknown met 7 20 power_state (255 ∷ []) false 60 met-IsReady refl unknown

-- The other program, whose client fetches two bytes of three.
abbrev served : Context
served = record (new_context 4) {
  action_fetch_callback = some (λ addr port name type buffer. (5 ∷ 6 ∷ 7 ∷ [], 2));
}

abbrev actions : List Action
actions = (111 ∷ 110 ∷ [], 1) ∷ []

fetch_action_async-created_example :
    (c₁ : Context) × (c₂ : Context) × (fetch_action_async met 7 20 (111 ∷ 110 ∷ []) [] 60
      ≡ ok (0, c₁))
    × (on_action_get (created Protocol.Status.other served 20 actions) 0 [] (2, 3) 0
        ≡ ok (some ((2, 3), 0, 5 ∷ 6 ∷ [])))
    × (mesh_packet_handler proto (carrying answer) c₁ 7 [] 9 ≡ ok c₂)
    × (c₂.effects
        ≡ dispatched answer 9 7
          ∷ fetch_result 0 (5 ∷ 6 ∷ [])
          ∷ transmitted (request_packet met.manager 7 20 0 [])
          ∷ met.effects)
unfolding find
fetch_action_async-created_example =
    fetch_action_async-created proto (carrying answer) Protocol.Status.other met served
      (λ addr port name type buffer. (5 ∷ 6 ∷ 7 ∷ [], 2)) 7 20 0
      (record { name = 111 ∷ 110 ∷ []; action_type = 1 }) (111 ∷ 110 ∷ []) [] 60 actions
      (111 ∷ 110 ∷ []) 1 (2, 3) 9 Protocol.Status.success [] met-IsReady refl refl known_action_here
      refl refl (omega arith) answer_read refl (omega arith)

get_api_actions-created_example :
    let (api_actions, count) = get_api_actions (created Protocol.Status.other met 20 actions) in
    (api_actions ≡ map api_action actions)
    × (count ≡ length actions % 256)
    × ((count ≡ length actions) ↔ (length actions < 256))
get_api_actions-created_example = get_api_actions-created Protocol.Status.other met 20 actions
