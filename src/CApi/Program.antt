-- ===== src/CApi/Program.antt =====
-- khawasu_capi_test.cpp: the program that tries the C library.
use khawasu_pc.Base.{
  ℕ, zero, suc, ◌+◌, ◌%◌, ◌≡◌, refl, Bool, true, false, none, some, List, [], ◌∷◌, ◌++◌, Bytes, map,
  arith, nat_eq,
}
use khawasu_pc.Base.Outcome.{Outcome, ok, ◌>>=◌}
use khawasu_pc.Base.Dict.{find}
use khawasu_pc.Protocol
use khawasu_pc.Protocol.{Status, Proto}
use khawasu_pc.DeviceInfo.{action_response}
use khawasu_pc.Manager.State.{
  device_added, lookup_action, lookup_log, lookup, next_request, call_action, phy_device_manager,
  start,
}
use khawasu_pc.Manager.Execute.{execute_action_async_by_name}
use khawasu_pc.Socket.{Platform}
use khawasu_pc.MeshSocket.{MeshSocketInterface}
use khawasu_pc.MeshSocket.Interface.{mesh_socket_interface}
use khawasu_pc.Overlay.{OverlayFormat}
use khawasu_pc.CApi.{
  Context, transmitted, execute_result, deliver_all, deliver, on_action, with_manager,
}
use khawasu_pc.CApi.Functions.{
  init_ctx, new_context, execute_action_async, register_callback_new_device,
  register_callback_action_execute_result, register_callback_action_fetch_result,
}
use khawasu_pc.CApi.Lifetime.{
  Instance, live, Call, perform, perform_all, use_manager, check_packets, registers_new_device,
  registers_execute_result, registers_fetch_result, executes_async, checks, receives,
}
use khawasu_pc.CApi.Ready.{IsReady}

abbrev pub power_state : Bytes
power_state = b'p' ∷ b'o' ∷ b'w' ∷ b'e' ∷ b'r' ∷ b'_' ∷ b's' ∷ b't' ∷ b'a' ∷ b't' ∷ b'e' ∷ []

-- So many turns of the endless loop.
abbrev pub turns_of_loop : ℕ → List Call
turns_of_loop zero = []
turns_of_loop (suc n) = checks ∷ turns_of_loop n

-- The calls of `main` behind `init_ctx`; `arrived` are packets that another thread handles before
-- the request.
abbrev pub main_calls : List (ℕ × Bytes × ℕ) → (now turns : ℕ) → List Call
main_calls arrived now turns =
    registers_fetch_result true
    ∷ registers_execute_result true
    ∷ registers_new_device true
    ∷ (map (λ (p : ℕ × Bytes × ℕ). receives p.0 p.1 p.2) arrived
        ++ executes_async 4344 20 power_state (255 ∷ []) false now ∷ turns_of_loop turns)

-- `deinit_ctx` stands behind the endless loop and is never called.
unfoldable pub main :
    Proto
    → OverlayFormat
    → Platform
    → (port : ℕ) → List (ℕ × Bytes × ℕ)
    → (now turns : ℕ) → Outcome Instance
main P V O port arrived now turns = do
  (c, i) ← init_ctx O port "127.0.0.1" 49152
  perform_all P V (live c) (main_calls arrived now turns)

-- A request by name for an action that is not known, at a context between calls whose client has
-- set its function for results: the call sends nothing and records no request; it takes a number,
-- tells the client at once that the status under this number is UNKNOWN, and returns the number.
pub execute_action_async-unknown :
    (c : Context) (phy log : ℕ) (name buffer : Bytes) (require : Bool) (now : ℕ)
    → IsReady c
    → c.action_execute_result_callback ≡ true
    → lookup_action c.manager phy log name ≡ none
    → let req_id = c.manager.action_responses_counter in
      execute_action_async c phy log name buffer require now
      ≡ ok (
        req_id,
        record c {
          manager = record c.manager { action_responses_counter = (req_id + 1) % 256 };
          effects = execute_result req_id (some Protocol.Status.unknown) ∷ c.effects;
        },
      )
unfolding execute_action_async with_manager deliver_all deliver on_action
    execute_action_async_by_name next_request call_action action_response
execute_action_async-unknown c phy log name buffer require now r set unknown =
    let wired = r.wired.tells_answers in let empty = r.delivered in ground arith

module _ (P : Proto) (V : OverlayFormat) where
  perform_all-turns_of_loop :
      (c : Context) (n : ℕ) → perform_all P V (live c) (turns_of_loop n) ≡ ok (live c)
  unfolding perform_all perform check_packets
  perform_all-turns_of_loop c zero = refl
  perform_all-turns_of_loop c (suc n) = perform_all-turns_of_loop c n

  -- What the program's client has been told where no packet arrives before its request.
  abbrev told : ℕ → Context
  told port = record (new_context port) {
    manager = record (new_context port).manager { action_responses_counter = 1 };
    new_device_callback = true;
    action_execute_result_callback = true;
    action_fetch_result_callback = true;
    effects =
        execute_result 0 (some Protocol.Status.unknown) ∷ transmitted (device_added port) ∷ [];
  }

  -- Where the socket can be opened and no packet arrives before the request, the program's request
  -- is never sent, however long its loop runs: the client is told that the status is UNKNOWN.
  main-unsent :
      (O : Platform) (port now turns : ℕ) (i : MeshSocketInterface)
      → mesh_socket_interface O "127.0.0.1" 49152 false ≡ ok i
      → main P V O port [] now turns ≡ ok (live (told port))
  unfolding main init_ctx perform_all perform phy_device_manager start with_manager deliver_all
      deliver use_manager execute_action_async execute_action_async_by_name next_request call_action
      action_response on_action lookup_action lookup_log lookup find register_callback_new_device
      register_callback_action_execute_result register_callback_action_fetch_result
  main-unsent O port now turns i opened = rw opened (perform_all-turns_of_loop (told port) turns)
