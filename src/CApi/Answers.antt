-- ===== src/CApi/Answers.antt =====
-- A request of the C library's client and its answer.
use khawasu_pc.Base.{
  ◌%◌, ℕ, ◌≡◌, refl, ◌∙◌, true, none, some, [], ◌∷◌, Bytes, ◌+◌, ◌-◌, take, nat_eq, arith,
}
use khawasu_pc.Base.Outcome.{ok}
use khawasu_pc.Base.Dict.{find, emplace, assign, find-emplace}
use khawasu_pc.Protocol.{Status, Proto, action_fetch, ApiAction}
use khawasu_pc.DeviceInfo.{ActionResponse, fetch, action_response}
use khawasu_pc.Manager.State.{
  Manager, Event, sent, action_called, lookup_action, call_action, next_request,
}
use khawasu_pc.Manager.Receive.{handle_packet, handle_body, handle_response}
use khawasu_pc.Manager.Receive.Payload.{copy_payload-within}
use khawasu_pc.Manager.Fetch
use khawasu_pc.Manager.Fetch.{fetch_action_async_by_name}
use khawasu_pc.Manager.Fetch.Answers.{answer_packet, answered, FitsPacket}
use khawasu_pc.Manager.Execute.{to_ushort}
use khawasu_pc.Overlay.{OverlayFormat, overlay_log}
use khawasu_pc.CApi.{
  Context, deliver_all, deliver, on_action, with_manager, dispatched, fetch_result, transmitted,
}
use khawasu_pc.CApi.Functions.{mesh_packet_handler, fetch_action_async}

-- The manager behind `fetch_action_async`, its effects delivered.
abbrev pub asked : Manager → ℕ → ℕ → ℕ → Manager
asked m addr port now =
    let req_id = m.action_responses_counter in
    record m {
      action_responses =
          emplace req_id (action_response req_id fetch addr port now) m.action_responses;
      action_responses_counter = (req_id + 1) % 256;
      events = [];
    }

abbrev pub request_packet : Manager → ℕ → ℕ → ℕ → Bytes → Event
request_packet m addr port id buffer = sent (record {
  dest_phy = addr;
  dest_log = port;
  src_port = m.self_port;
  fields = action_fetch m.action_responses_counter (to_ushort id) buffer;
})

module _ (P : Proto) where
  handle_answer :
      (m : Manager) (src_phy src_addr size req_id : ℕ) (status : Status) (memory : Bytes)
      (a : ActionResponse)
      → find req_id m.action_responses ≡ some a
      → a.is_waiting ≡ true
      → FitsPacket P size memory
      → let a' = answered P a size status memory in
        handle_packet P m src_phy
          (answer_packet src_phy src_addr size req_id status memory).log
          size
        ≡ ok (
            call_action
              (some a')
              (record m { action_responses = assign req_id a' m.action_responses }))
  unfolding handle_packet handle_body handle_response
  handle_answer m src_phy src_addr size req_id status memory a there waiting fits =
      ground (arith, copy_payload-within size P.action_response_size memory fits.0 fits.1 fits.2)

  fetch_action_async-known :
      (c : Context) (addr port id : ℕ) (action : ApiAction) (name buffer : Bytes) (now : ℕ)
      → lookup_action c.manager addr port name ≡ some (id, action)
      → c.manager.events ≡ []
      → fetch_action_async c addr port name buffer now
        ≡ ok (
          c.manager.action_responses_counter,
          record c {
            manager = asked c.manager addr port now;
            effects = transmitted (request_packet c.manager addr port id buffer) ∷ c.effects;
          },
        )
  unfolding fetch_action_async with_manager deliver_all deliver fetch_action_async_by_name
      Fetch.fetch_action_async next_request
  fetch_action_async-known c addr port id action name buffer now known fresh =
      rw (known, fetch_action_async, fetch_action_async_by_name, fresh) refl

  deliver_all-fetched :
      (c : Context) (a : ActionResponse)
      → a.response_type ≡ fetch
      → c.action_fetch_result_callback ≡ true
      → deliver_all c (action_called (some a) ∷ [])
        ≡ ok (record c { effects = fetch_result a.req_id a.payload ∷ c.effects })
  unfolding deliver_all deliver on_action
  deliver_all-fetched c a type set = ground arith

  handler-answer :
      (V : OverlayFormat) (c : Context) (src_phy src_addr size req_id : ℕ) (status : Status)
      (memory payload : Bytes) (a : ActionResponse)
      → overlay_log V memory size
        ≡ some (answer_packet src_phy src_addr size req_id status payload).log
      → find req_id c.manager.action_responses ≡ some a
      → a.is_waiting ≡ true
      → a.response_type ≡ fetch
      → FitsPacket P size payload
      → c.manager.events ≡ []
      → c.manager.action_callback ≡ true
      → c.action_fetch_result_callback ≡ true
      → (c' : Context) × (mesh_packet_handler P V c src_phy memory size ≡ ok c')
        × (c'.effects
            ≡ dispatched
                (answer_packet src_phy src_addr size req_id status payload).log
                size
                src_phy
              ∷ fetch_result a.req_id (take (size + 1 - P.action_response_size) payload)
              ∷ c.effects)
  unfolding mesh_packet_handler with_manager call_action
  handler-answer V c src_phy src_addr size req_id status memory payload a there found waiting type
        fits fresh called set =
      let a' = answered P a size status payload in
      let m₁ : Manager = record c.manager {
        action_responses = assign req_id a' c.manager.action_responses;
      } in
      let handled : handle_packet P c.manager src_phy
            (answer_packet src_phy src_addr size req_id status payload).log size
          ≡ ok (record m₁ { events = action_called (some a') ∷ [] }) =
        handle_answer c.manager src_phy src_addr size req_id status payload a found waiting fits
        ∙ ground arith in
      let c₁ : Context = record c { manager = record m₁ { events = [] } } in
      (
        record c₁ {
          effects =
              dispatched (answer_packet src_phy src_addr size req_id status payload).log size
                src_phy
              ∷ fetch_result a'.req_id a'.payload
              ∷ c.effects;
        },
        rw (there, mesh_packet_handler, handled, with_manager, deliver_all-fetched c₁ a' type set)
            refl,
        refl,
      )

  -- A client of the C library that has set its function for fetched results, and asks for an action
  -- of a known device by name, under a number that is free: the call returns that number and sends
  -- one packet; and when the answer under this number comes in, the client's function is called
  -- once, with the number and exactly the answer's payload, before the packet is dispatched.
  pub fetch_action_async-answered :
      (V : OverlayFormat) (c : Context) (addr port id : ℕ) (action : ApiAction)
      (name buffer : Bytes) (now src_phy src_addr size : ℕ) (status : Status)
      (memory payload : Bytes)
      → let req_id = c.manager.action_responses_counter in
        let answer = (answer_packet src_phy src_addr size req_id status payload).log in
        lookup_action c.manager addr port name ≡ some (id, action)
        → find req_id c.manager.action_responses ≡ none
        → c.manager.events ≡ []
        → c.manager.action_callback ≡ true
        → c.action_fetch_result_callback ≡ true
        → overlay_log V memory size ≡ some answer
        → FitsPacket P size payload
        → (c₁ : Context) × (c₂ : Context) × (fetch_action_async c addr port name buffer now
            ≡ ok (req_id, c₁))
          × (mesh_packet_handler P V c₁ src_phy memory size ≡ ok c₂)
          × (c₂.effects
              ≡ dispatched answer size src_phy
                ∷ fetch_result req_id (take (size + 1 - P.action_response_size) payload)
                ∷ transmitted (request_packet c.manager addr port id buffer)
                ∷ c.effects)
  unfolding action_response
  fetch_action_async-answered V c addr port id action name buffer now src_phy src_addr size status
        memory payload known free fresh called set there fits =
      let req_id = c.manager.action_responses_counter in
      let c₁ : Context = record c {
        manager = asked c.manager addr port now;
        effects = transmitted (request_packet c.manager addr port id buffer) ∷ c.effects;
      } in
      let response = action_response req_id fetch addr port now in
      let (c₂, handled, effects) =
        handler-answer V c₁ src_phy src_addr size req_id status memory payload response there
          (find-emplace req_id req_id response c.manager.action_responses ∙ ground arith) refl refl
          fits refl called set in
      (
        c₁,
        c₂,
        fetch_action_async-known c addr port id action name buffer now known fresh,
        handled,
        effects,
      )
