-- ===== src/CApi/Conversation.antt =====
-- Two programs with the C library: the client of one fetches from a device that the other created.
use khawasu_pc.Base.{
  ℕ, zero, suc, ◌+◌, ◌-◌, ◌<◌, ◌≤◌, ◌≡◌, refl, ◌∙◌, ap, true, none, some, List, [], ◌∷◌, Bytes,
  get_elem?, length, take, nat_eq, arith,
}
use khawasu_pc.Base.Outcome.{ok}
use khawasu_pc.Base.Dict.{find}
use khawasu_pc.Protocol.{Status, Proto, ApiAction}
use khawasu_pc.DeviceInfo.{c_str}
use khawasu_pc.Manager.State.{lookup_action}
use khawasu_pc.Manager.Execute.{to_ushort}
use khawasu_pc.Manager.Fetch.Answers.{answer_packet}
use khawasu_pc.CallbackDevice.{on_action_get}
use khawasu_pc.Overlay.{OverlayFormat, overlay_log}
use khawasu_pc.CApi.{Action, Context, FetchFunction, dispatched, fetch_result, transmitted}
use khawasu_pc.CApi.Functions.{created, fetch_action_async, mesh_packet_handler}
use khawasu_pc.CApi.Ready.{IsReady}
use khawasu_pc.CApi.Answers.{request_packet, fetch_action_async-answered}
use khawasu_pc.CApi.Devices.{created-on_action}

take-take {ℓ} : {A : Type ℓ} (n : ℕ) (xs : List A) → take n (take n xs) ≡ take n xs
take-take zero xs = refl
take-take (suc n) [] = refl
take-take (suc n) (x ∷ xs) = ap (◌∷◌ x) (take-take n xs)

length-take_le {ℓ} : {A : Type ℓ} (n : ℕ) (xs : List A) → n ≤ length xs → length (take n xs) ≡ n
length-take_le zero xs h = refl
length-take_le (suc n) [] h = absurd (omega arith)
length-take_le (suc n) (x ∷ xs) h = ap suc (length-take_le n xs (omega arith))

module _ (P : Proto) (V : OverlayFormat) where
  -- A client of the C library, at a context between calls, has set its function for fetched results
  -- and asks by name for an action of a known device, under a number that is free; elsewhere another
  -- client of the C library has created this device, with an action at the number that is asked for.
  -- The call returns its number and sends one packet; the device calls its own client's function
  -- with the request's data and answers, under this number, with as much of the memory that the
  -- function gives as it says, all of it being there; and when the answer comes in as a packet with exactly this
  -- payload, the asking client's function is called once, with the number and exactly what the other
  -- client's function gave.
  pub fetch_action_async-created :
      (cast : ℕ → Status) (c served : Context) (g : FetchFunction) (addr port id : ℕ)
      (action : ApiAction) (name buffer : Bytes) (now : ℕ) (actions : List Action)
      (its_name : Bytes) (type : ℕ) (client : ℕ × ℕ) (size : ℕ) (status : Status) (memory : Bytes)
      → let req_id = c.manager.action_responses_counter in
        let (given, out_size) = g client port (c_str its_name) type buffer in
        let fetched = take out_size given in
        let answer = (answer_packet addr port size req_id status fetched).log in
        IsReady c
        → c.action_fetch_result_callback ≡ true
        → served.action_fetch_callback ≡ some g
        → lookup_action c.manager addr port name ≡ some (id, action)
        → find req_id c.manager.action_responses ≡ none
        → get_elem? actions (to_ushort id) ≡ some (its_name, type)
        → out_size ≤ length given
        → overlay_log V memory size ≡ some answer
        → size + 1 ≡ P.action_response_size + out_size
        → size < 65536
        → (c₁ : Context) × (c₂ : Context) × (fetch_action_async c addr port name buffer now
            ≡ ok (req_id, c₁))
          × (on_action_get (created cast served port actions) (to_ushort id) buffer client req_id
              ≡ ok (some (client, req_id, fetched)))
          × (mesh_packet_handler P V c₁ addr memory size ≡ ok c₂)
          × (c₂.effects
              ≡ dispatched answer size addr
                ∷ fetch_result req_id fetched
                ∷ transmitted (request_packet c.manager addr port id buffer)
                ∷ c.effects)
  fetch_action_async-created cast c served g addr port id action name buffer now actions its_name
        type client size status memory ready set serves known free offered enough there whole fits =
      let req_id = c.manager.action_responses_counter in
      let (given, out_size) = g client port (c_str its_name) type buffer in
      let fetched = take out_size given in
      let answer = (answer_packet addr port size req_id status fetched).log in
      let sized : length fetched ≡ out_size = length-take_le out_size given enough in
      let all : size + 1 - P.action_response_size ≡ out_size = omega arith in
      let (c₁, c₂, asked, handled, effects) =
        fetch_action_async-answered P V c addr port id action name buffer now addr port size status
          memory fetched known free ready.delivered ready.wired.tells_answers set there
          (omega arith, fits, omega arith) in
      let (_, answers) =
        created-on_action cast served port actions (to_ushort id) its_name type buffer client req_id
          offered in
      (
        c₁,
        c₂,
        asked,
        answers ∙ rw (serves) (ground arith),
        handled,
        effects
            ∙ ap
                (λ (payload : Bytes).
                  dispatched answer size addr
                  ∷ fetch_result req_id payload
                  ∷ transmitted (request_packet c.manager addr port id buffer)
                  ∷ c.effects)
                (ap (λ n. take n fetched) all ∙ take-take out_size given),
      )
