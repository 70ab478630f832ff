-- ===== src/Manager/Fetch.antt =====
-- `fetch_action` and `fetch_action_async`, by number and by name, and the loop that waits.
pub mod Returns
pub mod Answers
pub mod Unanswered
use khawasu_pc.Base.{
  ℕ, Bool, true, false, ◌&&◌, Option, none, some, List, [], ◌∷◌, Bytes, nat_eq, if◌then◌else◌,
}
use khawasu_pc.Base.Outcome.{Outcome, ok, pending, ◌>>=◌}
use khawasu_pc.Base.Dict.{emplace}
use khawasu_pc.Protocol.{Proto, Outgoing, Fields, action_fetch}
use khawasu_pc.DeviceInfo.{ActionResponse, fetch, action_response}
use khawasu_pc.Manager.State.{Manager, sent, emit, call_action, lookup_action, next_request}
use khawasu_pc.Manager.Execute.{Round, in_time, poll, receive_all, to_ushort}

unfoldable pub fetch_action_async : Manager → ℕ → ℕ → ℕ → Bytes → (now : ℕ) → ℕ × Manager
unfolding next_request action_response
fetch_action_async m addr port action_id buffer now =
    let (req_id, m₁) = next_request m in
    let response = action_response req_id fetch addr port now in
    let m₂ = record m₁ { action_responses = emplace req_id response m₁.action_responses } in
    let packet : Outgoing Fields = record {
      dest_phy = addr;
      dest_log = port;
      src_port = m.self_port;
      fields = action_fetch req_id action_id buffer;
    } in
    (req_id, emit (sent packet) m₂)

-- The constant `ERROR`.
abbrev pub error : ℕ
error = 0

unfoldable pub fetch_action_async_by_name :
    Manager → ℕ → ℕ → Bytes → Bytes → (now : ℕ) → ℕ × Manager
unfolding fetch_action_async
fetch_action_async_by_name m addr port name buffer now = elim (lookup_action m addr port name) [
  | none ↦ (error, m)
  | some (id, action) ↦ fetch_action_async m addr port (to_ushort id) buffer now
]

abbrev pub is_null : Option ActionResponse → Bool
is_null none = true
is_null (some r) = false

module _ (P : Proto) where
  -- The loop of `fetch_action`, with its variable `result`.
  unfoldable pub fetch_wait :
      ℕ
      → ℕ
      → List Round
      → Option ActionResponse
      → Manager
      → Outcome (Option ActionResponse × Manager)
  unfolding in_time poll
  fetch_wait req_id start_time [] result m = if is_null result then pending else ok (result, m)
  fetch_wait req_id start_time (r ∷ rs) result m =
      let turn : Outcome (Option ActionResponse × Manager) =
        let (answer, m₁) = poll m req_id r.taken_at in
        let result' : Option ActionResponse = elim answer [ none ↦ result | some a ↦ some a ] in
        do m₂ ← receive_all P m₁ r.during; fetch_wait req_id start_time rs result' m₂
      in if is_null result && in_time r.clock start_time then turn else ok (result, m)

  unfoldable pub fetch_action :
      Manager
      → ℕ
      → ℕ
      → ℕ
      → Bytes
      → (now start_time : ℕ) → List Round
      → Outcome (Option ActionResponse × Manager)
  fetch_action m addr port action_id buffer now start_time rounds =
      let (req_id, m₁) = fetch_action_async m addr port action_id buffer now in
      do
        (result, m₂) ← fetch_wait req_id start_time rounds none m₁
        ok (result, call_action result m₂)

  unfoldable pub fetch_action_by_name :
      Manager
      → ℕ
      → ℕ
      → Bytes
      → Bytes
      → (now start_time : ℕ) → List Round
      → Outcome (Option ActionResponse × Manager)
  unfolding fetch_action
  fetch_action_by_name m addr port name buffer now start_time rounds =
      elim (lookup_action m addr port name) [
        | none ↦ ok (none, m)
        | some (id, action) ↦ fetch_action m addr port (to_ushort id) buffer now start_time rounds
      ]
