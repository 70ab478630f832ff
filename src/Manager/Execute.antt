-- ===== src/Manager/Execute.antt =====
-- `execute_action` and `execute_action_async`, by number and by name, and the loop that waits.
pub mod Clock
pub mod Returns
pub mod Answers
use khawasu_pc.Base.{
  ℕ, ◌+◌, ◌-◌, ◌%◌, ◌^◌, Bool, true, false, ◌&&◌, Option, none, some, List, [], ◌∷◌, Bytes, ltb,
  nat_eq, if◌then◌else◌,
}
use khawasu_pc.Base.Outcome.{Outcome, ok, pending, ◌>>=◌}
use khawasu_pc.Base.Dict.{find, emplace, erase}
use khawasu_pc.Protocol.{
  Status, timeout, action_not_found, LogicalPacket, Outgoing, Fields, Proto, action_execute,
}
use khawasu_pc.Protocol
use khawasu_pc.DeviceInfo.{ActionResponse, execute, action_response}
use khawasu_pc.Manager.State.{Manager, sent, emit, call_action, lookup_action, next_request}
use khawasu_pc.Manager.Receive.{handle_packet}

-- `int` to `ushort`.
abbrev pub to_ushort : ℕ → ℕ
to_ushort n = n % 65536

-- `now` is what `Os::get_microseconds` says when the request is recorded.
unfoldable pub execute_action_async : Manager → ℕ → ℕ → ℕ → Bytes → Bool → (now : ℕ) → ℕ × Manager
unfolding next_request action_response
execute_action_async m addr port action_id buffer require_status now =
    let (req_id, m₁) = next_request m in
    let response = action_response req_id execute addr port now in
    let m₂ =
      if require_status
      then record m₁ { action_responses = emplace req_id response m₁.action_responses }
      else m₁ in
    let packet : Outgoing Fields = record {
      dest_phy = addr;
      dest_log = port;
      src_port = m.self_port;
      fields = action_execute req_id action_id require_status buffer;
    } in
    (req_id, emit (sent packet) m₂)

unfoldable pub execute_action_async_by_name :
    Manager → ℕ → ℕ → Bytes → Bytes → Bool → (now : ℕ) → ℕ × Manager
unfolding execute_action_async
execute_action_async_by_name m addr port name buffer require_status now =
    elim (lookup_action m addr port name) [
      | none ↦
          let (req_id, m') = next_request m in
          let response = record (action_response req_id execute addr port now) {
            is_waiting = false;
            status = some Protocol.Status.unknown;
          } in
          (req_id, call_action (some response) m')
      | some (id, action) ↦
          execute_action_async m addr port (to_ushort id) buffer require_status now
    ]

-- One turn of a waiting loop, as the outside sees it: what the clock says at the loop's test and
-- when an answer is taken, and the packets that another thread handles during the yield.
pub record Incoming : Type 0 where
  pub src_phy : ℕ
  pub log : LogicalPacket
  pub size : ℕ

pub record Round : Type 0 where
  pub clock : ℕ
  pub taken_at : ℕ
  pub during : List Incoming

-- `DEV_MAN_RESPONSE_TIMEOUT`
abbrev pub response_timeout : ℕ
response_timeout = 5_000_000

-- `Os::get_microseconds() - start_time < DEV_MAN_RESPONSE_TIMEOUT`, on `u64`.
unfoldable pub in_time : ℕ → ℕ → Bool
in_time clock start_time = ltb ((clock + 2 ^ 64 - start_time) % 2 ^ 64) response_timeout

-- The body of either loop: a request that is answered leaves the table.
unfoldable pub poll : Manager → ℕ → ℕ → Option ActionResponse × Manager
poll m req_id now = elim (find req_id m.action_responses) [
  | none ↦ (none, m)
  | some r ↦ if r.is_waiting then (none, m) else (
    some (record r { time_received = now }),
    record m { action_responses = erase req_id m.action_responses },
  )
]

abbrev pub is_timeout : Option Status → Bool
is_timeout (some timeout) = true
is_timeout _ = false

module _ (P : Proto) where
  unfoldable pub receive_all : Manager → List Incoming → Outcome Manager
  receive_all m [] = ok m
  receive_all m (p ∷ ps) = do m' ← handle_packet P m p.src_phy p.log p.size; receive_all m' ps

  -- The loop of `execute_action`, with its variables `status` and `result`. Without a round left
  -- the loop's first test still ends it.
  unfoldable pub execute_wait :
      ℕ
      → ℕ
      → List Round
      → Option Status
      → Option ActionResponse
      → Manager
      → Outcome (Option Status × Option ActionResponse × Manager)
  unfolding in_time poll
  execute_wait req_id start_time [] status result m =
      if is_timeout status then pending else ok (status, result, m)
  execute_wait req_id start_time (r ∷ rs) status result m =
      let turn : Outcome (Option Status × Option ActionResponse × Manager) =
        let (answer, m₁) = poll m req_id r.taken_at in
        let status' : Option Status = elim answer [ none ↦ status | some a ↦ a.status ] in
        let result' : Option ActionResponse = elim answer [ none ↦ result | some a ↦ some a ] in
        do m₂ ← receive_all m₁ r.during; execute_wait req_id start_time rs status' result' m₂
      in if is_timeout status && in_time r.clock start_time then turn else ok (status, result, m)

  -- `now` and `start_time` are the clock when the request is recorded and before the loop.
  unfoldable pub execute_action :
      Manager
      → ℕ
      → ℕ
      → ℕ
      → Bytes
      → Bool
      → (now start_time : ℕ) → List Round
      → Outcome (Option Status × Manager)
  execute_action m addr port action_id buffer require_status now start_time rounds =
      let (req_id, m₁) = execute_action_async m addr port action_id buffer require_status now in
      if require_status
      then (do
        (status, result, m₂) ← execute_wait req_id start_time rounds (some timeout) none m₁
        ok (status, call_action result m₂))
      else ok (some Protocol.Status.unknown, m₁)

  unfoldable pub execute_action_by_name :
      Manager
      → ℕ
      → ℕ
      → Bytes
      → Bytes
      → Bool
      → (now start_time : ℕ) → List Round
      → Outcome (Option Status × Manager)
  unfolding execute_action
  execute_action_by_name m addr port name buffer require_status now start_time rounds =
      elim (lookup_action m addr port name) [
        | none ↦ ok (some action_not_found, m)
        | some (id, action) ↦
            execute_action m addr port (to_ushort id) buffer require_status now start_time rounds
      ]
