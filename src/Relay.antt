-- ===== src/Relay.antt =====
-- main_client.cpp: the device `DeviceRelay` and the handler of packets of the client program, which
-- its `main` does not use: it returns at once.
pub mod Laws
pub mod Updates
use Prim.Native.String.{String}
use khawasu_pc.Base.Outcome.{Outcome, ok, fault, out_of_bounds, ◌>>=◌}
use khawasu_pc.Base.{
  ℕ, zero, suc, drop, Bool, true, false, Option, none, some, [], ◌∷◌, Bytes, ltb, ◌==◌, nat_eq,
  if◌then◌else◌,
}
use khawasu_pc.Protocol.{
  Status, success, arguments_error, action_not_found, Body, LogicalPacket, action_response,
  subscription_callback,
}
use khawasu_pc.Overlay.{OverlayFormat, overlay_log}

-- A packet that the device hands to its manager: the receiver, and what the receiver reads of it.
pub record Reply : Type 0 where
  pub dest : ℕ × ℕ
  pub log : LogicalPacket

-- What lies in a packet that is allocated and not filled in, as far as a receiver reads it.
pub record Memory : Type 0 where
  pub status : Status

-- Where fields lie in the memory of a logical packet: the offsets of the payloads of the two types,
-- and a subscription's number as a receiver reads it.
pub record PacketLayout : Type 0 where
  pub response_payload : ℕ
  pub callback_payload : ℕ
  pub callback_id : Bytes → ℕ

-- A byte is stored; outside the packet that is a fault.
abbrev pub store : Bytes → ℕ → ℕ → Outcome Bytes
store [] i b = fault out_of_bounds
store (x ∷ xs) zero b = ok (b ∷ xs)
store (x ∷ xs) (suc i) b = do rest ← store xs i b; ok (x ∷ rest)

-- `get_action_id` is khawasu_core's, of a device with the one action "power_state".
module _ (get_action_id : String → ℕ) where
  unfoldable pub on_action_set : (action_id size : ℕ) → Status
  on_action_set action_id size =
      if action_id == get_action_id "power_state"
      then (if ltb size 1 then arguments_error else success)
      else action_not_found

  -- The packet has one byte of payload. Its status is not stored.
  unfoldable pub on_action_get : Memory → (self_port action_id : ℕ) → ℕ × ℕ → ℕ → Option Reply
  on_action_get fresh self_port action_id addr request_id =
      if action_id == get_action_id "power_state"
      then some (record {
        dest = addr;
        log = record {
          src_addr = self_port;
          body = action_response request_id fresh.status (1 ∷ []);
        };
      })
      else none

  -- The packet of type SUBSCRIPTION_CALLBACK that is allocated, in `fresh`, is filled in through the
  -- fields of an ACTION_RESPONSE. Neither `sub_id` nor `format` is read.
  unfoldable pub on_subscription_timer_update :
      PacketLayout
      → (fresh : Bytes) → (self_port : ℕ) → ℕ × ℕ
      → (sub_id action_id : ℕ) → Outcome (Option Reply)
  on_subscription_timer_update L fresh self_port addr sub_id action_id =
      let update : Outcome (Option Reply) = (do
        memory ← store fresh L.response_payload 1
        ok (
            some (record {
              dest = addr;
              log = record {
                src_addr = self_port;
                body =
                    subscription_callback (L.callback_id memory) (drop L.callback_payload memory);
              };
            }))) in
      if action_id == get_action_id "power_state" then update else ok none

unfoldable pub mesh_packet_handler : OverlayFormat → ℕ → Bytes → ℕ → Option (LogicalPacket × ℕ × ℕ)
mesh_packet_handler V src_phy memory size = elim (overlay_log V memory size) [
  | none ↦ none
  | some log ↦ some (log, size, src_phy)
]

-- All of it is commented out.
unfoldable pub main : ℕ
main = 0
