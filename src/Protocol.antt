-- ===== src/Protocol.antt =====
-- What the code uses of khawasu_core and fresh, which are not part of the repository: the statuses
-- it names, the parts of a logical packet it reads, the parts of a packet it fills in. Memory
-- layouts are a parameter, `Proto`.
use khawasu_pc.Base.{ℕ, Bool, Option, Bytes}

-- `ActionExecuteStatus`: the enumerators that the code names, and the rest by their number.
pub data Status : Type 0 where
  success arguments_error action_not_found timeout unknown : Status
  other : ℕ → Status

-- `DeviceApiAction`, as far as the code reads it.
pub record ApiAction : Type 0 where
  pub name : Bytes
  pub action_type : ℕ

-- `HelloWorldPacket`; `memory` is what lies in the receive buffer from `name` on.
pub record Hello : Type 0 where
  pub device_class : ℕ
  pub name_len : ℕ
  pub special_attrib_count : ℕ
  pub action_count : ℕ
  pub memory : Bytes

-- The packet types that `handle_packet` tests for, with the fields that it reads. A payload is the
-- receive buffer from the payload's first byte on.
pub data Body : Type 0 where
  hello_world hello_world_response : Hello → Body
  action_execute_result : (request_id : ℕ) → Status → Body
  action_response : (request_id : ℕ) → Status → Bytes → Body
  subscription_done : (id : ℕ) → Body
  subscription_callback : (id : ℕ) → Bytes → Body
  other_type : ℕ → Body

pub record LogicalPacket : Type 0 where
  pub src_addr : ℕ
  pub body : Body

-- A packet handed to `finish_ptr`: its destination, the sender's port, and the fields stored in it.
pub record Outgoing (Fields : Type 0) : Type 0 where
  pub dest_phy : ℕ
  pub dest_log : ℕ
  pub src_port : ℕ
  pub fields : Fields

pub data Fields : Type 0 where
  action_execute : (request_id action_id : ℕ) (require_status : Bool) → Bytes → Fields
  action_fetch : (request_id action_id : ℕ) → Bytes → Fields
  subscription_start : (id action_id duration period : ℕ) → Fields

-- Memory layouts. A pointer is the memory from it on. `key_len`, `value_len`, `name_length` and
-- `action_type` read a field behind such a pointer, and fail at the end of the buffer; `key`,
-- `value` and `action_name` are the offsets of arrays. The sizes are those of `LOG_PACKET_SIZE`.
pub record Proto : Type 0 where
  pub key_len : Bytes → Option ℕ
  pub value_len : Bytes → Option ℕ
  pub key : ℕ
  pub value : ℕ
  pub name_length : Bytes → Option ℕ
  pub action_type : Bytes → Option ℕ
  pub action_name : ℕ
  pub action_response_size : ℕ
  pub subscription_callback_size : ℕ
