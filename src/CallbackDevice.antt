-- ===== src/CallbackDevice.antt =====
-- logical_callback_device.h and .cpp: a device whose actions are functions of a client. What a
-- handler does to the client is its own; a handler is what it returns, and for a
-- fetch that may be a fault: it copies memory.
pub mod Laws
pub mod Lookup
use khawasu_pc.Base.{
  ℕ, ◌%◌, length, Option, none, some, List, [], ◌∷◌, ◌++◌, Bytes, get_elem?, ◌==◌, bytes_eq,
  if◌then◌else◌,
}
use khawasu_pc.Base.Outcome.{Outcome, ok, ◌>>=◌, or_fault, out_of_bounds}
use khawasu_pc.Base.Dict.{Dict, assign}
use khawasu_pc.Protocol.{Status, action_not_found, ApiAction}
use khawasu_pc.DeviceInfo.{c_str}

-- `DeviceCallbackApiAction`, with `custom_data` applied. The arguments of a handler are the
-- action's name and type, the data, the sender's address, and for a fetch the request's number.
pub record Callbacks : Type 0 where
  pub handler_get : Bytes → ℕ → Bytes → ℕ × ℕ → ℕ → Outcome Bytes
  pub handler_set : Bytes → ℕ → Bytes → ℕ × ℕ → Status

pub record CallbackDevice : Type 0 where
  pub api_actions : List ApiAction
  pub api_callbacks : Dict Bytes Callbacks

-- A device as it is constructed.
abbrev pub callback_device : CallbackDevice
callback_device = record { api_actions = []; api_callbacks = [] }

unfoldable pub add_action : ApiAction → Callbacks → CallbackDevice → CallbackDevice
add_action action callbacks d = record {
  api_actions = d.api_actions ++ action ∷ [];
  api_callbacks = assign (c_str action.name) callbacks d.api_callbacks;
}

-- The array, and the number of its elements as a `ubyte`.
unfoldable pub get_api_actions : CallbackDevice → List ApiAction × ℕ
get_api_actions d = (d.api_actions, length d.api_actions % 256)

-- The loop over the callbacks, up to the one that is named as `api_actions[action_id]`. The vector
-- is read in the loop only: without callbacks no index is out of bounds.
unfoldable pub find_callbacks :
    Option ApiAction → Dict Bytes Callbacks → Outcome (Option (Bytes × ApiAction × Callbacks))
find_callbacks indexed [] = ok none
find_callbacks indexed ((action_name, callbacks) ∷ rest) =
    let later = find_callbacks indexed rest in
    do
      action ← or_fault indexed out_of_bounds
      if c_str action.name == c_str action_name
          then ok (some (action_name, action, callbacks))
          else later

-- What is sent to the sender's address, if the action has callbacks: an answer with the request's
-- number and what the handler returns.
unfoldable pub on_action_get :
    CallbackDevice → ℕ → Bytes → ℕ × ℕ → ℕ → Outcome (Option ((ℕ × ℕ) × ℕ × Bytes))
unfolding find_callbacks
on_action_get d action_id buffer addr request_id = do
  found ← find_callbacks (get_elem? d.api_actions action_id) d.api_callbacks
  elim found [
    | none ↦ ok none
    | some (name, action, callbacks) ↦ do
      bytes ← callbacks.handler_get name action.action_type buffer addr request_id
      ok (some (addr, request_id, bytes))
  ]

unfoldable pub on_action_set : CallbackDevice → ℕ → Bytes → ℕ × ℕ → Outcome Status
unfolding find_callbacks
on_action_set d action_id buffer addr = do
  found ← find_callbacks (get_elem? d.api_actions action_id) d.api_callbacks
  elim found [
    | none ↦ ok action_not_found
    | some (name, action, callbacks) ↦
        ok (callbacks.handler_set name action.action_type buffer addr)
  ]
