-- ===== src/Tests/CallbackDevice.antt =====
-- A device with the actions "on" and "off", "on" added twice with different handlers.
use khawasu_pc.Base.{◌≡◌, refl, some, none, [], ◌∷◌, bytes_eq, ◌+◌, arith}
use khawasu_pc.Base.Outcome.{ok}
use khawasu_pc.Protocol.{ApiAction, success, arguments_error}
use khawasu_pc.DeviceInfo.{c_str}
use khawasu_pc.CallbackDevice.{Callbacks, callback_device, on_action_get, on_action_set}
use khawasu_pc.CallbackDevice.Lookup.{
  get_action_id, all_named, c_string, first_index, get_action_id_lem,
}
use khawasu_pc.CallbackDevice.Laws.{Added, add_all, last_named, on_action_set-add_all}

abbrev on_action : ApiAction
on_action = record { name = 111 ∷ 110 ∷ []; action_type = 1 }

abbrev off_action : ApiAction
off_action = record { name = 111 ∷ 102 ∷ 102 ∷ []; action_type = 2 }

abbrev refusing : Callbacks
refusing = record {
  handler_get = λ name type buffer addr request_id. ok [];
  handler_set = λ name type buffer addr. arguments_error;
}

abbrev accepting : Callbacks
accepting = record {
  handler_get = λ name type buffer addr request_id. ok (request_id ∷ buffer);
  handler_set = λ name type buffer addr. success;
}

abbrev added : Added
added = (on_action, refusing) ∷ (off_action, refusing) ∷ (on_action, accepting) ∷ []

last_named-on : last_named (c_str on_action.name) added none ≡ some accepting
unfolding last_named
last_named-on = rw ((bytes_eq.beq_iff (c_str on_action.name) (c_str on_action.name)).1 refl) refl

on_action_set-add_all_example :
    (on_action_set (add_all added callback_device) 0 (1 ∷ []) (7, 20)
      ≡ ok (accepting.handler_set (c_str on_action.name) 1 (1 ∷ []) (7, 20)))
    × (on_action_get (add_all added callback_device) 0 (1 ∷ []) (7, 20) 5
        ≡ ok (some ((7, 20), 5, 5 ∷ 1 ∷ [])))
on_action_set-add_all_example =
    on_action_set-add_all added 0 on_action refusing accepting (1 ∷ []) (7, 20) 5 refl last_named-on

get_action_id_lem_example :
    get_action_id
      (all_named ((111 ∷ 110 ∷ []) ∷ (111 ∷ 102 ∷ 102 ∷ []) ∷ []))
      (c_string (111 ∷ 102 ∷ 102 ∷ []))
      (3 + 1)
    ≡ ok (first_index 0 ((111 ∷ 110 ∷ []) ∷ (111 ∷ 102 ∷ 102 ∷ []) ∷ []) (111 ∷ 102 ∷ 102 ∷ []))
get_action_id_lem_example =
    get_action_id_lem ((111 ∷ 110 ∷ []) ∷ (111 ∷ 102 ∷ 102 ∷ []) ∷ []) (111 ∷ 102 ∷ 102 ∷ [])
      (omega arith)
