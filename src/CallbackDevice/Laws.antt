-- ===== src/CallbackDevice/Laws.antt =====
-- Which handler a device calls for an action.
use mathlib.Core.List.{append_assoc, append-nil}
use khawasu_pc.Base.{
  ℕ, zero, suc, ◌≡◌, refl, ◌∙◌, ap, sym, Option, none, some, List, [], ◌∷◌, ◌++◌, Bytes, get_elem?,
  ◌==◌, nat_eq, bytes_eq, if◌then◌else◌, arith, Bool-cases, inl, inr,
}
use khawasu_pc.Base.Outcome.{ok, ◌>>=◌}
use khawasu_pc.Base.Dict.{Dict, All, find, find-assign, All-assign}
use khawasu_pc.Protocol.{ApiAction}
use khawasu_pc.DeviceInfo.{c_str}
use khawasu_pc.CallbackDevice.{
  Callbacks, CallbackDevice, callback_device, add_action, find_callbacks, on_action_get,
  on_action_set,
}

abbrev pub Added : Type 0
Added = List (ApiAction × Callbacks)

-- A device after some actions have been added to it, the first one first.
unfoldable pub add_all : Added → CallbackDevice → CallbackDevice
unfolding add_action
add_all [] d = d
add_all ((action, callbacks) ∷ added) d = add_all added (add_action action callbacks d)

-- The callbacks that were added last under a name.
unfoldable pub last_named : Bytes → Added → Option Callbacks → Option Callbacks
last_named name [] old = old
last_named name ((action, callbacks) ∷ added) old =
    last_named name added (if name == c_str action.name then some callbacks else old)

abbrev IsName : Bytes → Callbacks → Type 0
IsName k callbacks = c_str k ≡ k

c_str_idem : (s : Bytes) → c_str (c_str s) ≡ c_str s
unfolding c_str
c_str_idem [] = refl
c_str_idem (b ∷ bs) = ground (arith, c_str_idem bs)

api_callbacks-add_all :
    (added : Added) (d : CallbackDevice) (name : Bytes)
    → find name (add_all added d).api_callbacks ≡ last_named name added (find name d.api_callbacks)
unfolding add_all last_named add_action
api_callbacks-add_all [] d name = refl
api_callbacks-add_all ((action, callbacks) ∷ added) d name =
    api_callbacks-add_all added (add_action action callbacks d) name
    ∙ ap (last_named name added) (find-assign name (c_str action.name) callbacks d.api_callbacks)

All-add_all :
    (added : Added) (d : CallbackDevice)
    → All IsName d.api_callbacks
    → All IsName (add_all added d).api_callbacks
unfolding add_all add_action
All-add_all [] d a = a
All-add_all ((action, callbacks) ∷ added) d a =
    All-add_all added (add_action action callbacks d)
      (All-assign IsName (c_str action.name) callbacks d.api_callbacks (c_str_idem action.name) a)

abbrev actions_of : Added → List ApiAction
actions_of [] = []
actions_of ((action, callbacks) ∷ added) = action ∷ actions_of added

api_actions-add_all :
    (added : Added) (d : CallbackDevice)
    → (add_all added d).api_actions ≡ d.api_actions ++ actions_of added
unfolding add_all add_action
api_actions-add_all [] d = sym (append-nil d.api_actions)
api_actions-add_all ((action, callbacks) ∷ added) d =
    api_actions-add_all added (add_action action callbacks d)
    ∙ append_assoc d.api_actions (action ∷ []) (actions_of added)

find_callbacks-find :
    (action : ApiAction) (cs : Dict Bytes Callbacks) (callbacks : Callbacks)
    → All IsName cs
    → find (c_str action.name) cs ≡ some callbacks
    → find_callbacks (some action) cs ≡ ok (some (c_str action.name, action, callbacks))
unfolding find_callbacks find
find_callbacks-find action [] callbacks a e = cc
find_callbacks-find action ((k, c) ∷ cs) callbacks a e =
    rw a.0 (elim (Bool-cases (c_str action.name == k)) [
      | inl same ↦ ground (arith, bytes_eq.beq_iff (c_str action.name) k)
      | inr other ↦ ground (arith, find_callbacks-find action cs callbacks a.1)
    ])

get_elem?-actions_of :
    (added : Added) (i : ℕ) (action : ApiAction) (callbacks : Callbacks)
    → get_elem? added i ≡ some (action, callbacks)
    → get_elem? (actions_of added) i ≡ some action
get_elem?-actions_of [] i action callbacks e = cc
get_elem?-actions_of (x ∷ added) zero action callbacks e = cc
get_elem?-actions_of (x ∷ added) (suc i) action callbacks e =
    get_elem?-actions_of added i action callbacks e

find_callbacks-add_all :
    (added : Added) (i : ℕ) (action : ApiAction) (own callbacks : Callbacks)
    → get_elem? added i ≡ some (action, own)
    → last_named (c_str action.name) added none ≡ some callbacks
    → let d = add_all added callback_device in
      find_callbacks (get_elem? d.api_actions i) d.api_callbacks
      ≡ ok (some (c_str action.name, action, callbacks))
unfolding find
find_callbacks-add_all added i action own callbacks there named =
    let indexed =
      ap (λ as'. get_elem? as' i) (api_actions-add_all added callback_device)
      ∙ get_elem?-actions_of added i action own there in
    ap (λ x. find_callbacks x (add_all added callback_device).api_callbacks) indexed
    ∙ find_callbacks-find action _ callbacks (All-add_all added callback_device tt)
        (api_callbacks-add_all added callback_device (c_str action.name) ∙ named)

-- To a device that was built by adding actions, a request to execute the action at a number calls
-- the handler that was added last under that action's name, with the name and with the type of the
-- action at that number, and returns what it returns; a fetch does so too, and answers the sender
-- under the request's number.
pub on_action_set-add_all :
    (added : Added) (i : ℕ) (action : ApiAction) (own callbacks : Callbacks) (buffer : Bytes)
    (addr : ℕ × ℕ) (request_id : ℕ)
    → get_elem? added i ≡ some (action, own)
    → last_named (c_str action.name) added none ≡ some callbacks
    → let d = add_all added callback_device in
      (on_action_set d i buffer addr
        ≡ ok (callbacks.handler_set (c_str action.name) action.action_type buffer addr))
      × (on_action_get d i buffer addr request_id ≡ (do
        bytes ← callbacks.handler_get (c_str action.name) action.action_type buffer addr request_id
        ok (some (addr, request_id, bytes))))
unfolding on_action_set on_action_get
on_action_set-add_all added i action own callbacks buffer addr request_id there named =
    let found = find_callbacks-add_all added i action own callbacks there named in
    (rw found refl, rw found refl)
