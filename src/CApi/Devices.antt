-- ===== src/CApi/Devices.antt =====
-- The devices of `create_device`: what a request to one of them reaches.
use khawasu_pc.Base.{
  true, ℕ, zero, suc, ◌≡◌, refl, ap, Option, none, some, List, [], ◌∷◌, Bytes, get_elem?, bytes_eq,
  ◌==◌, nat_eq, ◌⊎◌, inl, inr, Bool-cases, ◌∙◌, leb, length, take, if◌then◌else◌, Option-cases,
  arith,
}
use khawasu_pc.Base.Outcome.{ok, fault, out_of_bounds}
use khawasu_pc.Protocol.{Status}
use khawasu_pc.Protocol
use khawasu_pc.DeviceInfo.{bytes_at, c_str}
use khawasu_pc.CallbackDevice.{
  Callbacks, CallbackDevice, callback_device, on_action_get, on_action_set,
}
use khawasu_pc.CallbackDevice.Laws.{Added, add_all, last_named, on_action_set-add_all}
use khawasu_pc.CApi.{Action, Context}
use khawasu_pc.CApi.Functions.{
  action_handler_get, action_handler_set, handlers, add_actions, created,
}

-- All actions of such a device have the same two handlers.
abbrev added : Callbacks → List Action → Added
added callbacks [] = []
added callbacks ((name, type) ∷ actions) =
    (record { name = name; action_type = type }, callbacks) ∷ added callbacks actions

add_actions-add_all :
    (callbacks : Callbacks) (actions : List Action) (d : CallbackDevice)
    → add_actions callbacks actions d ≡ add_all (added callbacks actions) d
unfolding add_actions add_all
add_actions-add_all callbacks [] d = refl
add_actions-add_all callbacks ((name, type) ∷ actions) d = add_actions-add_all callbacks actions _

get_elem?-added :
    (callbacks : Callbacks) (actions : List Action) (i : ℕ) (name : Bytes) (type : ℕ)
    → get_elem? actions i ≡ some (name, type)
    → get_elem? (added callbacks actions) i
      ≡ some (record { name = name; action_type = type }, callbacks)
get_elem?-added callbacks [] i name type e = cc
get_elem?-added callbacks ((n, t) ∷ actions) zero name type e = cc
get_elem?-added callbacks ((n, t) ∷ actions) (suc i) name type e =
    get_elem?-added callbacks actions i name type e

last_named-some :
    (callbacks : Callbacks) (actions : List Action) (name : Bytes)
    → last_named name (added callbacks actions) (some callbacks) ≡ some callbacks
unfolding last_named
last_named-some callbacks [] name = refl
last_named-some callbacks ((n, t) ∷ actions) name = elim (Bool-cases (name == c_str n)) [
  | inl same ↦ rw (same, last_named) (last_named-some callbacks actions name)
  | inr other ↦ rw (other, last_named) (last_named-some callbacks actions name)
]

last_named-added :
    (callbacks : Callbacks) (actions : List Action) (i : ℕ) (name : Bytes) (type : ℕ)
    (old : Option Callbacks)
    → get_elem? actions i ≡ some (name, type)
    → (old ≡ none) ⊎ (old ≡ some callbacks)
    → last_named (c_str name) (added callbacks actions) old ≡ some callbacks
unfolding last_named
last_named-added callbacks [] i name type old e o = cc
last_named-added callbacks ((n, t) ∷ actions) zero name type old e o =
    let same : (c_str name == c_str n) ≡ true =
      (bytes_eq.beq_iff (c_str name) (c_str n)).1 (ap c_str (cc)) in
    rw (same, last_named) (last_named-some callbacks actions (c_str name))
last_named-added callbacks ((n, t) ∷ actions) (suc i) name type old e o =
    elim (Bool-cases (c_str name == c_str n)) [
      | inl same ↦ rw (same, last_named) (last_named-some callbacks actions (c_str name))
      | inr other ↦ rw (other, last_named) (last_named-added callbacks actions i name type old e o)
    ]

-- The action at a number of a device that the C library created, reached by a request: to execute
-- it, the client's function for executes, as it is set at the time, is called with the sender's
-- address, the device's port, the action's name, the type at that number and the data, and its
-- result is the status; without a function the status is UNKNOWN. To fetch it, the client's function
-- for fetches is called with the same, and as much of the memory that it gives as it says is sent to
-- the sender under the request's number, which is a read out of bounds where the memory is shorter;
-- without a function nothing but the number is sent.
pub created-on_action :
    (cast : ℕ → Status) (c : Context) (log_addr : ℕ) (actions : List Action) (i : ℕ) (name : Bytes)
    (type : ℕ) (buffer : Bytes) (addr : ℕ × ℕ) (request_id : ℕ)
    → get_elem? actions i ≡ some (name, type)
    → let d = created cast c log_addr actions in
      (on_action_set d i buffer addr
        ≡ ok (elim c.action_execute_callback [
          | none ↦ Protocol.Status.unknown
          | some f ↦ cast (f addr log_addr (c_str name) type buffer)
        ]))
      × (on_action_get d i buffer addr request_id ≡ elim c.action_fetch_callback [
        | none ↦ ok (some (addr, request_id, []))
        | some f ↦
            let (memory, out_size) = f addr log_addr (c_str name) type buffer in
            if leb out_size (length memory)
            then ok (some (addr, request_id, take out_size memory))
            else fault out_of_bounds
      ])
unfolding created action_handler_get action_handler_set bytes_at
created-on_action cast c log_addr actions i name type buffer addr request_id e =
    let cb = handlers cast c log_addr in
    let (executed, fetched) =
      on_action_set-add_all (added cb actions) i (record { name = name; action_type = type }) cb cb
        buffer addr request_id (get_elem?-added cb actions i name type e)
        (last_named-added cb actions i name type none e (inl refl)) in
    rw (add_actions-add_all cb actions callback_device) (
      executed,
      fetched ∙ elim (Option-cases c.action_fetch_callback) [
        | inl e ↦ rw e refl
        | inr (f, e) ↦ rw e (ground arith)
      ],
    )
