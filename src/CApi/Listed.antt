-- ===== src/CApi/Listed.antt =====
-- `get_api_actions` of logical_callback_device.h: what a device tells the library of its actions.
use khawasu_pc.Base.{
  ℕ, suc, ◌%◌, ◌<◌, ◌≡◌, ◌↔◌, refl, sym, ◌∙◌, ap, List, [], ◌∷◌, ◌++◌, length, map, arith,
}
use mathlib.Core.List.{append_assoc, append-nil}
use khawasu_pc.Protocol.{Status, ApiAction}
use khawasu_pc.CallbackDevice.{
  Callbacks, CallbackDevice, callback_device, add_action, get_api_actions,
}
use khawasu_pc.CApi.{Action, Context}
use khawasu_pc.CApi.Functions.{handlers, add_actions, created}

abbrev pub api_action : Action → ApiAction
api_action (name, type) = record { name = name; action_type = type }

api_actions-add_actions :
    (callbacks : Callbacks) (actions : List Action) (d : CallbackDevice)
    → (add_actions callbacks actions d).api_actions ≡ d.api_actions ++ map api_action actions
unfolding add_actions add_action
api_actions-add_actions callbacks [] d = sym (append-nil d.api_actions)
api_actions-add_actions callbacks ((name, type) ∷ actions) d =
    api_actions-add_actions callbacks actions _
    ∙ append_assoc d.api_actions (api_action (name, type) ∷ []) (map api_action actions)

length-map_action : (actions : List Action) → length (map api_action actions) ≡ length actions
length-map_action [] = refl
length-map_action (a ∷ actions) = ap suc (length-map_action actions)

-- A device that the C library creates tells the library its actions in the order in which they were
-- given, with their number modulo 256, which is their number exactly if there are fewer than 256.
pub get_api_actions-created :
    (cast : ℕ → Status) (c : Context) (log_addr : ℕ) (actions : List Action)
    → let (api_actions, count) = get_api_actions (created cast c log_addr actions) in
      (api_actions ≡ map api_action actions)
      × (count ≡ length actions % 256)
      × ((count ≡ length actions) ↔ (length actions < 256))
unfolding get_api_actions created
get_api_actions-created cast c log_addr actions =
    let all = api_actions-add_actions (handlers cast c log_addr) actions callback_device in
    let n = length-map_action actions in
    let counted : length
            (add_actions (handlers cast c log_addr) actions callback_device).api_actions
          % 256
        ≡ length actions % 256 =
      ap (λ (l : List ApiAction). length l % 256) all ∙ ap (λ (k : ℕ). k % 256) n in
    (all, counted, ((λ e. omega arith), (λ h. omega arith)))
