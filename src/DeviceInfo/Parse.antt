-- ===== src/DeviceInfo/Parse.antt =====
-- The constructor of `LogDeviceInfo` (device_info.cpp) on announcements.
use khawasu_pc.Base.{ℕ, zero, suc, ◌≡◌, refl, Bytes, some, nat_eq}
use khawasu_pc.Base.Outcome.{ok}
use khawasu_pc.Base.Dict.{Dict}
use khawasu_pc.Protocol.{ApiAction, Proto}
use khawasu_pc.DeviceInfo.{parse_actions}

-- Where an action with an empty name stands, the loop over the actions goes no further in the
-- packet: however many actions are announced from there on, none of them is registered.
pub parse_actions-stuck :
    (P : Proto) (n i : ℕ) (action_ptr : Bytes) (actions : Dict ℕ ApiAction)
    → P.name_length action_ptr ≡ some 0
    → parse_actions P n i action_ptr actions ≡ ok actions
unfolding parse_actions
parse_actions-stuck P zero i action_ptr actions h = refl
parse_actions-stuck P (suc n) i action_ptr actions h =
    rw h (parse_actions-stuck P n (suc i) action_ptr actions h)
