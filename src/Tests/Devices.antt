-- ===== src/Tests/Devices.antt =====
-- A lamp that announces itself.
use khawasu_pc.Base.{ℕ, zero, suc, ◌≡◌, refl, true, some, [], ◌∷◌, Bytes, nat_eq, bytes_eq, arith}
use khawasu_pc.Base.Outcome.{ok}
use khawasu_pc.Base.Dict.{find}
use khawasu_pc.Protocol.{ApiAction, hello_world}
use khawasu_pc.DeviceInfo.{LogDeviceInfo, log_device_info, c_str}
use khawasu_pc.DeviceInfo.Announce.{
  Announced, AttribsFit, ActionsFit, nth_action, announce, recorded,
}
use khawasu_pc.DeviceInfo.Roundtrip.{log_device_info-roundtrip}
use khawasu_pc.Manager.State.{Manager, phy_device_manager, lookup_action, lookup_log}
use khawasu_pc.Manager.Receive.{handle_packet}
use khawasu_pc.Manager.Receive.Devices.{announced}
use khawasu_pc.Manager.Execute.{execute_action_async_by_name}
use khawasu_pc.Manager.Announced.{Distinct, execute_packet, execute_action_async_by_name-announce}
use khawasu_pc.Tests.Fixtures.{proto, layout}

abbrev lamp : Announced
lamp = record {
  dev_class = 8;
  name = 108 ∷ 97 ∷ [];
  attribs = (107 ∷ [], 118 ∷ 119 ∷ []) ∷ (107 ∷ [], []) ∷ [];
  actions = (111 ∷ 110 ∷ [], 1) ∷ [];
}

abbrev on : ApiAction
on = record { name = 111 ∷ 110 ∷ []; action_type = 1 }

lamp-AttribsFit : AttribsFit lamp.attribs
lamp-AttribsFit = (omega arith, omega arith, (omega arith, omega arith, tt))

lamp-ActionsFit : ActionsFit lamp.actions
lamp-ActionsFit = (omega arith, omega arith, omega arith, tt)

log_device_info-roundtrip_example :
    (info : LogDeviceInfo) × (log_device_info proto 7 20 (announce layout lamp (9 ∷ [])) ≡ ok info)
    × (info.phy ≡ 7)
    × (info.log ≡ 20)
    × (info.dev_class ≡ 8)
    × (info.name ≡ 108 ∷ 97 ∷ [])
    × ((k : Bytes) → find k info.attribs ≡ find k lamp.attribs)
    × ((i : ℕ) → find i info.actions_map ≡ nth_action lamp.actions i)
log_device_info-roundtrip_example =
    log_device_info-roundtrip proto layout 7 20 lamp (9 ∷ []) lamp-AttribsFit lamp-ActionsFit

lamp-Distinct : Distinct lamp.actions
lamp-Distinct zero zero a b there there' same = refl
lamp-Distinct zero (suc j) a b there there' same = cc
lamp-Distinct (suc i) j a b there there' same = cc

abbrev manager : Manager
manager = phy_device_manager 3

on-named : nth_action lamp.actions 0 ≡ some on
unfolding c_str
on-named = refl

execute_action_async_by_name-announce_example :
    let m' = announced manager 7 20 (recorded 7 20 lamp) in
    (handle_packet proto manager 7
        (record { src_addr = 20; body = hello_world (announce layout lamp (9 ∷ [])) })
        40
      ≡ ok m')
    × (lookup_action m' 7 20 (111 ∷ 110 ∷ []) ≡ some (0, on))
    × ((execute_action_async_by_name m' 7 20 (111 ∷ 110 ∷ []) (5 ∷ []) true 50).1.events
        ≡ execute_packet m' 7 20 0 true (5 ∷ []) ∷ m'.events)
unfolding phy_device_manager lookup_log find
execute_action_async_by_name-announce_example =
    execute_action_async_by_name-announce proto layout manager 7 20 40 lamp (9 ∷ []) 0 on (5 ∷ [])
      true 50 refl lamp-AttribsFit lamp-ActionsFit lamp-Distinct (omega arith) on-named
