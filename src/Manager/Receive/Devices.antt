-- ===== src/Manager/Receive/Devices.antt =====
-- Announcements: the table of known devices only grows, and its entries stay.
use khawasu_pc.Base.{
  ◌∷◌, Option-cases, ℕ, ◌≡◌, ◌&&◌, none, some, inl, inr, ◌==◌, nat_eq, arith, if◌then◌else◌, ap,
  ◌∙◌, ◌⊎◌,
}
use khawasu_pc.Base.Outcome.{ok, ◌>>=◌}
use khawasu_pc.Base.Dict.{Dict, find, emplace, assign, find-emplace, find-assign, or_old}
use khawasu_pc.Protocol.{
  Hello, LogicalPacket, Proto, Body, hello_world, hello_world_response, action_execute_result,
  action_response, subscription_done, subscription_callback, other_type,
}
use khawasu_pc.DeviceInfo.{LogDeviceInfo, log_device_info, PhyDeviceInfo}
use khawasu_pc.Manager.State.{Manager, new_device_called, emit, lookup_log, call_action}
use khawasu_pc.Manager.Receive.{
  handle_hello, handle_body, handle_packet, subscribe_data, no_devices,
}

-- The table after an announcement.
unfoldable pub known_after : Manager → ℕ → ℕ → LogDeviceInfo → Dict ℕ PhyDeviceInfo
known_after m src_phy src_addr info =
    let phy = or_old (find src_phy m.known_devices) no_devices in
    assign src_phy (record { log_devices = emplace src_addr info phy.log_devices })
      (emplace src_phy no_devices m.known_devices)

pub lookup_log-known_after :
    (m : Manager) (src_phy src_addr : ℕ) (info : LogDeviceInfo) (a p : ℕ)
    → lookup_log (record m { known_devices = known_after m src_phy src_addr info }) a p ≡ (
        if (a == src_phy) && (p == src_addr)
        then some (or_old (lookup_log m src_phy src_addr) info)
        else lookup_log m a p)
unfolding known_after lookup_log find
lookup_log-known_after m src_phy src_addr info a p =
    let phy : PhyDeviceInfo = or_old (find src_phy m.known_devices) no_devices in
    let phy' : PhyDeviceInfo = record { log_devices = emplace src_addr info phy.log_devices } in
    ground (
      arith,
      find-assign a src_phy phy' (emplace src_phy no_devices m.known_devices),
      find-emplace a src_phy no_devices m.known_devices,
      find-emplace p src_addr info phy.log_devices,
    )

-- The manager after an announcement: the callback runs for a device that was not known.
unfoldable pub announced : Manager → ℕ → ℕ → LogDeviceInfo → Manager
announced m src_phy src_addr info =
    let m' = record m { known_devices = known_after m src_phy src_addr info } in
    elim (lookup_log m src_phy src_addr) [
      | none ↦ if m.new_device_callback then emit (new_device_called info) m' else m'
      | some old ↦ m'
    ]

pub known_devices-announced :
    (m : Manager) (src_phy src_addr : ℕ) (info : LogDeviceInfo)
    → (announced m src_phy src_addr info).known_devices ≡ known_after m src_phy src_addr info
unfolding announced
known_devices-announced m src_phy src_addr info = ground arith

pub lookup_log-announced :
    (m : Manager) (src_phy src_addr : ℕ) (info : LogDeviceInfo) (a p : ℕ)
    → lookup_log (announced m src_phy src_addr info) a p ≡ (
        if (a == src_phy) && (p == src_addr)
        then some (or_old (lookup_log m src_phy src_addr) info)
        else lookup_log m a p)
unfolding lookup_log
lookup_log-announced m src_phy src_addr info a p =
    rw (known_devices-announced m src_phy src_addr info)
      (lookup_log-known_after m src_phy src_addr info a p)

module _ (P : Proto) where
  -- Reading an announcement is the only step that can fail.
  pub handle_hello-read :
      (m : Manager) (src_phy src_addr : ℕ) (h : Hello)
      → handle_hello P m src_phy src_addr h
        ≡ (do info ← log_device_info P src_phy src_addr h; ok (announced m src_phy src_addr info))
  unfolding handle_hello known_after announced lookup_log find
  handle_hello-read m src_phy src_addr h =
      ground (arith, find-emplace src_phy src_phy no_devices m.known_devices)

  pub handle_hello-eq-ok :
      (m m' : Manager) (src_phy src_addr : ℕ) (h : Hello)
      → handle_hello P m src_phy src_addr h ≡ ok m'
      → (info : LogDeviceInfo) × (log_device_info P src_phy src_addr h ≡ ok info)
        × (m' ≡ announced m src_phy src_addr info)
  handle_hello-eq-ok m m' src_phy src_addr h e =
      ground (arith, handle_hello-read m src_phy src_addr h)

  known_devices-hello :
      (m m' : Manager) (src_phy src_addr : ℕ) (h : Hello)
      → handle_hello P m src_phy src_addr h ≡ ok m'
      → (m'.known_devices ≡ m.known_devices)
        ⊎ ((info : LogDeviceInfo) × (m'.known_devices ≡ known_after m src_phy src_addr info))
  known_devices-hello m m' src_phy src_addr h e =
      let (info, _, f) = handle_hello-eq-ok m m' src_phy src_addr h e in
      inr (
        info,
        ap (λ (x : Manager). x.known_devices) f ∙ known_devices-announced m src_phy src_addr info,
      )

  -- Only announcements touch the table.
  pub known_devices-handle_body :
      (m m' : Manager) (src_phy size src_addr : ℕ) (b : Body)
      → handle_body P m src_phy size src_addr b ≡ ok m'
      → (m'.known_devices ≡ m.known_devices)
        ⊎ ((info : LogDeviceInfo) × (m'.known_devices ≡ known_after m src_phy src_addr info))
  unfolding handle_body subscribe_data call_action
  known_devices-handle_body m m' src_phy size src_addr (hello_world h) e =
      known_devices-hello m m' src_phy src_addr h e
  known_devices-handle_body m m' src_phy size src_addr (hello_world_response h) e =
      known_devices-hello m m' src_phy src_addr h e
  known_devices-handle_body m m' src_phy size src_addr (action_execute_result id s) e =
      inl (ground arith)
  known_devices-handle_body m m' src_phy size src_addr (action_response id s p) e =
      inl (ground arith)
  known_devices-handle_body m m' src_phy size src_addr (subscription_done id) e = inl (ground arith)
  known_devices-handle_body m m' src_phy size src_addr (subscription_callback id p) e =
      inl (ground arith)
  known_devices-handle_body m m' src_phy size src_addr (other_type n) e = inl (ground arith)

  -- Whatever packet arrives, a known device stays known and its record stays as it was.
  pub lookup_log-handle_packet :
      (m m' : Manager) (src_phy : ℕ) (log : LogicalPacket) (size a p : ℕ) (info : LogDeviceInfo)
      → handle_packet P m src_phy log size ≡ ok m'
      → lookup_log m a p ≡ some info
      → lookup_log m' a p ≡ some info
  unfolding handle_packet lookup_log
  lookup_log-handle_packet m m' src_phy log size a p info e known =
      let src_addr = log.src_addr in
      elim (known_devices-handle_body m m' src_phy size log.src_addr log.body e) [
        | inl same ↦ rw same known
        | inr (new, f) ↦ rw f (lookup_log-known_after m src_phy src_addr new a p ∙ ground arith)
      ]

  -- An announcement that is handled either adds a device that was not known at its address, with
  -- one call of the new-device callback if that is set, or finds one known there and leaves it as
  -- it is, with no call: a device's later announcements change nothing that is known of it.
  pub handle_hello-events :
      (m m' : Manager) (src_phy src_addr : ℕ) (h : Hello)
      → handle_hello P m src_phy src_addr h ≡ ok m'
      → ((info : LogDeviceInfo) × (log_device_info P src_phy src_addr h ≡ ok info)
          × (lookup_log m src_phy src_addr ≡ none)
          × (lookup_log m' src_phy src_addr ≡ some info)
          × (m'.events
              ≡ (if m.new_device_callback then new_device_called info ∷ m.events else m.events)))
        ⊎ ((old : LogDeviceInfo) × (lookup_log m src_phy src_addr ≡ some old)
            × (lookup_log m' src_phy src_addr ≡ some old)
            × (m'.events ≡ m.events))
  unfolding announced
  handle_hello-events m m' src_phy src_addr h e =
      let (info, read, f) = handle_hello-eq-ok m m' src_phy src_addr h e in
      let after = lookup_log-announced m src_phy src_addr info src_phy src_addr in
      elim (Option-cases (lookup_log m src_phy src_addr)) [
        | inl fresh ↦ inl (info, read, fresh, ground (arith, f, after), ground (arith, f))
        | inr (old, known) ↦ inr (old, known, ground (arith, f, after), ground (arith, f))
      ]
