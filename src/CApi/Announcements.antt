-- ===== src/CApi/Announcements.antt =====
-- A device's announcement, as a client of the C library sees it.
use khawasu_pc.Base.{
  ℕ, ◌≡◌, refl, ◌∙◌, true, none, some, [], ◌∷◌, Bytes, map, arith, Option-cases, inl, inr,
}
use khawasu_pc.Base.Outcome.{ok}
use khawasu_pc.Protocol.{Hello, LogicalPacket, Proto, hello_world}
use khawasu_pc.DeviceInfo.{LogDeviceInfo, log_device_info, c_str}
use khawasu_pc.Manager.State.{Manager, new_device_called, lookup_log}
use khawasu_pc.Manager.Receive.{handle_packet, handle_body}
use khawasu_pc.Manager.Receive.Devices.{announced, handle_hello-read, known_after}
use khawasu_pc.Overlay.{OverlayFormat, overlay_log}
use khawasu_pc.CApi.{
  Context, Effect, on_new_device, with_manager, dispatched, new_device, action_of,
}
use khawasu_pc.CApi.Functions.{mesh_packet_handler}

abbrev pub hello_packet : ℕ → Hello → LogicalPacket
hello_packet src_addr h = record { src_addr = src_addr; body = hello_world h }

-- The call of the client's function for a device.
abbrev pub told : LogDeviceInfo → Effect
told dev = new_device dev.phy dev.log (c_str dev.name) dev.dev_class (map action_of dev.actions_map)

on_new_device-told :
    (c : Context) (info : LogDeviceInfo)
    → c.new_device_callback ≡ true
    → on_new_device c info ≡ record c { effects = told info ∷ c.effects }
unfolding on_new_device
on_new_device-told c info set = ground arith

module _ (P : Proto) (V : OverlayFormat) where
  -- With the client's function for new devices set, an announcement that can be read calls this
  -- function once if its device was not known, with the device's address, name, class and actions,
  -- and does not call it if the device was known; the packet is dispatched afterwards.
  pub mesh_packet_handler-announcement :
      (c : Context) (src_phy src_addr size : ℕ) (memory : Bytes) (h : Hello) (info : LogDeviceInfo)
      → overlay_log V memory size ≡ some (hello_packet src_addr h)
      → log_device_info P src_phy src_addr h ≡ ok info
      → c.manager.events ≡ []
      → c.manager.new_device_callback ≡ true
      → c.new_device_callback ≡ true
      → (c' : Context) × (mesh_packet_handler P V c src_phy memory size ≡ ok c')
        × (c'.effects
            ≡ dispatched (hello_packet src_addr h) size src_phy
              ∷ (elim (lookup_log c.manager src_phy src_addr) [
                | none ↦ told info ∷ c.effects
                | some old ↦ c.effects
              ]))
  unfolding mesh_packet_handler with_manager handle_packet handle_body announced
  mesh_packet_handler-announcement c src_phy src_addr size memory h info there read fresh called
        set =
      let m₁ : Manager = record c.manager {
        known_devices = known_after c.manager src_phy src_addr info;
        events = [];
      } in
      let c₁ : Context = record c { manager = m₁ } in
      let log = hello_packet src_addr h in
      let handled : handle_packet P c.manager src_phy log size
          ≡ ok (announced c.manager src_phy src_addr info) =
        handle_hello-read P c.manager src_phy src_addr h ∙ rw read refl in
      elim (Option-cases (lookup_log c.manager src_phy src_addr)) [
        | inl unknown ↦
            let after : announced c.manager src_phy src_addr info
                ≡ record m₁ { events = new_device_called info ∷ [] } =
              ground arith in
            (
              record c₁ { effects = dispatched log size src_phy ∷ told info ∷ c.effects },
              rw
                  (
                    there,
                    mesh_packet_handler,
                    handled,
                    after,
                    with_manager,
                    on_new_device-told c₁ info set,
                  )
                  refl,
              rw unknown refl,
            )
        | inr (old, known) ↦
            let after : announced c.manager src_phy src_addr info ≡ m₁ = ground arith in
            (
              record c₁ { effects = dispatched log size src_phy ∷ c.effects },
              rw (there, mesh_packet_handler, handled, after, with_manager) refl,
              rw known refl,
            )
      ]
