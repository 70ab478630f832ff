-- ===== src/Manager/Registry.antt =====
-- The abstract view of the manager's devices: a directory that learns.
pub mod Calls
use khawasu_pc.Base.{
  ℕ, ◌≡◌, refl, sym, ap, ◌∙◌, subst, Bool, true, false, ◌&&◌, Option, none, some, List, [], ◌∷◌,
  nat_eq, ◌==◌, arith, Option-cases, inl, inr, if◌then◌else◌, Bytes,
}
use khawasu_pc.Base.Outcome.{
  Outcome, ok, Ensures, Ensures-bind, Ensures-if, Ensures-option, Ensures-eq-ok, >>=-eq-ok,
}
use khawasu_pc.Base.Dict.{Dict, find, or_old}
use khawasu_pc.Protocol.{Status, timeout, LogicalPacket, Proto}
use khawasu_pc.DeviceInfo.{ActionResponse, LogDeviceInfo, PhyDeviceInfo}
use khawasu_pc.Manager.State.{
  Manager, lookup_log, lookup_action, call_action, next_request, start, send_hello, lookup,
}
use khawasu_pc.Manager.Receive.{handle_packet, subscribe_data}
use khawasu_pc.Manager.Receive.Devices.{known_devices-handle_body, lookup_log-known_after}
use khawasu_pc.Manager.Execute.{
  Round, Incoming, receive_all, poll, in_time, is_timeout, execute_wait, execute_action,
  execute_action_by_name, execute_action_async, execute_action_async_by_name, to_ushort,
}
use khawasu_pc.Manager.Fetch.{
  fetch_wait, fetch_action, fetch_action_by_name, fetch_action_async, fetch_action_async_by_name,
  is_null,
}
use khawasu_pc.Manager.Subscribe.{subscribe_action, subscribe_action_by_name}
use khawasu_pc.Manager.Valid.Reach.{
  Step, sets_callbacks, starts, sends_hello, handles, executes_async, executes_async_by_name,
  executes, executes_by_name, fetches_async, fetches_async_by_name, fetches, fetches_by_name,
  subscribes, subscribes_by_name,
}

-- Which device stands at an address and a port.
abbrev pub Directory : Type 0
Directory = ℕ → ℕ → Option LogDeviceInfo

-- A device is added at a free place; all other places stay as they are.
pub record Learns (d d' : Directory) : Type 0 where
  pub addr : ℕ
  pub port : ℕ
  pub device : LogDeviceInfo
  pub free : d addr port ≡ none
  pub after : (a p : ℕ) → d' a p ≡ (if (a == addr) && (p == port) then some device else d a p)

-- Any number of devices, one after the other.
pub data Grows (d : Directory) : Directory → Type 0 where
  stays : {d' : Directory} → ((a p : ℕ) → d' a p ≡ d a p) → Grows d d'
  learns : {d' : Directory} (e : Directory) → Grows d e → Learns e d' → Grows d d'

-- The directory of a manager.
abbrev pub directory : Manager → Directory
directory m = lookup_log m

pub Grows-same : {d e e' : Directory} → Grows d e → ((a p : ℕ) → e' a p ≡ e a p) → Grows d e'
Grows-same (stays s) t = stays λ a p. t a p ∙ s a p
Grows-same (learns e₀ g l) t = learns e₀ g (record {
  addr = l.addr;
  port = l.port;
  device = l.device;
  free = l.free;
  after = λ a p. t a p ∙ l.after a p;
})

-- The directory depends on the table only.
directory-known_devices :
    (m m' : Manager)
    → m'.known_devices ≡ m.known_devices
    → (a p : ℕ) → directory m' a p ≡ directory m a p
unfolding lookup_log lookup
directory-known_devices m m' e a p = rw e refl

pub Grows-known_devices :
    {d : Directory} (m m' : Manager)
    → m'.known_devices ≡ m.known_devices
    → Grows d (directory m)
    → Grows d (directory m')
Grows-known_devices m m' e g = Grows-same g (directory-known_devices m m' e)

module _ (P : Proto) where
  pub Grows-handle_packet :
      {d : Directory} (m m' : Manager) (src_phy : ℕ) (log : LogicalPacket) (size : ℕ)
      → handle_packet P m src_phy log size ≡ ok m'
      → Grows d (directory m)
      → Grows d (directory m')
  unfolding handle_packet
  Grows-handle_packet m m' src_phy log size e g =
      elim (known_devices-handle_body P m m' src_phy size log.src_addr log.body e) [
        | inl same ↦ Grows-known_devices m m' same g
        | inr (info, f) ↦
            let m₁ : Manager = record m { known_devices = m'.known_devices } in
            let at : (a p : ℕ)
                → directory m' a p ≡ (
                    if (a == src_phy) && (p == log.src_addr)
                    then some (or_old (lookup_log m src_phy log.src_addr) info)
                    else lookup_log m a p) =
              λ a p.
                directory-known_devices _ m' f a p
                ∙ lookup_log-known_after m src_phy log.src_addr info a p in
            elim (Option-cases (lookup_log m src_phy log.src_addr)) [
              | inl free ↦ learns (directory m) g (record {
                addr = src_phy;
                port = log.src_addr;
                device = info;
                free = free;
                after = λ a p. at a p ∙ rw free refl;
              })
              | inr (old, known) ↦ Grows-same g λ a p.
                  at a p ∙ ground (arith, nat_eq.beq_iff a src_phy, nat_eq.beq_iff p log.src_addr)
            ]
      ]
