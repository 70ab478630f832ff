-- ===== src/Manager/Registry/Calls.antt =====
-- Every method's effect on the directory of devices.
use khawasu_pc.Base.{ℕ, ◌≡◌, refl, Bool, Option, Bytes, nat_eq, arith}
use khawasu_pc.Base.Outcome.{ok}
use khawasu_pc.Protocol.{Proto}
use khawasu_pc.Manager.State.{Manager}
use khawasu_pc.Manager.Receive.{subscribe_data}
use khawasu_pc.Manager.Subscribe.{subscribe_action}
use khawasu_pc.Manager.Valid.Reach.{Step}
use khawasu_pc.Manager.Steps.{KeptByAll, Step-Kept}
use khawasu_pc.Manager.Registry.{
  Directory, Grows, stays, directory, Grows-known_devices, Grows-handle_packet,
}

known_devices-subscribe_action :
    (m m' : Manager) (addr port id duration period : ℕ) (buffer : Bytes)
    (callback finished : Option ℕ) (renew : Bool)
    → subscribe_action m addr port id duration period buffer callback finished renew ≡ ok m'
    → m'.known_devices ≡ m.known_devices
unfolding subscribe_action subscribe_data
known_devices-subscribe_action m m' addr port id duration period buffer callback finished renew e =
    ground arith

Grows-Kept : (P : Proto) (d : Directory) → KeptByAll P (λ m. Grows d (directory m))
Grows-Kept P d = record {
  kept = record {
    untouched = λ m m' u g. Grows-known_devices m m' u.0 g;
    handled = λ m m' src_phy log size e g. Grows-handle_packet P m m' src_phy log size e g;
  };
  callbacks_set = λ m n a g. Grows-known_devices m _ refl g;
  subscribed = λ m m' addr port id duration period buffer callback finished renew e g.
      Grows-known_devices m m'
        (known_devices-subscribe_action m m' addr port id duration period buffer callback finished
          renew e)
        g;
}

-- Each call of `Step` refines the abstract directory, in which nothing but adding a device at a
-- free place can happen: the directory afterwards comes from the one before by adding devices at
-- free places, one after the other, or stays as it is.
pub Step-Grows : (P : Proto) {m m' : Manager} → Step P m m' → Grows (directory m) (directory m')
Step-Grows P {m} s =
    Step-Kept P (λ x. Grows (directory m) (directory x)) (Grows-Kept P (directory m)) s
      (stays λ a p. refl)
