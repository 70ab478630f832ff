-- ===== src/Manager/Subscribe.antt =====
-- `subscribe_action`, by number and by name. The buffer is passed along and never used.
pub mod Delivery
use khawasu_pc.Base.{ℕ, ◌+◌, ◌%◌, ◌^◌, Bool, Option, none, some, Bytes}
use khawasu_pc.Base.Outcome.{Outcome, ok}
use khawasu_pc.Manager.State.{Manager, lookup_log, lookup_action}
use khawasu_pc.Manager.Receive.{subscribe_data}
use khawasu_pc.Manager.Execute.{to_ushort}

-- `data.device` and the callbacks: `done_callback` is not copied.
unfoldable pub subscribe_action :
    Manager → ℕ → ℕ → ℕ → ℕ → ℕ → Bytes → Option ℕ → Option ℕ → Bool → Outcome Manager
subscribe_action m addr port action_id duration period buffer callback done_callback is_renew =
    let sub_id = m.subscription_counter in
    let m' = record m { subscription_counter = (sub_id + 1) % 2 ^ 32 } in
    elim (lookup_log m addr port) [
      | none ↦ ok m'
      | some _ ↦ subscribe_data m' (record {
        device = some (addr, port);
        id = sub_id;
        action_id = action_id;
        duration = duration;
        period = period;
        is_renew = is_renew;
        callback = callback;
        done_callback = none;
      })
    ]

unfoldable pub subscribe_action_by_name :
    Manager → ℕ → ℕ → Bytes → ℕ → ℕ → Bytes → Option ℕ → Option ℕ → Bool → Outcome Manager
unfolding subscribe_action
subscribe_action_by_name m addr port name duration period buffer callback done_callback is_renew =
    elim (lookup_action m addr port name) [
      | none ↦ ok m
      | some (id, action) ↦
          subscribe_action m addr port (to_ushort id) duration period buffer callback done_callback
            is_renew
    ]
