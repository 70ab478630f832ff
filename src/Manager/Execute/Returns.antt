-- ===== src/Manager/Execute/Returns.antt =====
-- `execute_action` comes back: at the deadline at the latest.
use khawasu_pc.Base.{
  Bool-cases, ℕ, Bool, ◌&&◌, Bytes, Option, none, some, List, [], ◌∷◌, inl, inr, arith,
}
use khawasu_pc.Base.Outcome.{Settles, Settles-bind, Settles-if, Settles-option}
use khawasu_pc.Protocol.{Status, Proto, timeout}
use khawasu_pc.DeviceInfo.{ActionResponse}
use khawasu_pc.Manager.State.{Manager, lookup_action}
use khawasu_pc.Manager.Receive.Settles.{handle_packet-Settles}
use khawasu_pc.Manager.Execute.{
  Incoming, Round, in_time, is_timeout, receive_all, execute_wait, execute_action,
  execute_action_by_name,
}
use khawasu_pc.Manager.Execute.Clock.{Expires, in_time_iff}

module _ (P : Proto) where
  pub receive_all-Settles : (m : Manager) (ps : List Incoming) → Settles (receive_all P m ps)
  unfolding receive_all
  receive_all-Settles m [] = tt
  receive_all-Settles m (p ∷ ps) =
      Settles-bind _ _ (handle_packet-Settles P m p.src_phy p.log p.size)
        λ m'. receive_all-Settles m' ps

  execute_wait-Settles :
      (req_id start_time : ℕ) (rounds : List Round) (status : Option Status)
      (result : Option ActionResponse) (m : Manager)
      → Expires start_time rounds
      → Settles (execute_wait P req_id start_time rounds status result m)
  unfolding execute_wait
  execute_wait-Settles req_id start_time [] status result m x = absurd x
  execute_wait-Settles req_id start_time (r ∷ rs) status result m (inl (late, fits)) =
      rw ((in_time_iff r.clock start_time (omega arith) fits).1 late)
        (elim (Bool-cases (is_timeout status)) [ inl c ↦ rw c tt | inr c ↦ rw c tt ])
  execute_wait-Settles req_id start_time (r ∷ rs) status result m (inr x) =
      Settles-if (is_timeout status && in_time r.clock start_time) _ _
        (Settles-bind _ _ (receive_all-Settles _ r.during)
          λ m₂. execute_wait-Settles req_id start_time rs _ _ m₂ x)
        tt

  -- Whatever packets arrive meanwhile, `execute_action` by a device's and an action's name ends,
  -- with a value or a fault, if in some round its loop reads a clock at or past the deadline.
  pub execute_action_by_name-Settles :
      (m : Manager) (addr port : ℕ) (name buffer : Bytes) (require_status : Bool)
      (now start_time : ℕ) (rounds : List Round)
      → Expires start_time rounds
      → Settles
          (execute_action_by_name P m addr port name buffer require_status now start_time rounds)
  unfolding execute_action_by_name execute_action
  execute_action_by_name-Settles m addr port name buffer require_status now start_time rounds x =
      Settles-option (lookup_action m addr port name) _ _ tt λ ia.
        Settles-if require_status _ _
          (Settles-bind _ _ (execute_wait-Settles _ start_time rounds (some timeout) none _ x)
            λ t. tt)
          tt
