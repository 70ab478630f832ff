-- ===== src/Manager/Fetch/Returns.antt =====
-- `fetch_action` comes back: at the deadline at the latest.
use khawasu_pc.Base.{ℕ, ◌&&◌, Bytes, Option, none, List, [], ◌∷◌, inl, inr, arith, Bool-cases}
use khawasu_pc.Base.Outcome.{Settles, Settles-bind, Settles-if, Settles-option}
use khawasu_pc.Protocol.{Proto}
use khawasu_pc.DeviceInfo.{ActionResponse}
use khawasu_pc.Manager.State.{Manager, lookup_action}
use khawasu_pc.Manager.Execute.{Round, in_time}
use khawasu_pc.Manager.Execute.Clock.{Expires, in_time_iff}
use khawasu_pc.Manager.Execute.Returns.{receive_all-Settles}
use khawasu_pc.Manager.Fetch.{fetch_wait, fetch_action, fetch_action_by_name, is_null}

module _ (P : Proto) where
  fetch_wait-Settles :
      (req_id start_time : ℕ) (rounds : List Round) (result : Option ActionResponse) (m : Manager)
      → Expires start_time rounds
      → Settles (fetch_wait P req_id start_time rounds result m)
  unfolding fetch_wait
  fetch_wait-Settles req_id start_time [] result m x = absurd x
  fetch_wait-Settles req_id start_time (r ∷ rs) result m (inl (late, fits)) =
      rw ((in_time_iff r.clock start_time (omega arith) fits).1 late)
        (elim (Bool-cases (is_null result)) [ inl c ↦ rw c tt | inr c ↦ rw c tt ])
  fetch_wait-Settles req_id start_time (r ∷ rs) result m (inr x) =
      Settles-if (is_null result && in_time r.clock start_time) _ _
        (Settles-bind _ _ (receive_all-Settles P _ r.during)
          λ m₂. fetch_wait-Settles req_id start_time rs _ m₂ x)
        tt

  -- Whatever packets arrive meanwhile, `fetch_action` by a device's and an action's name ends,
  -- with a value or a fault, if in some round its loop reads a clock at or past the deadline.
  pub fetch_action_by_name-Settles :
      (m : Manager) (addr port : ℕ) (name buffer : Bytes) (now start_time : ℕ) (rounds : List Round)
      → Expires start_time rounds
      → Settles (fetch_action_by_name P m addr port name buffer now start_time rounds)
  unfolding fetch_action_by_name fetch_action
  fetch_action_by_name-Settles m addr port name buffer now start_time rounds x =
      Settles-option (lookup_action m addr port name) _ _ tt
        λ ia. Settles-bind _ _ (fetch_wait-Settles _ start_time rounds none _ x) λ t. tt
