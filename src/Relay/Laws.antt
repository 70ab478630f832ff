-- ===== src/Relay/Laws.antt =====
-- A client of the manager fetches from the relay of main_client.cpp.
use Prim.Native.String.{String}
use khawasu_pc.Base.{
  ℕ, ◌+◌, ◌-◌, ◌<◌, ◌≡◌, refl, ◌∙◌, ap, true, Bytes, Option, none, some, List, [], ◌∷◌, ◌++◌,
  nat_eq, ◌==◌, arith, take,
}
use khawasu_pc.Base.Outcome.{ok}
use khawasu_pc.Base.Dict.{find}
use khawasu_pc.Protocol.{Proto}
use khawasu_pc.DeviceInfo.{ActionResponse}
use khawasu_pc.Manager.State.{Manager}
use khawasu_pc.Manager.Execute.{Incoming, Round, in_time}
use khawasu_pc.Manager.Fetch.{fetch_action}
use khawasu_pc.Manager.Fetch.Answers.{Quiet, answer_packet, fetch_action-answered}
use khawasu_pc.Relay.{Memory, Reply, on_action_get}

-- The relay's reply, if there is one, as it reaches the manager: with one byte of payload.
abbrev pub incoming : Proto → ℕ → Option Reply → List Incoming
incoming P src_phy none = []
incoming P src_phy (some r) =
    record { src_phy = src_phy; log = r.log; size = P.action_response_size } ∷ []

module _ (P : Proto) (get_action_id : String → ℕ) where
  -- The manager fetches the relay's "power_state", under a number that is free. If the relay's reply
  -- to a request of this number is handled in time, after any quiet rounds and with one round more
  -- before the deadline, `fetch_action` returns the payload 1, whatever memory the reply was made
  -- in; the status that it returns with it is what lay in that memory.
  pub fetch_action-on_action_get :
      (m : Manager) (phy port action_id : ℕ) (buffer : Bytes) (now start_time : ℕ)
      (quiet rounds : List Round) (r₁ r₂ : Round) (fresh : Memory) (client : ℕ × ℕ)
      → let req_id = m.action_responses_counter in
        action_id ≡ get_action_id "power_state"
        → find req_id m.action_responses ≡ none
        → Quiet start_time quiet
        → in_time r₁.clock start_time ≡ true
        → r₁.during
          ≡ incoming P phy (on_action_get get_action_id fresh port action_id client req_id)
        → P.action_response_size < 65536
        → in_time r₂.clock start_time ≡ true
        → r₂.during ≡ []
        → (a : ActionResponse) × (m' : Manager) × (fetch_action P m phy port action_id buffer now
              start_time
              (quiet ++ r₁ ∷ r₂ ∷ rounds)
            ≡ ok (some a, m'))
          × (a.payload ≡ 1 ∷ [])
          × (a.status ≡ some fresh.status)
  unfolding on_action_get
  fetch_action-on_action_get m phy port action_id buffer now start_time quiet rounds r₁ r₂ fresh
        client named free calm early₁ comes fits early₂ still =
      let req_id = m.action_responses_counter in
      let size = P.action_response_size in
      let power : (action_id == get_action_id "power_state") ≡ true =
        (nat_eq.beq_iff action_id (get_action_id "power_state")).1 named in
      let one : size + 1 - size ≡ 1 = omega arith in
      let reply : r₁.during ≡ answer_packet phy port size req_id fresh.status (1 ∷ []) ∷ [] =
        comes ∙ rw (on_action_get, power) refl in
      let (m', fetched, _) =
        fetch_action-answered P m phy port action_id buffer now start_time quiet rounds r₁ r₂ phy
          port size fresh.status (1 ∷ []) free calm early₁ reply (omega arith, fits, omega arith)
          early₂ still in
      (_, m', fetched, ap (λ n. take n (1 ∷ [])) one, refl)
