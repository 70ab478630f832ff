-- ===== src/Manager/Announced.antt =====
-- A device that announces itself, and the client that then asks for its actions by name.
use khawasu_pc.Base.{
  ℕ, zero, suc, length, ◌<◌, ◌≡◌, refl, ◌∙◌, sym, true, false, none, some, List, [], ◌∷◌, Bytes,
  Bool, nat_eq, bytes_eq, ◌==◌, arith, Bool-cases, inl, inr,
}
use khawasu_pc.Base.Outcome.{ok}
use khawasu_pc.Base.Dict.{Dict, find, IsMap}
use khawasu_pc.Protocol.{ApiAction, Proto, hello_world, action_execute}
use khawasu_pc.DeviceInfo.{c_str}
use khawasu_pc.DeviceInfo.Announce.{
  Announced, Layout, AttribsFit, ActionsFit, nth_action, announce, recorded, number,
  find-number_zero, number-IsMap,
}
use khawasu_pc.DeviceInfo.Roundtrip.{log_device_info-announce}
use khawasu_pc.Manager.State.{
  Manager, Event, sent, lookup_log, find_action, lookup_action, next_request,
}
use khawasu_pc.Manager.Receive.{handle_packet, handle_body}
use khawasu_pc.Manager.Receive.Devices.{announced, handle_hello-read, lookup_log-announced}
use khawasu_pc.Manager.Execute.{execute_action_async_by_name, execute_action_async, to_ushort}

-- Only the action numbered `i` has this name.
abbrev pub Names : ℕ → Bytes → Dict ℕ ApiAction → Type 0
Names i name actions =
    (j : ℕ) (b : ApiAction) → find j actions ≡ some b → c_str b.name ≡ c_str name → j ≡ i

-- In whatever order the table of actions stands.
pub find_action-find :
    (i : ℕ) (name : Bytes) (a : ApiAction) (actions : Dict ℕ ApiAction)
    → IsMap actions
    → Names i name actions
    → find i actions ≡ some a
    → c_str a.name ≡ c_str name
    → find_action name actions ≡ some (i, a)
unfolding find_action find
find_action-find i name a [] m only there named = cc
find_action-find i name a ((j, b) ∷ actions) m only there named =
    elim (Bool-cases (c_str b.name == c_str name)) [
      | inl this ↦
          let e : j ≡ i =
            only j b (ground (arith, nat_eq.beq_iff j j))
              ((bytes_eq.beq_iff (c_str b.name) (c_str name)).0 this) in
          rw this (ground (arith, nat_eq.beq_iff i j))
      | inr other ↦
          let rest : find i actions ≡ some a =
            ground (arith, bytes_eq.beq_iff (c_str b.name) (c_str name), nat_eq.beq_iff i j) in
          let only_rest : Names i name actions =
            λ k c found. only k c (ground (arith, nat_eq.beq_iff k j)) in
          rw other (find_action-find i name a actions m.1 only_rest rest named)
    ]

-- No two actions have one name.
abbrev pub Distinct : List (Bytes × ℕ) → Type 0
Distinct actions =
    (i j : ℕ) (a b : ApiAction)
    → nth_action actions i ≡ some a
    → nth_action actions j ≡ some b
    → c_str a.name ≡ c_str b.name
    → i ≡ j

-- The start packet of the request by name.
abbrev pub execute_packet : Manager → ℕ → ℕ → ℕ → Bool → Bytes → Event
execute_packet m addr port id require_status buffer = sent (record {
  dest_phy = addr;
  dest_log = port;
  src_port = m.self_port;
  fields = action_execute m.action_responses_counter id require_status buffer;
})

nth_action-lt :
    (actions : List (Bytes × ℕ)) (i : ℕ) (a : ApiAction)
    → nth_action actions i ≡ some a
    → i < length actions
nth_action-lt [] i a there = cc
nth_action-lt (x ∷ actions) zero a there = omega arith
nth_action-lt (x ∷ actions) (suc i) a there = omega (arith, nth_action-lt actions i a there)

events-execute_action_async :
    (m : Manager) (addr port id : ℕ) (buffer : Bytes) (require_status : Bool) (now : ℕ)
    → (execute_action_async m addr port id buffer require_status now).1.events
      ≡ execute_packet m addr port id require_status buffer ∷ m.events
unfolding execute_action_async next_request
events-execute_action_async m addr port id buffer true now = refl
events-execute_action_async m addr port id buffer false now = refl

find_action-recorded :
    (P : Proto) (phy log i : ℕ) (d : Announced) (a : ApiAction)
    → Distinct d.actions
    → nth_action d.actions i ≡ some a
    → find_action a.name (recorded phy log d).actions_map ≡ some (i, a)
find_action-recorded P phy log i d a distinct there =
    find_action-find i a.name a (number 0 d.actions []) (number-IsMap 0 d.actions [] tt)
      (λ j b found same. distinct j i b a (sym (find-number_zero j d.actions) ∙ found) there same)
      (find-number_zero i d.actions ∙ there) refl

module _ (P : Proto) (L : Layout P) where
  handle_packet-announce :
      (m : Manager) (src_phy src_addr size : ℕ) (d : Announced) (more : Bytes)
      → AttribsFit d.attribs
      → ActionsFit d.actions
      → handle_packet P m src_phy
          (record { src_addr = src_addr; body = hello_world (announce L d more) })
          size
        ≡ ok (announced m src_phy src_addr (recorded src_phy src_addr d))
  unfolding handle_packet handle_body
  handle_packet-announce m src_phy src_addr size d more attribs actions =
      handle_hello-read P m src_phy src_addr (announce L d more)
      ∙ rw (log_device_info-announce P L src_phy src_addr d more attribs actions) refl

  -- A device that is not known announces itself, with texts that fit one byte's length and fewer
  -- than 65536 actions of different names, none of them empty. Then a request by name to any of its actions finds the
  -- action under the number of its place in the announcement, and sends, as its only effect, one
  -- packet with this number to the device.
  pub execute_action_async_by_name-announce :
      (m : Manager) (src_phy src_addr size : ℕ) (d : Announced) (more : Bytes) (i : ℕ)
      (a : ApiAction) (buffer : Bytes) (require_status : Bool) (now : ℕ)
      → let m' = announced m src_phy src_addr (recorded src_phy src_addr d) in
        lookup_log m src_phy src_addr ≡ none
        → AttribsFit d.attribs
        → ActionsFit d.actions
        → Distinct d.actions
        → length d.actions < 65536
        → nth_action d.actions i ≡ some a
        → (handle_packet P m src_phy
              (record { src_addr = src_addr; body = hello_world (announce L d more) })
              size
            ≡ ok m')
          × (lookup_action m' src_phy src_addr a.name ≡ some (i, a))
          × ((execute_action_async_by_name m' src_phy src_addr a.name buffer require_status
                now).1.events
              ≡ execute_packet m' src_phy src_addr i require_status buffer ∷ m'.events)
  unfolding lookup_action execute_action_async_by_name
  execute_action_async_by_name-announce m src_phy src_addr size d more i a buffer require_status now
        fresh attribs actions distinct few there =
      let info = recorded src_phy src_addr d in
      let m' = announced m src_phy src_addr info in
      let known : lookup_log m' src_phy src_addr ≡ some info =
        lookup_log-announced m src_phy src_addr info src_phy src_addr
        ∙ ground (arith, fresh, nat_eq.beq_iff src_phy src_phy, nat_eq.beq_iff src_addr src_addr) in
      let found = find_action-recorded P src_phy src_addr i d a distinct there in
      let looked : lookup_action m' src_phy src_addr a.name ≡ some (i, a) =
        rw (lookup_action, known, found) refl in
      let fits : to_ushort i ≡ i = omega (arith, nth_action-lt d.actions i a there) in
      (
        handle_packet-announce m src_phy src_addr size d more attribs actions,
        looked,
        rw (execute_action_async_by_name, looked, fits)
            (events-execute_action_async m' src_phy src_addr i buffer require_status now),
      )
