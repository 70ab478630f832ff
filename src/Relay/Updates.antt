-- ===== src/Relay/Updates.antt =====
-- The relay's updates for a subscription, as the manager that subscribed receives them.
use Prim.Native.String.{String}
use khawasu_pc.Base.{
  ℕ, zero, suc, ◌<◌, ◌++◌, [], ◌∷◌, length, take, true, ◌≡◌, refl, Bytes, Option, none, some,
  nat_eq, ◌==◌, arith, drop, Option-cases, inl, inr, ◌⊎◌,
}
use khawasu_pc.Base.Outcome.{ok, Fault, or_fault, bad_function_call, Ensures, Ensures-bind}
use khawasu_pc.Base.Dict.{find}
use khawasu_pc.Protocol.{Proto, LogicalPacket, subscription_callback}
use khawasu_pc.Manager.State.{Manager, Subscription, emit, callback_called}
use khawasu_pc.Manager.Receive.{handle_packet, handle_body, handle_callback, copy_payload}
use khawasu_pc.Relay.{PacketLayout, store, on_subscription_timer_update}

or_fault-eq-ok {ℓ} :
    {A : Type ℓ} (o : Option A) (e : Fault) {a : A} → or_fault o e ≡ ok a → o ≡ some a
or_fault-eq-ok none e h = cc
or_fault-eq-ok (some b) e h = cc

-- The packet of an update.
abbrev pub update_of : PacketLayout → ℕ → Bytes → LogicalPacket
update_of L port memory = record {
  src_addr = port;
  body = subscription_callback (L.callback_id memory) (drop L.callback_payload memory);
}

-- The memory of a packet after a byte 1 is stored at an offset.
abbrev pub with_one_at : ℕ → Bytes → Bytes
with_one_at offset fresh = take offset fresh ++ 1 ∷ drop (suc offset) fresh

store-inside :
    (fresh : Bytes) (offset : ℕ)
    → offset < length fresh
    → store fresh offset 1 ≡ ok (with_one_at offset fresh)
store-inside [] offset inside = absurd (omega arith)
store-inside (b ∷ fresh) zero inside = refl
store-inside (b ∷ fresh) (suc offset) inside = rw (store-inside fresh offset (omega arith)) refl

-- Only the callback of this subscription has been called.
abbrev Called : Manager → Subscription → Manager → Type 0
Called m s m' =
    (f : ℕ) × (bytes : Bytes) × (s.callback ≡ some f) × (m' ≡ emit (callback_called f s bytes) m)

module _ (P : Proto) where
  handle_callback-Called :
      (m : Manager) (size id : ℕ) (memory : Bytes) (s : Subscription)
      → find id m.subscriptions ≡ some s
      → Ensures (Called m s) (handle_callback P m size id memory)
  unfolding handle_callback
  handle_callback-Called m size id memory s there =
      rw (there, handle_callback)
        (Ensures-bind (Called m s) (copy_payload size P.subscription_callback_size memory) _
          λ bytes e.
            Ensures-bind (Called m s) (or_fault s.callback bad_function_call) _
              λ f g. (f, bytes, or_fault-eq-ok s.callback bad_function_call g, refl))

  handle_callback-none :
      (m : Manager) (size id : ℕ) (memory : Bytes)
      → find id m.subscriptions ≡ none
      → handle_callback P m size id memory ≡ ok m
  unfolding handle_callback
  handle_callback-none m size id memory nobody = rw (nobody, handle_callback) refl

  -- For an update of "power_state", of any subscription, that is, whatever `sub_id` it is given, the
  -- relay sends the packet's memory as it was allocated, with one byte 1 at the place of an answer's
  -- payload, which is inside it. The manager that handles the packet takes it for the subscription
  -- whose number it reads in this memory: it calls that one's callback, if it returns, or changes
  -- nothing if there is none.
  pub handle_packet-on_subscription_timer_update :
      (get_action_id : String → ℕ) (L : PacketLayout) (m : Manager) (fresh : Bytes)
      (phy port size sub_id action_id : ℕ) (client : ℕ × ℕ)
      → action_id ≡ get_action_id "power_state"
      → L.response_payload < length fresh
      → let memory = with_one_at L.response_payload fresh in
        let log = update_of L port memory in
        let o = handle_packet P m phy log size in
        (on_subscription_timer_update get_action_id L fresh port client sub_id action_id
          ≡ ok (some (record { dest = client; log = log })))
        × (((find (L.callback_id memory) m.subscriptions ≡ none) × (o ≡ ok m))
            ⊎ ((s : Subscription) × (find (L.callback_id memory) m.subscriptions ≡ some s)
                × Ensures
                    (λ m'.
                      (f : ℕ) × (bytes : Bytes) × (s.callback ≡ some f)
                      × (m' ≡ emit (callback_called f s bytes) m))
                    o))
  unfolding on_subscription_timer_update handle_packet handle_body
  handle_packet-on_subscription_timer_update get_action_id L m fresh phy port size sub_id action_id
        client named inside =
      let power : (action_id == get_action_id "power_state") ≡ true = ground arith in
      (
        rw (power, store-inside fresh L.response_payload inside) refl,
        elim (Option-cases
            (find (L.callback_id (with_one_at L.response_payload fresh)) m.subscriptions)) [
              | inl nobody ↦ inl (nobody, handle_callback-none m size _ _ nobody)
              | inr (s, there) ↦ inr (s, there, handle_callback-Called m size _ _ s there)
            ],
      )
