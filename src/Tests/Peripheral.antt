-- ===== src/Tests/Peripheral.antt =====
-- The relay's updates, and the texts of addresses.
use Prim.Native.String.{String}
use khawasu_pc.Base.{
  ℕ, zero, suc, ◌≡◌, ◌≢◌, ◌⊎◌, ◌↔◌, refl, sym, ap, none, some, [], ◌∷◌, Bytes, nat_eq, arith,
}
use khawasu_pc.Base.Outcome.{ok, Ensures}
use khawasu_pc.Base.Dict.{find}
use khawasu_pc.Protocol.{LogicalPacket, subscription_callback}
use khawasu_pc.Manager.State.{Subscription, callback_called, emit}
use khawasu_pc.Manager.Receive.{handle_packet}
use khawasu_pc.Relay.{PacketLayout, on_subscription_timer_update}
use khawasu_pc.Relay.Updates.{handle_packet-on_subscription_timer_update}
use khawasu_pc.Socket.Keys.{Endpoint, sockaddr_of, SameHost, SamePort}
use khawasu_pc.Socket.Names.{
  Text, NoMark, windows_address_string, unix_address_string, address_string-eq_iff,
}
use khawasu_pc.Tests.Fixtures.{proto, knowing}

abbrev first : Bytes → ℕ
first [] = 0
first (b ∷ bs) = b

abbrev packet_layout : PacketLayout
packet_layout = record { response_payload = 2; callback_payload = 4; callback_id = first }

-- The number 9 lies in the packet's memory.
abbrev fresh : Bytes
fresh = 9 ∷ 0 ∷ 0 ∷ 0 ∷ 0 ∷ []

abbrev only_action : String → ℕ
only_action name = 0

-- The update is for the subscription 5.
handle_packet-on_subscription_timer_update_example :
    let log : LogicalPacket = record { src_addr = 20; body = subscription_callback 9 (0 ∷ []) } in
    let o = handle_packet proto knowing 7 log 10 in
    (on_subscription_timer_update only_action packet_layout fresh 20 (1, 3) 5 0
      ≡ ok (some (record { dest = (1, 3); log = log })))
    × (((find 9 knowing.subscriptions ≡ none) × (o ≡ ok knowing))
        ⊎ ((s : Subscription) × (find 9 knowing.subscriptions ≡ some s)
            × Ensures
                (λ m'.
                  (f : ℕ) × (bytes : Bytes) × (s.callback ≡ some f)
                  × (m' ≡ emit (callback_called f s bytes) knowing))
                o))
handle_packet-on_subscription_timer_update_example =
    handle_packet-on_subscription_timer_update proto only_action packet_layout knowing fresh 7 20 10
      5 0 (1, 3) refl (omega arith)

-- Strokes, and an address as it is.
abbrev strokes : ℕ → Bytes
strokes zero = []
strokes (suc n) = b'1' ∷ strokes n

strokes-injective : (a b : ℕ) → strokes a ≡ strokes b → a ≡ b
strokes-injective zero zero e = refl
strokes-injective zero (suc b) e = absurd (cc)
strokes-injective (suc a) zero e = absurd (cc)
strokes-injective (suc a) (suc b) e = ap suc (strokes-injective a b (cc))

strokes-NoMark : (c a : ℕ) → c ≢ b'1' → NoMark c (strokes a)
strokes-NoMark c zero other = tt
strokes-NoMark c (suc a) other = ((λ e. other (sym e)), strokes-NoMark c a other)

abbrev text : Text
text = record {
  show = strokes;
  inet_ntoa = λ a. a;
  show-injective = strokes-injective;
  show-no_dot = λ a. strokes-NoMark b'.' a (omega arith);
  show-no_colon = λ a. strokes-NoMark b':' a (omega arith);
  inet_ntoa-injective = λ a b k l x y e. e;
}

abbrev here : Endpoint
here = record { host_0 = 1; host_1 = 0; host_2 = 0; host_3 = 2; port_0 = 0; port_1 = 3 }

abbrev next_door : Endpoint
next_door = record here { port_1 = 4 }

address_string-eq_iff_example :
    ((windows_address_string text (sockaddr_of here)
        ≡ windows_address_string text (sockaddr_of next_door))
      ↔ (SameHost here next_door × SamePort here next_door))
    × ((unix_address_string text (sockaddr_of here)
          ≡ unix_address_string text (sockaddr_of next_door))
        ↔ SameHost here next_door)
address_string-eq_iff_example =
    address_string-eq_iff text here next_door (omega arith) (omega arith)
