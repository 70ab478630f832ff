-- ===== src/Tests/Socket.antt =====
-- A Unix system whose `connect` wants a whole address, two peers on one host, and interfaces.
use khawasu_pc.Base.{
  ℕ, ◌+◌, ◌*◌, ◌≡◌, refl, sym, ◌∙◌, true, false, none, some, [], ◌∷◌, Bytes, length, map, nat_eq,
  ltb, arith, if◌then◌else◌,
}
use khawasu_pc.Base.Outcome.{ok}
use khawasu_pc.Base.Dict.{find}
use khawasu_pc.Socket.{Connection, WideFormat, AllBytes, zeros}
use khawasu_pc.Socket.Unix
use khawasu_pc.Socket.Unix.{unix}
use khawasu_pc.Socket.Windows
use khawasu_pc.Socket.Keys.{Endpoint, sockaddr_of}
use khawasu_pc.MeshSocket.{
  Client, empty_buffer, Sockets, MeshSocketInterface, accept_client, check_packets, frame,
}
use khawasu_pc.MeshSocket.Interface.{mesh_socket_interface, accepted, send_hello}
use khawasu_pc.MeshSocket.Hello.{constructed, checked, send_hello-broadcast}
use khawasu_pc.MeshSocket.Connect.{
  RefusesShort, mesh_socket_interface-unconnected, accept_client-SameHost,
}
use khawasu_pc.Tests.Fixtures.{little_endian}

abbrev pub wide_number : Bytes → ℕ
wide_number [] = 0
wide_number (b ∷ bs) = b + 256 * wide_number bs

pub wide_number-injective :
    (a b : Bytes)
    → length a ≡ length b
    → AllBytes a
    → AllBytes b
    → wide_number a ≡ wide_number b
    → a ≡ b
wide_number-injective [] [] l x y e = refl
wide_number-injective [] (d ∷ b) l x y e = absurd (omega arith)
wide_number-injective (c ∷ a) [] l x y e = absurd (omega arith)
wide_number-injective (c ∷ a) (d ∷ b) l x y e =
    let head : c ≡ d = omega arith in
    let tail = wide_number-injective a b (omega arith) x.1 y.1 (omega arith) in cc

abbrev pub wide_little_endian : WideFormat
wide_little_endian = record {
  decode = wide_number;
  decode-injective = λ a b k l x y e. wide_number-injective a b (k ∙ sym l) x y e;
}

abbrev pub peer_1 : Endpoint
peer_1 = record { host_0 = 127; host_1 = 0; host_2 = 0; host_3 = 1; port_0 = 192; port_1 = 0 }

abbrev pub peer_2 : Endpoint
peer_2 = record { host_0 = 127; host_1 = 0; host_2 = 0; host_3 = 1; port_0 = 192; port_1 = 1 }

-- Descriptor 5 for every socket, 6 for an accepted peer.
abbrev pub system : Unix.System
system = record {
  socket = 5;
  bind = λ fd a len. 0;
  listen = λ fd n. 0;
  connect = λ fd a len. if ltb len 16 then 22 else 0;
  accept = (6, sockaddr_of peer_2);
  inet_aton = λ s. some (127 ∷ 0 ∷ 0 ∷ 1 ∷ []);
  htons = λ port. 192 ∷ 0 ∷ [];
  stack = zeros;
}

system-RefusesShort : RefusesShort system
system-RefusesShort fd a len h = ground arith

mesh_socket_interface-unconnected_example :
    (c : Connection) × (Unix.connect system "127.0.0.1" 49152 ≡ some c)
    × (c.connected ≡ false)
    × (mesh_socket_interface (unix system wide_little_endian) "127.0.0.1" 49152 false
        ≡ ok (record {
          is_server = false;
          self_handle = 5;
          clients =
              (
                Unix.address_u64 system wide_little_endian c.address,
                record { buffer = empty_buffer; handle = 5 },
              )
              ∷ [];
        }))
mesh_socket_interface-unconnected_example =
    mesh_socket_interface-unconnected system wide_little_endian "127.0.0.1" 49152
      system-RefusesShort refl

abbrev windows : Windows.System
windows = record {
  socket = some 5;
  ioctlsocket = λ h. true;
  bind = λ h a. true;
  listen = λ h. true;
  connect = λ h a. true;
  accept = none;
  inet_addr = λ s. 127 ∷ 0 ∷ 0 ∷ 1 ∷ [];
  inet_pton = λ s. some (127 ∷ 0 ∷ 0 ∷ 1 ∷ []);
  htons = λ port. 192 ∷ 0 ∷ [];
  stack = zeros 4;
}

abbrev key : ℕ
key = 16777343

abbrev old_client : Client
old_client = record { buffer = record { bytes = 1 ∷ []; size = 3 }; handle = 4 }

abbrev server : MeshSocketInterface
server = record { is_server = true; self_handle = 5; clients = (key, old_client) ∷ [] }

abbrev sockets : Sockets
sockets = record { status = λ h. 1; unread = λ h. []; accepted = some (key, 6) }

there : accepted (unix system wide_little_endian) ≡ ok sockets.accepted
unfolding accepted Unix.accept Unix.address_u64
there = refl

known :
    find (Unix.address_u64 system wide_little_endian (sockaddr_of peer_1)) server.clients
    ≡ some old_client
unfolding Unix.address_u64 find
known = refl

accept_client-SameHost_example :
    (i' : MeshSocketInterface) × (accept_client server sockets ≡ some i')
    × (find (Unix.address_u64 system wide_little_endian (sockaddr_of peer_1)) i'.clients
        ≡ some (record { buffer = empty_buffer; handle = 6 }))
    × (length i'.clients ≡ length server.clients)
accept_client-SameHost_example =
    accept_client-SameHost system system wide_little_endian server sockets peer_1 peer_2 6
      old_client refl refl (omega arith) (omega arith) (omega arith) refl refl there refl refl
      (refl, refl, refl, refl) known

abbrev new_server : MeshSocketInterface
new_server = record { is_server = true; self_handle = 5; clients = [] }

server_created :
    mesh_socket_interface (unix system wide_little_endian) "" 49152 true ≡ ok new_server
unfolding mesh_socket_interface Unix.create
server_created = refl

abbrev with_client : MeshSocketInterface
with_client = (check_packets little_endian new_server sockets).0

send_hello-broadcast_example :
    (send_hello little_endian with_client (9 ∷ []) none
      ≡ map (λ (e : ℕ × Client). (e.1.handle, frame little_endian (9 ∷ []))) with_client.clients)
    × (send_hello little_endian with_client (9 ∷ []) (some key)
        ≡ elim (find key with_client.clients) [
          | none ↦ []
          | some c ↦ (c.handle, frame little_endian (9 ∷ [])) ∷ []
        ])
send_hello-broadcast_example =
    send_hello-broadcast (unix system wide_little_endian) little_endian with_client (9 ∷ []) key
      (checked sockets (constructed "" 49152 true server_created))
