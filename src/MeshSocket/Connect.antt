-- ===== src/MeshSocket/Connect.antt =====
-- The constructor of a client interface, and a server's clients, over `Socket` on Unix.
use Prim.Native.String.{String}
use khawasu_pc.Base.{
  ℕ, ◌<◌, ◌≡◌, ◌≢◌, refl, sym, ap, ◌∙◌, true, false, none, some, Option, [], ◌∷◌, length, nat_eq,
  arith,
}
use khawasu_pc.Base.Outcome.{ok}
use khawasu_pc.Base.Dict.{find, assign, find-assign, length-assign_known}
use khawasu_pc.Socket.{
  SockAddrIn, Connection, WideFormat, AllBytes, is_negative, zeros, sockaddr_size,
}
use khawasu_pc.Socket.Unix.{System, unix, connect, accept, address_u64}
use khawasu_pc.Socket.Keys.{
  Endpoint, endpoint_bytes, sockaddr_of, SameHost, unix_address_u64-eq_iff,
}
use khawasu_pc.MeshSocket.{Client, empty_buffer, Sockets, MeshSocketInterface, accept_client}
use khawasu_pc.MeshSocket.Interface.{mesh_socket_interface, accepted}

-- What POSIX says of `connect`: a length that is too short for the address is an error.
abbrev pub RefusesShort : System → Type 0
RefusesShort S = (fd : ℕ) (a : SockAddrIn) (len : ℕ) → len < sockaddr_size → S.connect fd a len ≢ 0

-- On Unix, with a `connect` that refuses a length too short for the address, no client interface
-- is connected to its server; but whenever there is a descriptor, the constructor returns one, with
-- the server as its client on that descriptor, and throws nothing.
pub mesh_socket_interface-unconnected :
    (S : System) (F : WideFormat) (addr : String) (port : ℕ)
    → RefusesShort S
    → is_negative S.socket ≡ false
    → (c : Connection) × (connect S addr port ≡ some c)
      × (c.connected ≡ false)
      × (mesh_socket_interface (unix S F) addr port false
          ≡ ok (record {
            is_server = false;
            self_handle = S.socket;
            clients =
                (address_u64 S F c.address, record { buffer = empty_buffer; handle = S.socket })
                ∷ [];
          }))
unfolding mesh_socket_interface connect
mesh_socket_interface-unconnected S F addr port refuses there = (
  record {
    address = record {
      sin_port = S.htons port;
      sin_addr = elim (S.inet_aton addr) [ none ↦ zeros 4 | some bytes ↦ bytes ];
      sin_zero = zeros 8;
    };
    handle = S.socket;
    connected = false;
  },
  ground (
    arith,
    refuses S.socket
        (record {
          sin_port = S.htons port;
          sin_addr = elim (S.inet_aton addr) [ none ↦ zeros 4 | some bytes ↦ bytes ];
          sin_zero = zeros 8;
        })
        8 (omega arith),
  ),
  refl,
  ground arith,
)

accepted-unix :
    (S : System) (F : WideFormat) (y : Endpoint) (handle : ℕ) (who : Option (ℕ × ℕ))
    → is_negative handle ≡ false
    → S.accept ≡ (handle, sockaddr_of y)
    → accepted (unix S F) ≡ ok who
    → who ≡ some (address_u64 S F (sockaddr_of y), handle)
unfolding accepted accept
accepted-unix S F y handle who valid from there = ground arith

-- On Unix, when a server accepts a peer from a host, at any port, one of whose other connections is
-- a client already, under the key that `AddressU64` gave for it then, and the two bytes of the key
-- that `AddressU64` does not write hold the same now as then, that client's entry is replaced: its
-- handle and what was received of its packet are gone, and the number of clients stays the same.
pub accept_client-SameHost :
    (S₀ S : System) (F : WideFormat) (i : MeshSocketInterface) (s : Sockets) (x y : Endpoint)
    (handle : ℕ) (old : Client)
    → S₀.stack 2 ≡ S.stack 2
    → length (S.stack 2) ≡ 2
    → AllBytes (S.stack 2)
    → AllBytes (endpoint_bytes x)
    → AllBytes (endpoint_bytes y)
    → is_negative handle ≡ false
    → S.accept ≡ (handle, sockaddr_of y)
    → accepted (unix S F) ≡ ok s.accepted
    → i.is_server ≡ true
    → s.status i.self_handle ≡ 1
    → SameHost x y
    → find (address_u64 S₀ F (sockaddr_of x)) i.clients ≡ some old
    → (i' : MeshSocketInterface) × (accept_client i s ≡ some i')
      × (find (address_u64 S₀ F (sockaddr_of x)) i'.clients
          ≡ some (record { buffer = empty_buffer; handle = handle }))
      × (length i'.clients ≡ length i.clients)
unfolding accept_client
accept_client-SameHost S₀ S F i s x y handle old same_rest two rest bx by valid from there server
      ready same known =
    let key = (unix_address_u64-eq_iff S₀ S F x y same_rest two rest bx by).1 same in
    let new : Client = record { buffer = empty_buffer; handle = handle } in
    let who : s.accepted ≡ some (address_u64 S F (sockaddr_of y), handle) =
      accepted-unix S F y handle s.accepted valid from there in
    (
      record i { clients = assign (address_u64 S F (sockaddr_of y)) new i.clients },
      ground arith,
      find-assign (address_u64 S₀ F (sockaddr_of x)) (address_u64 S F (sockaddr_of y)) new i.clients
          ∙ ground arith,
      length-assign_known (address_u64 S F (sockaddr_of y)) new old i.clients
          (sym (ap (λ k. find k i.clients) key) ∙ known),
    )
