-- ===== src/MeshSocket/Interface.antt =====
-- The constructor and the destructor of `MeshSocketInterface`, over either implementation of
-- `Socket`, and `send_hello`.
use Prim.Native.String.{String}
use khawasu_pc.Base.{
  ℕ, Bool, Option, none, some, List, [], ◌∷◌, ◌++◌, true, false, Bytes, map, nat_eq, if◌then◌else◌,
}
use khawasu_pc.Base.Outcome.{Outcome, ok, fault, ◌>>=◌, connection_exception}
use khawasu_pc.Base.Dict.{Dict}
use khawasu_pc.Socket.{Platform}
use khawasu_pc.MeshSocket.{WordFormat, Client, empty_buffer, MeshSocketInterface, send_packet}

module _ (O : Platform) where
  -- The constructor: a server has no clients yet, a client has its server as the only one.
  unfoldable pub mesh_socket_interface : String → ℕ → Bool → Outcome MeshSocketInterface
  mesh_socket_interface addr port is_server =
      if is_server
      then (do
        handle ← O.create addr port
        ok (record { is_server = true; self_handle = handle; clients = [] }))
      else elim (O.connect addr port) [
        | none ↦ fault connection_exception
        | some c ↦ ok (record {
          is_server = false;
          self_handle = c.handle;
          clients =
              (O.address_u64 c.address, record { buffer = empty_buffer; handle = c.handle }) ∷ [];
        })
      ]

  -- Whom `check_packets` finds accepted: the key and the handle.
  unfoldable pub accepted : Outcome (Option (ℕ × ℕ))
  accepted = do
    client ← O.accept
    elim client [
      | none ↦ ok none
      | some (client_addr, client_sock) ↦ ok (some (O.address_u64 client_addr, client_sock))
    ]

-- The destructor: the handles that are closed, in order.
unfoldable pub close_all : MeshSocketInterface → List ℕ
close_all i = map (λ (e : ℕ × Client). e.1.handle) i.clients ++ i.self_handle ∷ []

module _ (W : WordFormat) where
  -- The loop of `send_hello`: what is sent, and on which handle.
  unfoldable pub send_each : MeshSocketInterface → Bytes → Dict ℕ Client → List (ℕ × Bytes)
  send_each i packet [] = []
  send_each i packet ((addr, client) ∷ clients) =
      let rest = send_each i packet clients in
      elim (send_packet W i addr packet) [ none ↦ rest | some s ↦ s ∷ rest ]

  -- `packet` is the hello packet with the controller's network name.
  unfoldable pub send_hello : MeshSocketInterface → Bytes → Option ℕ → List (ℕ × Bytes)
  unfolding send_each
  send_hello i packet none = send_each i packet i.clients
  send_hello i packet (some addr) = elim (send_packet W i addr packet) [
    | none ↦ []
    | some s ↦ s ∷ []
  ]
