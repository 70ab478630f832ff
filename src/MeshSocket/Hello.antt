-- ===== src/MeshSocket/Hello.antt =====
-- Every client gets a broadcast, because no address stands twice among them.
use Prim.Native.String.{String}
use khawasu_pc.Base.{
  ℕ, ◌≡◌, refl, Bool, none, some, [], ◌∷◌, Bytes, map, nat_eq, arith, Option-cases, Bool-cases, inl,
  inr, ◌==◌,
}
use khawasu_pc.Base.Outcome.{ok, Ensures, Ensures-if, Ensures-bind, Ensures-option, Ensures-eq-ok}
use khawasu_pc.Base.Dict.{Dict, All, IsMap, find, assign-IsMap, All-find_own}
use khawasu_pc.Socket.{Platform}
use khawasu_pc.MeshSocket.{
  WordFormat, Client, empty_buffer, Sockets, MeshSocketInterface, Effects, accept_client,
  check_clients, check_packets, frame, send_packet,
}
use khawasu_pc.MeshSocket.Interface.{mesh_socket_interface, send_each, send_hello}

-- No two clients of an interface have one address.
abbrev pub IsValid : MeshSocketInterface → Type 0
IsValid i = IsMap i.clients

-- A new interface is valid.
pub mesh_socket_interface-IsValid :
    (O : Platform) (addr : String) (port : ℕ) (is_server : Bool)
    → Ensures IsValid (mesh_socket_interface O addr port is_server)
unfolding mesh_socket_interface find
mesh_socket_interface-IsValid O addr port is_server =
    Ensures-if IsValid is_server _ _ (Ensures-bind IsValid (O.create addr port) _ λ h e. tt)
      (Ensures-option IsValid (O.connect addr port) _ _ tt λ c e. (refl, tt))

accept_client-IsValid :
    (i i' : MeshSocketInterface) (s : Sockets)
    → IsValid i
    → accept_client i s ≡ some i'
    → IsValid i'
unfolding accept_client
accept_client-IsValid i i' s v e = elim (Option-cases s.accepted) [
  | inl nobody ↦ ground arith
  | inr ((addr, handle), somebody) ↦
      ground
        (arith, assign-IsMap addr (record { buffer = empty_buffer; handle = handle }) i.clients v)
]

module _ (W : WordFormat) where
  -- The loop over the clients keeps their addresses.
  find-check_clients :
      (status : ℕ → ℕ) (k : ℕ) (cs : Dict ℕ Client) (e : Effects)
      → find k cs ≡ none
      → find k (check_clients W status cs e).0 ≡ none
  unfolding check_clients find
  find-check_clients status k [] e h = refl
  find-check_clients status k ((addr, c) ∷ cs) e h = elim (Bool-cases (k == addr)) [
    | inl same ↦ ground arith
    | inr other ↦ rw other (find-check_clients status k cs _ (ground arith))
  ]

  check_clients-IsMap :
      (status : ℕ → ℕ) (cs : Dict ℕ Client) (e : Effects)
      → IsMap cs
      → IsMap (check_clients W status cs e).0
  unfolding check_clients
  check_clients-IsMap status [] e m = tt
  check_clients-IsMap status ((addr, c) ∷ cs) e m =
      (find-check_clients status addr cs _ m.0, check_clients-IsMap status cs _ m.1)

  pub check_packets-IsValid :
      (i : MeshSocketInterface) (s : Sockets) → IsValid i → IsValid (check_packets W i s).0
  unfolding check_packets
  check_packets-IsValid i s v = elim (Option-cases (accept_client i s)) [
    | inl early ↦ rw (early, IsMap, check_packets) v
    | inr (i', there) ↦
        rw (there, IsMap, check_packets)
          (check_clients-IsMap s.status i'.clients _ (accept_client-IsValid i i' s v there))
  ]

  send_each-map :
      (i : MeshSocketInterface) (packet : Bytes) (cs : Dict ℕ Client)
      → All (λ addr c. find addr i.clients ≡ some c) cs
      → send_each W i packet cs ≡ map (λ (e : ℕ × Client). (e.1.handle, frame W packet)) cs
  unfolding send_each send_packet
  send_each-map i packet [] a = refl
  send_each-map i packet ((addr, c) ∷ cs) a = ground (arith, send_each-map i packet cs a.1)

-- Interfaces as they come to be: constructed, and then any number of `check_packets`.
pub data Reach (O : Platform) (W : WordFormat) : MeshSocketInterface → Type 0 where
  constructed :
      {i : MeshSocketInterface} (addr : String) (port : ℕ) (is_server : Bool)
      → mesh_socket_interface O addr port is_server ≡ ok i
      → Reach O W i
  checked :
      {i : MeshSocketInterface} (s : Sockets) → Reach O W i → Reach O W (check_packets W i s).0

Reach-IsValid_lem :
    {O : Platform} {W : WordFormat} {i : MeshSocketInterface} → Reach O W i → IsValid i
Reach-IsValid_lem {O} (constructed addr port is_server e) =
    Ensures-eq-ok IsValid _ (mesh_socket_interface-IsValid O addr port is_server) e
Reach-IsValid_lem {O} {W} (checked s r) = check_packets-IsValid W _ s (Reach-IsValid_lem r)

-- At any time after an interface is constructed, whatever its sockets have brought, a broadcast of
-- `send_hello` sends the framed packet to each of its clients once, on that client's handle, and a
-- hello to one address sends it to the client of that address only, or to nobody.
pub send_hello-broadcast :
    (O : Platform) (W : WordFormat) (i : MeshSocketInterface) (packet : Bytes) (addr : ℕ)
    → Reach O W i
    → (send_hello W i packet none
        ≡ map (λ (e : ℕ × Client). (e.1.handle, frame W packet)) i.clients)
      × (send_hello W i packet (some addr)
          ≡ elim (find addr i.clients) [ none ↦ [] | some c ↦ (c.handle, frame W packet) ∷ [] ])
unfolding send_hello send_packet
send_hello-broadcast O W i packet addr r = (
  send_each-map W i packet i.clients (All-find_own i.clients (Reach-IsValid_lem r)),
  ground arith,
)
