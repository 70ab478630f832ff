-- ===== src/MeshSocket.antt =====
-- interfaces/mesh_socket_interface.h and .cpp: packets over a byte stream, each behind its length.
-- The sockets are the environment: `Sockets` says what `select`, `FIONREAD` and `recv` see.
pub mod Bounds
pub mod Clients
pub mod Frames
pub mod Reassembly
pub mod OneClient
pub mod Rounds
pub mod Calls
pub mod Transmit
pub mod Loop
pub mod Listening
pub mod Interface
pub mod Hello
pub mod Connect
use khawasu_pc.Base.{
  ℕ, ◌+◌, ◌-◌, ◌%◌, ◌^◌, ◌<◌, ◌≡◌, Bool, true, false, ◌&&◌, Option, none, some, List, [], ◌∷◌, ◌++◌,
  Bytes, leb, ltb, length, take, drop, min, ◌==◌, nat_eq, if◌then◌else◌,
}
use khawasu_pc.Base.Dict.{Dict, find, assign}
pub use khawasu_pc.Socket.Transfer.{status_except}

-- `sizeof(uint)`
abbrev pub word_size : ℕ
word_size = 4

-- How a `uint` lies in memory.
pub record WordFormat : Type 0 where
  pub encode : ℕ → Bytes
  pub decode : Bytes → ℕ
  pub length-encode : (n : ℕ) → length (encode n) ≡ word_size
  pub decode-encode : (n : ℕ) → n < 2 ^ 32 → decode (encode n) ≡ n

pub record ClientRecvBuffer : Type 0 where
  pub bytes : Bytes
  pub size : ℕ

pub record Client : Type 0 where
  pub buffer : ClientRecvBuffer
  pub handle : ℕ

abbrev pub empty_buffer : ClientRecvBuffer
empty_buffer = record { bytes = []; size = 0 }

-- What one look at a readable client comes to: its buffer, the bytes left in the socket, and the
-- packet handed to `controller->on_packet`.
pub record Polled : Type 0 where
  pub buffer : ClientRecvBuffer
  pub unread : Bytes
  pub packet : Option Bytes

-- As much of the packet as is there and as is missing.
unfoldable pub read_bytes : ClientRecvBuffer → Bytes → Polled
read_bytes b unread =
    let old_size = length b.bytes in
    let how_much = min (length unread) ((b.size + 2 ^ 64 - old_size) % 2 ^ 64) in
    let bytes = b.bytes ++ take how_much unread in
    let rest = drop how_much unread in
    if b.size == length bytes
    then record { buffer = empty_buffer; unread = rest; packet = some bytes }
    else record { buffer = record b { bytes = bytes }; unread = rest; packet = none }

module _ (W : WordFormat) where
  -- The size field, where a packet starts and four bytes are there.
  unfoldable pub read_size : ClientRecvBuffer → Bytes → ClientRecvBuffer × Bytes
  read_size b unread =
      if b.size == 0 && leb word_size (length unread)
      then (record b { size = W.decode (take word_size unread) }, drop word_size unread)
      else (b, unread)

  -- The body of the loop over the clients, for a client whose socket is readable.
  unfoldable pub poll_client : ClientRecvBuffer → Bytes → Polled
  unfolding read_size read_bytes
  poll_client b unread =
      if ltb 0 (length unread)
      then (let (b', rest) = read_size b unread in read_bytes b' rest)
      else record { buffer = b; unread = unread; packet = none }

  -- `send_packet` to a known client: the two `Send` calls.
  unfoldable pub frame : Bytes → Bytes
  frame packet = W.encode (length packet) ++ packet

-- The environment of one `check_packets`: the status of each socket by its handle, its unread
-- bytes, and whom `Accept` gives on the listening socket.
pub record Sockets : Type 0 where
  pub status : ℕ → ℕ
  pub unread : ℕ → Bytes
  pub accepted : Option (ℕ × ℕ)

pub record MeshSocketInterface : Type 0 where
  pub is_server : Bool
  pub self_handle : ℕ
  pub clients : Dict ℕ Client

-- What is done to the outside: bytes sent on a handle, and packets delivered with their address.
pub record Effects : Type 0 where
  pub unread : ℕ → Bytes
  pub delivered : List (ℕ × Bytes)

abbrev pub set_unread : (ℕ → Bytes) → ℕ → Bytes → ℕ → Bytes
set_unread f h bytes k = if h == k then bytes else f k

-- The first part of `check_packets`; `none` is its early return.
unfoldable pub accept_client : MeshSocketInterface → Sockets → Option MeshSocketInterface
accept_client i s =
    let status = s.status i.self_handle in
    let accepted : MeshSocketInterface = elim s.accepted [
      | none ↦ i
      | some (phy_addr, handle) ↦ record i {
        clients = assign phy_addr (record { buffer = empty_buffer; handle = handle }) i.clients;
      }
    ] in
    if i.is_server
    then (if status == status_except then none else if status == 1 then some accepted else some i)
    else some i

module _ (W : WordFormat) where
  unfoldable pub check_clients : (ℕ → ℕ) → Dict ℕ Client → Effects → Dict ℕ Client × Effects
  unfolding poll_client
  check_clients status [] e = ([], e)
  check_clients status ((addr, c) ∷ cs) e =
      let p = poll_client W c.buffer (e.unread c.handle) in
      let e' : Effects = record {
        unread = set_unread e.unread c.handle p.unread;
        delivered = elim p.packet [ none ↦ e.delivered | some bytes ↦ (addr, bytes) ∷ e.delivered ];
      } in
      let ready = status c.handle == 1 in
      let (cs', e'') = check_clients status cs (if ready then e' else e) in
      ((addr, if ready then record c { buffer = p.buffer } else c) ∷ cs', e'')

  unfoldable pub check_packets : MeshSocketInterface → Sockets → MeshSocketInterface × Effects
  unfolding accept_client check_clients
  check_packets i s =
      let e : Effects = record { unread = s.unread; delivered = [] } in
      elim (accept_client i s) [
        | none ↦ (i, e)
        | some i' ↦
            let (cs, e') = check_clients s.status i'.clients e in (record i' { clients = cs }, e')
      ]

  -- `send_packet`: the handle and the bytes sent on it, if the address is known.
  unfoldable pub send_packet : MeshSocketInterface → ℕ → Bytes → Option (ℕ × Bytes)
  unfolding frame
  send_packet i addr packet = elim (find addr i.clients) [
    | none ↦ none
    | some c ↦ some (c.handle, frame W packet)
  ]
