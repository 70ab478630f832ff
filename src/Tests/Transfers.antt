-- ===== src/Tests/Transfers.antt =====
-- Sockets by their calls: a kernel that takes at most six bytes at once.
use khawasu_pc.Base.{
  ℕ, ◌≡◌, refl, List, true, Option, none, some, [], ◌∷◌, ◌++◌, Bytes, length, ltb, min, nat_eq, ap,
  subst, ◌==◌, if◌then◌else◌, arith,
}
use khawasu_pc.Base.Dict.{find}
use khawasu_pc.Socket.Transfer.{Wire, Kernel, Transfers, ReadsAll, SendsPart, status_read, checked}
use khawasu_pc.Socket.Unix.Streams.{get_available_bytes, get_status, recv, send}
use khawasu_pc.MeshSocket.{
  MeshSocketInterface, empty_buffer, frame, poll_client, send_packet, check_packets,
}
use khawasu_pc.MeshSocket.Loop.{Agrees}
use khawasu_pc.MeshSocket.Listening.{
  Unused, look_at_sockets, sockets_of, look_at_sockets-check_packets,
}
use khawasu_pc.MeshSocket.Transmit.{transmit, transmit-send_packet, transmit-cut}
use khawasu_pc.MeshSocket.Interface.{accepted}
use khawasu_pc.Base.Outcome.{ok}
use khawasu_pc.Socket.Unix
use khawasu_pc.Tests.Fixtures.{little_endian}
use khawasu_pc.Tests.Socket.{system, wide_little_endian}

abbrev kernel : Kernel
kernel = record {
  send = λ w h bytes n. some (min n 6);
  recv = λ w h n. some n;
  available = λ w h. some (length (w.unread h));
  select = λ w h s time. (some (if ltb 0 (length (w.unread h)) then 1 else 0), time);
  errno = λ w. 0;
}

abbrev unix : Transfers
unix = record { available = get_available_bytes kernel; recv = recv kernel; send = send kernel }

unix-ReadsAll : ReadsAll unix
unfolding get_available_bytes recv
unix-ReadsAll = record { available_lem = λ w h. refl; recv_lem = λ w h n l. refl }

-- How many bytes of a call are taken.
abbrev six_at_most : ℕ → Bytes → ℕ
six_at_most h bytes = min (length bytes) 6

unix-SendsPart : SendsPart unix six_at_most
unfolding send
unix-SendsPart = record { send_lem = λ w h bytes. refl }

abbrev wire : Wire
wire = record {
  unread = λ h. if h == 5 then 2 ∷ 0 ∷ 0 ∷ 0 ∷ 8 ∷ 9 ∷ 1 ∷ [] else [];
  written = λ h. [];
  is_open = λ h. true;
}

-- `GetStatus(handle, STATUS_READ, 0)` where no call has been made before.
abbrev readable : Wire → ℕ → ℕ
readable w h = (get_status kernel (some 0) w h status_read 0).0

readable-own : (w w' : Wire) (h : ℕ) → w.unread h ≡ w'.unread h → readable w h ≡ readable w' h
unfolding get_status
readable-own w w' h same = ap (λ u. checked (if ltb 0 (length u) then 1 else 0)) same

abbrev one_client : MeshSocketInterface
one_client = record {
  is_server = true;
  self_handle = 0;
  clients = (1, record { buffer = empty_buffer; handle = 5 }) ∷ [];
}

-- A peer waits at the listening socket, too.
abbrev knocking : Wire
knocking = record wire { unread = λ h. if h == 0 then 1 ∷ [] else wire.unread h }

abbrev newcomer : Option (ℕ × ℕ)
newcomer = some (16777343, 6)

gives : accepted (Unix.unix system wide_little_endian) ≡ ok newcomer
unfolding accepted Unix.accept Unix.address_u64
gives = refl

fresh : (a h : ℕ) → newcomer ≡ some (a, h) → Unused h one_client.clients
fresh a h e = let six : 6 ≡ h = cc in subst (λ x. Unused x one_client.clients) six (refl, tt)

-- The second client is accepted, and the first one has sent a packet.
look_at_sockets-check_packets_example :
    let (i₂, e) = check_packets little_endian one_client (sockets_of readable newcomer knocking) in
    (w' : Wire) × (delivered : List (ℕ × Bytes)) × (look_at_sockets
        (Unix.unix system wide_little_endian)
        little_endian
        unix
        readable
        one_client
        knocking
      ≡ ok (i₂, w', delivered))
    × Agrees w' delivered e
look_at_sockets-check_packets_example =
    look_at_sockets-check_packets (Unix.unix system wide_little_endian) little_endian unix
      unix-ReadsAll readable one_client newcomer knocking readable-own (tt, tt) (λ s r. gives) fresh

transmit-send_packet_example :
    (transmit little_endian unix wire one_client 1 (7 ∷ 8 ∷ [])).written 5
    ≡ (elim (send_packet little_endian one_client 1 (7 ∷ 8 ∷ [])) [
      | none ↦ wire.written 5
      | some (h, bytes) ↦ if 5 == h then wire.written h ++ bytes else wire.written 5
    ])
transmit-send_packet_example =
    transmit-send_packet little_endian unix six_at_most unix-SendsPart wire one_client 1 5
      (7 ∷ 8 ∷ []) λ h. (omega arith, omega arith)

-- Two of eight bytes are not taken, and the next packet follows.
transmit-cut_example :
    poll_client little_endian empty_buffer (
      (transmit little_endian unix
          (transmit little_endian unix wire one_client 1 (1 ∷ 2 ∷ 3 ∷ 4 ∷ 5 ∷ 6 ∷ 7 ∷ 8 ∷ []))
          one_client
          1
          (9 ∷ [])).written
        5)
    ≡ record {
      buffer = empty_buffer;
      unread = 0 ∷ 0 ∷ 9 ∷ [];
      packet = some (1 ∷ 2 ∷ 3 ∷ 4 ∷ 5 ∷ 6 ∷ 1 ∷ 0 ∷ []);
    }
unfolding find frame
transmit-cut_example =
    transmit-cut little_endian unix six_at_most unix-SendsPart wire one_client 1 6
      (record { buffer = empty_buffer; handle = 5 }) (1 ∷ 2 ∷ 3 ∷ 4 ∷ 5 ∷ 6 ∷ 7 ∷ 8 ∷ []) (9 ∷ [])
      refl refl (omega arith, omega arith) (omega arith) refl (omega arith)
      (omega arith, omega arith) (omega arith)
