-- ===== src/Tests/MeshSocket.antt =====
-- A packet of three bytes that arrives in two pieces, and a header that is cut.
use khawasu_pc.Base.{
  true, ◌^◌, ℕ, ◌==◌, if◌then◌else◌, none, ◌<◌, ◌≡◌, refl, List, [], ◌∷◌, Bytes, some, nat_eq,
  arith, inr,
}
use khawasu_pc.Base.Dict.{find, assign, All as AllEntries}
use khawasu_pc.MeshSocket.{
  MeshSocketInterface, Sockets, empty_buffer, frame, poll_client, check_packets,
}
use khawasu_pc.MeshSocket.Clients.{ClientIsBounded, check_packets-IsBounded}
use khawasu_pc.MeshSocket.Frames.{Fits, All, stream}
use khawasu_pc.MeshSocket.Reassembly.{WholeHeaders, run_client, join}
use khawasu_pc.MeshSocket.Rounds.{
  Round, Tracks, AllServed, run_rounds, received, run_rounds-run_client, run_rounds_complete,
}
use khawasu_pc.Tests.Fixtures.{little_endian, little_number}

abbrev packets : List Bytes
packets = (1 ∷ 2 ∷ 3 ∷ []) ∷ []

abbrev pieces : List Bytes
pieces = (3 ∷ 0 ∷ 0 ∷ 0 ∷ 1 ∷ []) ∷ (2 ∷ 3 ∷ []) ∷ []

packets-fit : All Fits packets
packets-fit = ((omega arith, omega arith), tt)

join-pieces : join little_endian pieces ≡ stream little_endian packets
unfolding frame
join-pieces = refl

pieces-WholeHeaders : WholeHeaders little_endian empty_buffer [] pieces
unfolding poll_client
pieces-WholeHeaders = ((λ e. inr (omega arith)), ((λ e. absurd (omega arith)), tt))

run_client-pieces : (run_client little_endian empty_buffer [] pieces).2 ≡ []
unfolding run_client
run_client-pieces = refl

little_number-lt : (bs : Bytes) → little_number bs < 2 ^ 32
little_number-lt [] = omega arith
little_number-lt (a ∷ []) = omega arith
little_number-lt (a ∷ b ∷ []) = omega arith
little_number-lt (a ∷ b ∷ c ∷ []) = omega arith
little_number-lt (a ∷ b ∷ c ∷ d ∷ rest) = omega arith

-- A server with one client whose header and first byte have come, and a second client to accept.
abbrev server : MeshSocketInterface
server = record {
  is_server = true;
  self_handle = 0;
  clients = (1, record { buffer = empty_buffer; handle = 5 }) ∷ [];
}

abbrev sockets : Sockets
sockets = record {
  status = λ handle. 1;
  unread = λ handle. 9 ∷ 0 ∷ 0 ∷ 0 ∷ 1 ∷ [];
  accepted = some (2, 6);
}

check_packets-IsBounded_example :
    AllEntries ClientIsBounded (check_packets little_endian server sockets).0.clients
check_packets-IsBounded_example =
    check_packets-IsBounded little_endian little_number-lt server sockets
      ((omega arith, omega arith), tt)

-- Two clients send at once: the packet of the first comes in two pieces, that of the second at
-- once, and a third client is accepted in between.
abbrev rounds : List Round
rounds =
    record {
      status = λ handle. 1;
      arrived = λ handle. if handle == 5 then 3 ∷ 0 ∷ 0 ∷ 0 ∷ 1 ∷ [] else 1 ∷ 0 ∷ 0 ∷ 0 ∷ 9 ∷ [];
      accepted = some (3, 7);
    }
    ∷ record {
      status = λ handle. 1;
      arrived = λ handle. if handle == 5 then 2 ∷ 3 ∷ [] else [];
      accepted = none;
    }
    ∷ []

abbrev two_clients : MeshSocketInterface
two_clients = record {
  is_server = true;
  self_handle = 0;
  clients =
      (1, record { buffer = empty_buffer; handle = 5 })
      ∷ (2, record { buffer = empty_buffer; handle = 6 })
      ∷ [];
}

abbrev nothing_yet : ℕ → Bytes
nothing_yet handle = []

two_clients-Tracks : Tracks 1 5 (record { buffer = empty_buffer; handle = 5 }) two_clients
unfolding find
two_clients-Tracks = record { map = (refl, (refl, tt)); own = (refl, (refl, tt)); found = refl }

rounds-AllServed : AllServed little_endian 1 5 two_clients nothing_yet rounds
unfolding check_packets
rounds-AllServed = (
  record { listening = refl; another = λ a g e. ground arith; readable = λ e. cc },
  (record { listening = refl; another = λ a g e. cc; readable = λ e. cc }, tt),
)

run_rounds-rounds : (run_rounds little_endian two_clients nothing_yet rounds).2 5 ≡ []
unfolding run_rounds assign
run_rounds-rounds = refl

run_rounds-run_client_example :
    let (out, i', unread') = run_rounds little_endian two_clients nothing_yet rounds in
    let (ps, b, left) = run_client little_endian empty_buffer [] pieces in
    (received 1 out ≡ ps)
    × (find 1 i'.clients ≡ some (record { buffer = b; handle = 5 }))
    × (unread' 5 ≡ left)
run_rounds-run_client_example =
    run_rounds-run_client little_endian 1 5 nothing_yet
      (record { buffer = empty_buffer; handle = 5 }) two_clients rounds two_clients-Tracks
      rounds-AllServed

run_rounds_complete_example :
    received 1 (run_rounds little_endian two_clients nothing_yet rounds).0 ≡ packets
run_rounds_complete_example =
    run_rounds_complete little_endian 1 5 nothing_yet two_clients rounds packets two_clients-Tracks
      refl rounds-AllServed packets-fit join-pieces pieces-WholeHeaders run_rounds-rounds
