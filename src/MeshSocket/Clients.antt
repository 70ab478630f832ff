-- ===== src/MeshSocket/Clients.antt =====
-- All clients of an interface through one `check_packets`.
use khawasu_pc.Base.{
  ℕ, ◌^◌, ◌<◌, ◌≡◌, ◌==◌, nat_eq, Bytes, Bool-cases, Option-cases, inl, inr, some, [], ◌∷◌, arith,
}
use khawasu_pc.Base.Dict.{Dict, All, All-assign}
use khawasu_pc.MeshSocket.{
  WordFormat, Client, Sockets, MeshSocketInterface, Effects, accept_client, check_clients,
  check_packets,
}
use khawasu_pc.MeshSocket.Bounds.{IsBounded, poll_client-IsBounded}

abbrev pub ClientIsBounded : ℕ → Client → Type 0
ClientIsBounded addr c = IsBounded c.buffer

accept_client-IsBounded :
    (i i' : MeshSocketInterface) (s : Sockets)
    → All ClientIsBounded i.clients
    → accept_client i s ≡ some i'
    → All ClientIsBounded i'.clients
unfolding accept_client
accept_client-IsBounded i i' s a e = elim (Option-cases s.accepted) [
  | inl nobody ↦ ground arith
  | inr ((addr, handle), somebody) ↦ ground (
    arith,
    All-assign ClientIsBounded addr
        (record { buffer = record { bytes = []; size = 0 }; handle = handle }) i.clients,
  )
]

module _ (W : WordFormat) (word : (bs : Bytes) → W.decode bs < 2 ^ 32) where
  check_clients-IsBounded :
      (status : ℕ → ℕ) (cs : Dict ℕ Client) (e : Effects)
      → All ClientIsBounded cs
      → All ClientIsBounded (check_clients W status cs e).0
  unfolding check_clients
  check_clients-IsBounded status [] e a = tt
  check_clients-IsBounded status ((addr, c) ∷ cs) e a = (
    elim (Bool-cases (status c.handle == 1)) [
      | inl ready ↦ rw ready (poll_client-IsBounded W c.buffer (e.unread c.handle) word a.0)
      | inr waiting ↦ rw waiting a.0
    ],
    check_clients-IsBounded status cs _ a.1,
  )

  -- Whatever the sockets hold, and whoever is accepted, if every client's receive buffer is within
  -- the size that was announced to it, and sizes fit 32 bits, so it is after `check_packets`.
  pub check_packets-IsBounded :
      (i : MeshSocketInterface) (s : Sockets)
      → All ClientIsBounded i.clients
      → All ClientIsBounded (check_packets W i s).0.clients
  unfolding check_packets
  check_packets-IsBounded i s a = elim (Option-cases (accept_client i s)) [
    | inl early ↦ rw (early, All, check_packets) a
    | inr (i', accepted) ↦
        rw (accepted, All, check_packets)
          (check_clients-IsBounded s.status i'.clients _
            (accept_client-IsBounded i i' s a accepted))
  ]
