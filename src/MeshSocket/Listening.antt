-- ===== src/MeshSocket/Listening.antt =====
-- `check_packets` by calls of the socket's methods: the listening socket, then the loop.
use khawasu_pc.Base.{
  ℕ, ◌≡◌, refl, ap, arith, true, false, if◌then◌else◌, Option, none, some, List, [], ◌∷◌, Bytes,
  ◌==◌, nat_eq, Bool-cases, Option-cases, inl, inr,
}
use khawasu_pc.Base.Dict.{Dict, All, All-assign, assign}
use khawasu_pc.Base.Outcome.{Outcome, ok, ◌>>=◌}
use khawasu_pc.Socket.{Platform}
use khawasu_pc.MeshSocket.Interface.{accepted}
use khawasu_pc.Socket.Transfer.{status_except, Wire, Transfers, ReadsAll}
use khawasu_pc.MeshSocket.{
  WordFormat, Client, Sockets, MeshSocketInterface, empty_buffer, accept_client, check_packets,
}
use khawasu_pc.MeshSocket.OneClient.{beq_sym}
use khawasu_pc.MeshSocket.Loop.{look_at_all, DistinctHandles, Agrees, look_at_all-check_clients}

-- What one `check_packets` finds where it starts.
abbrev pub sockets_of : (Wire → ℕ → ℕ) → Option (ℕ × ℕ) → Wire → Sockets
sockets_of status accepted w = record { status = status w; unread = w.unread; accepted = accepted }

-- `status` is `GetStatus(handle, STATUS_READ, 0)`.
module _ (O : Platform) (W : WordFormat) (T : Transfers) (status : Wire → ℕ → ℕ) where
  -- The listening socket; `none` is the early return. `Accept` is called where a client waits.
  unfoldable pub accept_waiting : MeshSocketInterface → Wire → Outcome (Option MeshSocketInterface)
  accept_waiting i w =
      let result = status w i.self_handle in
      let accepting : Outcome (Option MeshSocketInterface) = (do
        client ← accepted O
        elim client [
          | none ↦ ok (some i)
          | some (phy_addr, client_sock) ↦ ok (
              some (record i {
                clients =
                    assign phy_addr (record { buffer = empty_buffer; handle = client_sock })
                      i.clients;
              }))
        ]) in
      if i.is_server
      then (if result == status_except
          then ok none
          else if result == 1
          then accepting
          else ok (some i))
      else ok (some i)

  -- All of `check_packets`.
  unfoldable pub look_at_sockets :
      MeshSocketInterface → Wire → Outcome (MeshSocketInterface × Wire × List (ℕ × Bytes))
  unfolding look_at_all accept_waiting
  look_at_sockets i w = do
    listened ← accept_waiting i w
    elim listened [
      | none ↦ ok (i, w, [])
      | some i' ↦
          let (cs, w', delivered) = look_at_all W T status i'.clients w [] in
          ok (record i' { clients = cs }, w', delivered)
    ]

  accept_waiting-accept_client :
      (i : MeshSocketInterface) (w : Wire) (who : Option (ℕ × ℕ))
      → (i.is_server ≡ true → (status w i.self_handle == 1) ≡ true → accepted O ≡ ok who)
      → accept_waiting i w ≡ ok (accept_client i (sockets_of status who w))
  unfolding accept_waiting accept_client
  accept_waiting-accept_client i w who accepts = elim (Bool-cases (status w i.self_handle == 1)) [
    | inr idle ↦ ground arith
    | inl waits ↦ elim (Bool-cases i.is_server) [
      | inr client ↦ ground arith
      | inl server ↦
          let gives = accepts server waits in
          elim (Option-cases who) [ inl nobody ↦ ground arith | inr (x, new) ↦ ground arith ]
    ]
  ]

-- No client has the handle.
abbrev pub Unused : ℕ → Dict ℕ Client → Type 0
Unused h cs = All (λ b (d : Client). (d.handle == h) ≡ false) cs

assign-DistinctHandles :
    (k : ℕ) (c : Client) (cs : Dict ℕ Client)
    → Unused c.handle cs
    → DistinctHandles cs
    → DistinctHandles (assign k c cs)
unfolding assign
assign-DistinctHandles k c [] unused distinct = (tt, tt)
assign-DistinctHandles k c ((j, d) ∷ cs) unused distinct = elim (Bool-cases (k == j)) [
  | inl same ↦ rw same (unused.1, distinct.1)
  | inr other ↦ rw other (
    All-assign (λ b (x : Client). (x.handle == d.handle) ≡ false) k c cs
        (beq_sym d.handle c.handle unused.0) distinct.0,
    assign-DistinctHandles k c cs unused.1 distinct.1,
  )
]

accept_client-DistinctHandles :
    (i i' : MeshSocketInterface) (s : Sockets)
    → ((a h : ℕ) → s.accepted ≡ some (a, h) → Unused h i.clients)
    → DistinctHandles i.clients
    → accept_client i s ≡ some i'
    → DistinctHandles i'.clients
unfolding accept_client
accept_client-DistinctHandles i i' s fresh distinct e = elim (Option-cases s.accepted) [
  | inl nobody ↦ ground arith
  | inr ((a, h), somebody) ↦ ground (
    arith,
    assign-DistinctHandles a (record { buffer = empty_buffer; handle = h }) i.clients
        (fresh a h somebody) distinct,
  )
]

seen : (s : ℕ → ℕ) (cs : Dict ℕ Client) → All (λ b (d : Client). s d.handle ≡ s d.handle) cs
seen s [] = tt
seen s ((b, d) ∷ cs) = (refl, seen s cs)

module _ (O : Platform) (W : WordFormat) (T : Transfers) (R : ReadsAll T)
    (status : Wire → ℕ → ℕ) where
  -- Where `FIONREAD` says how much is there, `Recv` gets all that it asks for if it is there, no two
  -- clients share a handle, `Accept` returns if a client waits, whoever it gives has a handle of its
  -- own, and the status of a socket depends on its own unread bytes alone, `check_packets` by calls,
  -- which asks for each status after it has read from the sockets before, returns what
  -- `check_packets` computes from the statuses and bytes at the start: the same interface, the same
  -- unread bytes, the same packets for the controller in the same order; also where the listening
  -- socket has an error.
  pub look_at_sockets-check_packets :
      (i : MeshSocketInterface) (who : Option (ℕ × ℕ)) (w : Wire)
      → ((v v' : Wire) (h : ℕ) → v.unread h ≡ v'.unread h → status v h ≡ status v' h)
      → DistinctHandles i.clients
      → (i.is_server ≡ true → (status w i.self_handle == 1) ≡ true → accepted O ≡ ok who)
      → ((a h : ℕ) → who ≡ some (a, h) → Unused h i.clients)
      → let (i₂, e) = check_packets W i (sockets_of status who w) in
        (w' : Wire) × (delivered : List (ℕ × Bytes)) × (look_at_sockets O W T status i w
          ≡ ok (i₂, w', delivered))
        × Agrees w' delivered e
  unfolding look_at_sockets check_packets
  look_at_sockets-check_packets i who w own distinct accepts fresh =
      let s = sockets_of status who w in
      let listened = accept_waiting-accept_client O W T status i w who accepts in
      elim (Option-cases (accept_client i s)) [
        | inl early ↦
            rw (early, check_packets)
              (w, [], rw (listened, look_at_sockets) (rw early refl), ((λ k. refl), refl))
        | inr (i', there) ↦
            let w' = (look_at_all W T status i'.clients w []).1 in
            let delivered = (look_at_all W T status i'.clients w []).2 in
            let (clients, rest) =
              look_at_all-check_clients W T R status (status w) i'.clients w []
                (record { unread = w.unread; delivered = [] }) own
                (accept_client-DistinctHandles i i' s fresh distinct there)
                (seen (status w) i'.clients) ((λ k. refl), refl) in
            rw (there, check_packets)
              (
                w',
                delivered,
                rw (listened, look_at_sockets)
                    (rw there (ap (λ cs. ok (record i' { clients = cs }, w', delivered)) clients)),
                rest,
              )
      ]
