-- ===== src/MeshSocket/Rounds.antt =====
-- `check_packets` again and again, with many clients: what it does for one of them.
use khawasu_pc.Base.{
  ℕ, ◌≡◌, refl, ◌∙◌, ap, sym, subst, false, Option, some, List, [], ◌∷◌, ◌++◌, Bytes, nat_eq, ◌==◌,
  Bool-cases, Option-cases, inl, inr,
}
use mathlib.Core.List.{append-nil}
use khawasu_pc.Base.Dict.{find, assign, IsMap, All-assign, find-assign, assign-IsMap}
use khawasu_pc.MeshSocket.{
  WordFormat, Client, Sockets, MeshSocketInterface, Effects, accept_client, check_packets,
  poll_client, status_except, empty_buffer,
}
use khawasu_pc.MeshSocket.Frames.{Fits, All, stream}
use khawasu_pc.MeshSocket.Reassembly.{
  delivered, run_client, join, WholeHeaders, run_client_complete,
}
use khawasu_pc.MeshSocket.OneClient.{
  of_client, Own, beq_sym, check_clients-IsMap, check_clients-Own, check_clients-present,
}

-- A look at all clients in its environment: select's readings, the bytes that have arrived since
-- the look before, and whom `Accept` gives.
pub record Round : Type 0 where
  pub status : ℕ → ℕ
  pub arrived : ℕ → Bytes
  pub accepted : Option (ℕ × ℕ)

abbrev pub environment : (ℕ → Bytes) → Round → Sockets
environment unread r = record {
  status = r.status;
  unread = λ handle. unread handle ++ r.arrived handle;
  accepted = r.accepted;
}

-- The client `k`, its handle `h`, and its entry in the interface.
pub record Tracks (k h : ℕ) (c : Client) (i : MeshSocketInterface) : Type 0 where
  pub map : IsMap i.clients
  pub own : Own k h i.clients
  pub found : find k i.clients ≡ some c

-- A round that leaves the client its place: the listening socket has no error, whoever is accepted
-- has another address and another handle, and select finds the client's socket readable wherever
-- bytes are there.
pub record Serves (k h : ℕ) (unread : ℕ → Bytes) (i : MeshSocketInterface) (r : Round)
    : Type 0 where
  pub listening : (r.status i.self_handle == status_except) ≡ false
  pub another : (a g : ℕ) → r.accepted ≡ some (a, g) → ((k == a) ≡ false) × ((g == h) ≡ false)
  pub readable : (r.status h == 1) ≡ false → unread h ++ r.arrived h ≡ []

assign-Tracks :
    (k h a : ℕ) (c d : Client) (i : MeshSocketInterface)
    → Tracks k h c i
    → (k == a) ≡ false
    → (d.handle == h) ≡ false
    → Tracks k h c (record i { clients = assign a d i.clients })
assign-Tracks k h a c d i t address handle = record {
  map = assign-IsMap a d i.clients t.map;
  own =
      All-assign (λ a (c : Client). (c.handle == h) ≡ (a == k)) a d i.clients
        (handle ∙ sym (beq_sym k a address)) t.own;
  found = find-assign k a d i.clients ∙ rw address t.found;
}

accept_client-Tracks :
    (k h : ℕ) (unread : ℕ → Bytes) (c : Client) (i : MeshSocketInterface) (r : Round)
    → Tracks k h c i
    → Serves k h unread i r
    → (i' : MeshSocketInterface) × (accept_client i (environment unread r) ≡ some i')
      × Tracks k h c i'
unfolding accept_client
accept_client-Tracks k h unread c i r t s = elim (Bool-cases i.is_server) [
  | inr client ↦ (i, simp client, t)
  | inl server ↦ elim (Bool-cases (r.status i.self_handle == 1)) [
    | inr waiting ↦ (i, simp (server, s.listening, waiting), t)
    | inl ready ↦ elim (Option-cases r.accepted) [
      | inl nobody ↦ (i, simp (server, s.listening, ready, nobody), t)
      | inr ((a, g), somebody) ↦
          let (address, handle) = s.another a g somebody in
          let d : Client = record { buffer = empty_buffer; handle = g } in
          (
            record i { clients = assign a d i.clients },
            simp (server, s.listening, ready, somebody),
            assign-Tracks k h a c d i t address handle,
          )
    ]
  ]
]

module _ (W : WordFormat) where
  check_packets-Tracks :
      (k h : ℕ) (unread : ℕ → Bytes) (c : Client) (i : MeshSocketInterface) (r : Round)
      → Tracks k h c i
      → Serves k h unread i r
      → let q = poll_client W c.buffer (unread h ++ r.arrived h) in
        let (i', e) = check_packets W i (environment unread r) in
        Tracks k h (record c { buffer = q.buffer }) i'
        × (e.unread h ≡ q.unread)
        × (of_client k e.delivered ≡ delivered q.packet)
  unfolding check_packets
  check_packets-Tracks k h unread c i r t s =
      let (i', accepted, t') = accept_client-Tracks k h unread c i r t s in
      let e : Effects = record { unread = (environment unread r).unread; delivered = [] } in
      let (found, u, p) =
        check_clients-present W r.status k h i'.clients e c t'.map t'.own t'.found s.readable in
      rw (accepted, check_packets)
        (
          record {
            map = check_clients-IsMap W r.status i'.clients e t'.map;
            own = check_clients-Own W r.status k h i'.clients e t'.own;
            found = found;
          },
          u,
          p ∙ append-nil _,
        )

  -- The rounds in turn, and what is delivered in each.
  unfoldable pub run_rounds :
      MeshSocketInterface
      → (ℕ → Bytes)
      → List Round
      → List (List (ℕ × Bytes)) × MeshSocketInterface × (ℕ → Bytes)
  unfolding check_packets
  run_rounds i unread [] = ([], i, unread)
  run_rounds i unread (r ∷ rs) =
      let (i', e) = check_packets W i (environment unread r) in
      let (out, i'', left) = run_rounds i' e.unread rs in (e.delivered ∷ out, i'', left)

  abbrev pub AllServed : ℕ → ℕ → MeshSocketInterface → (ℕ → Bytes) → List Round → Type 0
  AllServed k h i unread [] = Unit
  AllServed k h i unread (r ∷ rs) =
      let (i', e) = check_packets W i (environment unread r) in
      Serves k h unread i r × AllServed k h i' e.unread rs

-- What has been delivered of one client, round after round.
abbrev pub received : ℕ → List (List (ℕ × Bytes)) → List Bytes
received k [] = []
received k (d ∷ ds) = of_client k d ++ received k ds

-- What has arrived on one handle in each round.
abbrev pub pieces_of : ℕ → List Round → List Bytes
pieces_of h [] = []
pieces_of h (r ∷ rs) = r.arrived h ∷ pieces_of h rs

module _ (W : WordFormat) where
  -- One client among many, with its own handle, over any sequence of `check_packets`: if no round
  -- finds an error of the listening socket, whoever is accepted has another address and another
  -- handle, and select reports the client's socket wherever bytes are there, then what is delivered
  -- under its address, its receive buffer and what stays unread are those of a receiver that looks
  -- at this client alone.
  pub run_rounds-run_client :
      (k h : ℕ) (unread : ℕ → Bytes) (c : Client) (i : MeshSocketInterface) (rs : List Round)
      → Tracks k h c i
      → AllServed W k h i unread rs
      → let (out, i', unread') = run_rounds W i unread rs in
        let (ps, b, left) = run_client W c.buffer (unread h) (pieces_of h rs) in
        (received k out ≡ ps)
        × (find k i'.clients ≡ some (record c { buffer = b }))
        × (unread' h ≡ left)
  unfolding run_rounds run_client
  run_rounds-run_client k h unread c i [] t s = (refl, t.found, refl)
  run_rounds-run_client k h unread c i (r ∷ rs) t s =
      let (t', u, p) = check_packets-Tracks W k h unread c i r t s.0 in
      let (i', e) = check_packets W i (environment unread r) in
      let q = poll_client W c.buffer (unread h ++ r.arrived h) in
      let (out, i'', unread'') = run_rounds W i' e.unread rs in
      let (ps, found, left) =
        subst
          (λ x.
            let (ps, b, left) = run_client W q.buffer x (pieces_of h rs) in
            (received k out ≡ ps)
            × (find k i''.clients ≡ some (record c { buffer = b }))
            × (unread'' h ≡ left))
          u (run_rounds-run_client k h e.unread (record c { buffer = q.buffer }) i' rs t' s.1) in
      (ap (λ x. x ++ received k out) p ∙ ap (λ x. delivered q.packet ++ x) ps, found, left)

  -- A client with an empty receive buffer and nothing unread sends packets, none of them empty or
  -- of 2^32 bytes or more, each by `send_packet`. Its stream arrives in any pieces, before looks of
  -- `check_packets` at all clients, which leave the client its place as above and of which none
  -- finds only one to three bytes of a length. If in the end none of its bytes is unread, then
  -- exactly these packets have been delivered under its address, in order.
  pub run_rounds_complete :
      (k h : ℕ) (unread : ℕ → Bytes) (i : MeshSocketInterface) (rs : List Round) (ps : List Bytes)
      → Tracks k h (record { buffer = empty_buffer; handle = h }) i
      → unread h ≡ []
      → AllServed W k h i unread rs
      → All Fits ps
      → join W (pieces_of h rs) ≡ stream W ps
      → WholeHeaders W empty_buffer [] (pieces_of h rs)
      → (run_rounds W i unread rs).2 h ≡ []
      → received k (run_rounds W i unread rs).0 ≡ ps
  run_rounds_complete k h unread i rs ps t none_yet s fits whole headers done =
      let (out, b, left) =
        subst
          (λ x.
            let (out, b, left) = run_client W empty_buffer x (pieces_of h rs) in
            (received k (run_rounds W i unread rs).0 ≡ out)
            × (find k (run_rounds W i unread rs).1.clients
                ≡ some (record { buffer = b; handle = h }))
            × ((run_rounds W i unread rs).2 h ≡ left))
          none_yet
          (run_rounds-run_client k h unread (record { buffer = empty_buffer; handle = h }) i rs t
            s) in
      out ∙ run_client_complete W ps (pieces_of h rs) fits whole headers (sym left ∙ done)
