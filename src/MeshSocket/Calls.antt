-- ===== src/MeshSocket/Calls.antt =====
-- The body of the loop of `check_packets` as calls of the socket's methods. What `Recv` returns is
-- not looked at: memory that it does not overwrite stays as it is.
use khawasu_pc.Base.{
  ℕ, ◌+◌, ◌-◌, ◌%◌, ◌^◌, ◌≤◌, ◌≡◌, refl, ◌∙◌, ap, sym, subst, true, false, ◌&&◌, Option, none, some,
  [], ◌++◌, Bytes, leb, ltb, length, take, drop, min, ◌==◌, nat_eq, if◌then◌else◌, arith, zero, suc,
  Bool-cases, inl, inr, length-take, length-drop,
}
use mathlib.Core.List.{append-nil}
use khawasu_pc.Socket.{zeros}
use khawasu_pc.Socket.Transfer.{Wire, Transfers, ReadsAll, update}
use khawasu_pc.MeshSocket.Frames.{drop-length}
use khawasu_pc.MeshSocket.{
  WordFormat, ClientRecvBuffer, Polled, empty_buffer, word_size, read_size, read_bytes, poll_client,
}

-- What lies in memory after a `Recv` to it.
abbrev pub overwrite : Bytes → Option Bytes → Bytes
overwrite old none = old
overwrite old (some new) = new ++ drop (length new) old

module _ (W : WordFormat) (T : Transfers) where
  -- The bytes behind the header: `data.resize` fills with zeros, and `Recv` writes there.
  unfoldable pub recv_bytes :
      Wire → ℕ → ClientRecvBuffer → ℕ → ClientRecvBuffer × Option Bytes × Wire
  recv_bytes w handle b how_much =
      let old_size = length b.bytes in
      let how_much' = min how_much ((b.size + 2 ^ 64 - old_size) % 2 ^ 64) in
      let (got, w') = T.recv w handle how_much' in
      let bytes = b.bytes ++ overwrite (zeros how_much') got in
      if b.size == length bytes
      then (empty_buffer, some bytes, w')
      else (record b { bytes = bytes }, none, w')

  -- The body of the loop over the clients, for a client whose socket is readable.
  unfoldable pub look_at : Wire → ℕ → ClientRecvBuffer → ClientRecvBuffer × Option Bytes × Wire
  unfolding recv_bytes
  look_at w handle b =
      let how_much = T.available w handle in
      let (header, w') = T.recv w handle word_size in
      let b' : ClientRecvBuffer = record b {
        size = W.decode (overwrite (W.encode b.size) header);
      } in
      if ltb 0 how_much
      then (if b.size == 0 && leb word_size how_much
          then recv_bytes w' handle b' (how_much - word_size)
          else recv_bytes w handle b how_much)
      else (b, none, w)

drop-zeros : (n : ℕ) → drop n (zeros n) ≡ []
drop-zeros zero = refl
drop-zeros (suc n) = drop-zeros n

overwrite-take :
    (n : ℕ) (xs : Bytes) → n ≤ length xs → overwrite (zeros n) (some (take n xs)) ≡ take n xs
overwrite-take n xs h =
    let e : length (take n xs) ≡ n = omega (arith, length-take n xs) in
    rw (e, drop-zeros n) (append-nil (take n xs))

-- `poll_client` on the bytes of a handle, and the handle's new bytes.
abbrev pub polled : Wire → ℕ → Polled → ClientRecvBuffer × Option Bytes × Wire
polled w handle q = (q.buffer, q.packet, record w { unread = update handle q.unread w.unread })

-- The buffer, the packet and the bytes left are those of `q`, and nothing else has changed.
abbrev pub LooksLike : Wire → ℕ → Polled → ClientRecvBuffer × Option Bytes × Wire → Type 0
LooksLike w handle q (b, packet, w') =
    (b ≡ q.buffer)
    × (packet ≡ q.packet)
    × ((k : ℕ) → w'.unread k ≡ (if k == handle then q.unread else w.unread k))
    × (w'.written ≡ w.written)

module _ (W : WordFormat) (T : Transfers) (R : ReadsAll T) where
  recv_bytes-read_bytes :
      (w : Wire) (handle how_much : ℕ) (b : ClientRecvBuffer) (u : Bytes)
      → w.unread handle ≡ u
      → how_much ≡ length u
      → recv_bytes W T w handle b how_much ≡ polled w handle (read_bytes b u)
  unfolding recv_bytes read_bytes
  recv_bytes-read_bytes w handle how_much b u there all =
      let n = min (length u) ((b.size + 2 ^ 64 - length b.bytes) % 2 ^ 64) in
      let bound : n ≤ length u = omega arith in
      let got : T.recv w handle n
          ≡ (some (take n u), record w { unread = update handle (drop n u) w.unread }) =
        R.recv_lem w handle n (subst (λ x. n ≤ length x) (sym there) bound) ∙ rw there refl in
      rw (all, recv_bytes, got, overwrite-take n u bound)
        (elim (Bool-cases (b.size == length (b.bytes ++ take n u))) [
          | inl full ↦ rw (full, read_bytes) refl
          | inr short ↦ rw (short, read_bytes) refl
        ])

  look_at-inside :
      (w : Wire) (handle : ℕ) (b : ClientRecvBuffer)
      → ltb 0 (length (w.unread handle)) ≡ true
      → (b.size == 0 && leb word_size (length (w.unread handle))) ≡ false
      → look_at W T w handle b ≡ polled w handle (poll_client W b (w.unread handle))
  unfolding look_at poll_client read_size
  look_at-inside w handle b some_there going =
      rw (look_at, R.available_lem w handle, some_there, going, poll_client)
        (recv_bytes-read_bytes w handle (length (w.unread handle)) b (w.unread handle) refl refl)

  -- The header is read by a `Recv` of its own.
  abbrev pub after_header : Wire → ℕ → Wire
  after_header w handle = record w {
    unread = update handle (drop word_size (w.unread handle)) w.unread;
  }

  overwrite-header :
      (n : ℕ) (u : Bytes)
      → word_size ≤ length u
      → overwrite (W.encode n) (some (take word_size u)) ≡ take word_size u
  overwrite-header n u h =
      let e : length (take word_size u) ≡ length (W.encode n) =
        omega (arith, length-take word_size u, W.length-encode n) in
      rw (e, drop-length (W.encode n)) (append-nil (take word_size u))

  look_at-starts :
      (w : Wire) (handle : ℕ) (b : ClientRecvBuffer)
      → ltb 0 (length (w.unread handle)) ≡ true
      → (b.size == 0 && leb word_size (length (w.unread handle))) ≡ true
      → look_at W T w handle b
        ≡ polled (after_header w handle) handle (poll_client W b (w.unread handle))
  unfolding look_at poll_client read_size
  look_at-starts w handle b some_there starts =
      let u = w.unread handle in
      let h : word_size ≤ length u = ground arith in
      let left : (after_header w handle).unread handle ≡ drop word_size u =
        rw ((nat_eq.beq_iff handle handle).1 refl) refl in
      rw
        (
          look_at,
          R.available_lem w handle,
          some_there,
          starts,
          R.recv_lem w handle word_size h,
          overwrite-header b.size u h,
          poll_client,
        )
        (recv_bytes-read_bytes (after_header w handle) handle (length u - word_size)
          (record b { size = W.decode (take word_size u) }) (drop word_size u) left
          (sym (length-drop word_size u)))

  polled-LooksLike : (w : Wire) (handle : ℕ) (q : Polled) → LooksLike w handle q (polled w handle q)
  polled-LooksLike w handle q = (refl, refl, (λ k. refl), refl)

  after_header-LooksLike :
      (w : Wire) (handle : ℕ) (q : Polled)
      → LooksLike w handle q (polled (after_header w handle) handle q)
  after_header-LooksLike w handle q = (
    refl,
    refl,
    λ k. elim (Bool-cases (k == handle)) [ inl same ↦ rw same refl | inr other ↦ rw other refl ],
    refl,
  )

  -- Where `FIONREAD` says how much is there, and `Recv` gets all that it asks for if it is there, a
  -- look at a client's socket by calls comes to
  -- what `poll_client` says of the bytes that are there: the same receive buffer, the same packet
  -- for the controller, the same bytes left; and no other socket is touched.
  pub look_at-poll_client :
      (w : Wire) (handle : ℕ) (b : ClientRecvBuffer)
      → LooksLike w handle (poll_client W b (w.unread handle)) (look_at W T w handle b)
  unfolding look_at poll_client
  look_at-poll_client w handle b = elim (Bool-cases (ltb 0 (length (w.unread handle)))) [
    | inr nothing ↦
        rw (look_at, R.available_lem w handle, nothing, poll_client)
          (
            refl,
            refl,
            λ k. elim (Bool-cases (k == handle)) [
              | inl same ↦ rw same (ap w.unread ((nat_eq.beq_iff k handle).0 same))
              | inr other ↦ rw other refl
            ],
            refl,
          )
    | inl some_there ↦ elim (Bool-cases (b.size == 0 && leb word_size (length (w.unread handle)))) [
      | inl starts ↦
          subst (LooksLike w handle (poll_client W b (w.unread handle)))
            (sym (look_at-starts w handle b some_there starts)) (after_header-LooksLike w handle _)
      | inr inside ↦
          subst (LooksLike w handle (poll_client W b (w.unread handle)))
            (sym (look_at-inside w handle b some_there inside)) (polled-LooksLike w handle _)
    ]
  ]
