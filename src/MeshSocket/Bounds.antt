-- ===== src/MeshSocket/Bounds.antt =====
-- A receive buffer never outgrows the size that its header announced, and a header cut in pieces.
use khawasu_pc.Base.{
  ℕ, ◌+◌, ◌-◌, ◌^◌, ◌%◌, ◌≤◌, ◌<◌, ◌≡◌, Bytes, some, [], length, take, drop, nat_eq, ◌==◌, leb, ltb,
  ◌&&◌, min, arith, length-append, length-take, Bool-cases, inl, inr,
}
use khawasu_pc.MeshSocket.{
  WordFormat, ClientRecvBuffer, empty_buffer, word_size, read_size, read_bytes, poll_client,
}

-- Fewer bytes than announced, or none and nothing announced.
abbrev pub IsBounded : ClientRecvBuffer → Type 0
IsBounded b = (length b.bytes ≤ b.size) × (b.size < 2 ^ 32)

read_bytes-IsBounded :
    (b : ClientRecvBuffer) (unread : Bytes) → IsBounded b → IsBounded (read_bytes b unread).buffer
unfolding read_bytes
read_bytes-IsBounded b unread h =
    let k : ℕ = min (length unread) ((b.size + 2 ^ 64 - length b.bytes) % 2 ^ 64) in
    ground (arith, length-append b.bytes (take k unread), length-take k unread)

module _ (W : WordFormat) where
  -- Where a packet starts and one to three bytes have come, the controller is handed an empty
  -- packet, and nothing is read.
  pub poll_client-split_header :
      (unread : Bytes)
      → 0 < length unread
      → length unread < word_size
      → poll_client W empty_buffer unread
        ≡ record { buffer = empty_buffer; unread = unread; packet = some [] }
  unfolding poll_client read_size read_bytes
  poll_client-split_header unread h k =
      let e : min (length unread) ((0 + 2 ^ 64 - 0) % 2 ^ 64) ≡ 0 = omega arith in ground arith

  -- Whatever bytes come, a buffer stays within the size that was announced.
  pub poll_client-IsBounded :
      (b : ClientRecvBuffer) (unread : Bytes)
      → ((bs : Bytes) → W.decode bs < 2 ^ 32)
      → IsBounded b
      → IsBounded (poll_client W b unread).buffer
  unfolding poll_client
  poll_client-IsBounded b unread word h = elim (Bool-cases (ltb 0 (length unread))) [
    | inl some_there ↦
        rw some_there (elim (Bool-cases (b.size == 0 && leb word_size (length unread))) [
          | inl starts ↦ rw starts (
              read_bytes-IsBounded (record b { size = W.decode (take word_size unread) })
                (drop word_size unread) (ground (arith, word (take word_size unread))))
          | inr inside ↦ rw inside (read_bytes-IsBounded b unread h)
        ])
    | inr nothing ↦ rw nothing h
  ]
