-- ===== src/Socket/Unix/Streams.antt =====
-- socket/unixsocket.cpp: the methods that move bytes, ask for a socket's state, or close it.
use khawasu_pc.Base.{ℕ, false, Option, none, some, ◌++◌, Bytes, length, take, drop}
use khawasu_pc.Socket.Transfer.{Wire, Kernel, update, sets, checked}

module _ (K : Kernel) where
  -- The bytes that are copied to `buf`.
  unfoldable pub recv : Wire → ℕ → ℕ → Option Bytes × Wire
  recv w handle buf_len = elim (K.recv w handle buf_len) [
    | none ↦ (none, w)
    | some read_bytes ↦ (
      some (take read_bytes (w.unread handle)),
      record w { unread = update handle (drop read_bytes (w.unread handle)) w.unread },
    )
  ]

  unfoldable pub send : Wire → ℕ → Bytes → Option ℕ × Wire
  send w handle buf = elim (K.send w handle buf (length buf)) [
    | none ↦ (none, w)
    | some sent_bytes ↦ (
      some sent_bytes,
      record w { written = update handle (w.written handle ++ take sent_bytes buf) w.written },
    )
  ]

  -- `Close`, of a handle or of the socket's own.
  unfoldable pub close : Wire → ℕ → Wire
  close w handle = record w { is_open = update handle false w.is_open }

  unfoldable pub get_available_bytes : Wire → ℕ → ℕ
  get_available_bytes w handle = elim (K.available w handle) [ none ↦ 0 | some n ↦ n ]

  -- `instantSpeedPlease` is static: the first call sets it, and `select` writes to it.
  unfoldable pub get_status : Option ℕ → Wire → ℕ → ℕ → ℕ → ℕ × Option ℕ
  get_status instant_speed w sock_handle status microseconds =
      let time : ℕ = elim instant_speed [ none ↦ microseconds | some t ↦ t ] in
      let (selected, left) = K.select w sock_handle (sets status) time in
      let result : ℕ = elim selected [ none ↦ K.errno w | some n ↦ n ] in
      (checked result, some left)
