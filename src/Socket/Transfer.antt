-- ===== src/Socket/Transfer.antt =====
-- What the methods of `Socket` that move bytes share: the kernel's buffers, and the system calls.
use khawasu_pc.Base.{
  ℕ, ◌/◌, ◌%◌, ◌≤◌, ◌≡◌, ◌++◌, Bool, Option, some, Bytes, length, take, drop, ltb, ◌==◌, nat_eq,
  if◌then◌else◌,
}

-- What the kernel keeps of each handle: bytes that have come and are not read, bytes that have been
-- handed over, and whether it is open.
pub record Wire : Type 0 where
  pub unread : ℕ → Bytes
  pub written : ℕ → Bytes
  pub is_open : ℕ → Bool

abbrev pub update {ℓ} : {A : Type ℓ} → ℕ → A → (ℕ → A) → ℕ → A
update h a f k = if k == h then a else f k

-- Which of the sets of `select` a handle is in: those for reading, writing and exceptions.
abbrev pub Sets : Type 0
Sets = Bool × Bool × Bool

abbrev pub sets : ℕ → Sets
sets status = (status % 2 == 1, status / 2 % 2 == 1, status / 4 % 2 == 1)

-- The system calls; `none` is -1, the error. `send` gets the bytes and the length that is passed,
-- and takes a first part, of the length that it returns. `recv` gives so many of the bytes that are
-- unread, and gets the length that is asked for. `select` gets the handle, the sets and the time in
-- microseconds, and also says what is left of the time. `errno` is the error's number.
pub record Kernel : Type 0 where
  pub send : Wire → ℕ → Bytes → ℕ → Option ℕ
  pub recv : Wire → ℕ → ℕ → Option ℕ
  pub available : Wire → ℕ → Option ℕ
  pub select : Wire → ℕ → Sets → ℕ → Option ℕ × ℕ
  pub errno : Wire → ℕ

abbrev pub status_except : ℕ
status_except = 4

-- `STATUS_READ`
abbrev pub status_read : ℕ
status_read = 1

-- The number that `GetStatus` has in the end; an `int` is its 32-bit pattern.
abbrev pub checked : ℕ → ℕ
checked result = if ltb 3 result then status_except else result

-- The three methods that `MeshSocketInterface` moves bytes by.
pub record Transfers : Type 0 where
  pub available : Wire → ℕ → ℕ
  pub recv : Wire → ℕ → ℕ → Option Bytes × Wire
  pub send : Wire → ℕ → Bytes → Option ℕ × Wire

-- `FIONREAD` says how much is unread, and a `Recv` of at most so much gets all that it asks for.
pub record ReadsAll (T : Transfers) : Type 0 where
  pub available_lem : (w : Wire) (h : ℕ) → T.available w h ≡ length (w.unread h)
  pub recv_lem :
      (w : Wire) (h n : ℕ)
      → n ≤ length (w.unread h)
      → T.recv w h n ≡ (
        some (take n (w.unread h)),
        record w { unread = update h (drop n (w.unread h)) w.unread },
      )

-- A `Send` hands over as many bytes as `taken` says of the connection and the bytes.
pub record SendsPart (T : Transfers) (taken : ℕ → Bytes → ℕ) : Type 0 where
  pub send_lem :
      (w : Wire) (h : ℕ) (bytes : Bytes)
      → (T.send w h bytes).1
        ≡ record w { written = update h (w.written h ++ take (taken h bytes) bytes) w.written }
