-- ===== src/Socket.antt =====
-- socket/socket_base.h: what the two implementations of `Socket` share, and what
-- `MeshSocketInterface` uses of them. System calls are the environment's: parameters of each
-- implementation.
pub mod Unix
pub mod Windows
pub mod Keys
pub mod Names
pub mod Transfer
use Prim.Native.String.{String}
use khawasu_pc.Base.{ℕ, zero, suc, ◌^◌, ◌<◌, ◌≡◌, Bool, Option, List, [], ◌∷◌, Bytes, length, leb}
use khawasu_pc.Base.Outcome.{Outcome}

-- A `sockaddr_in` in memory, from `sin_port` on: two bytes, four, and eight that are not used.
pub record SockAddrIn : Type 0 where
  pub sin_port : Bytes
  pub sin_addr : Bytes
  pub sin_zero : Bytes

-- What `Connect` leaves behind: the address it returns, the socket's handle, and whether the
-- connection was made, which it only prints.
pub record Connection : Type 0 where
  pub address : SockAddrIn
  pub handle : ℕ
  pub connected : Bool

-- The part of `Socket` that `MeshSocketInterface` uses besides the transfer of bytes. A null
-- pointer is `none`.
pub record Platform : Type 0 where
  pub create : String → ℕ → Outcome ℕ
  pub connect : String → ℕ → Option Connection
  pub accept : Outcome (Option (SockAddrIn × ℕ))
  pub address_u64 : SockAddrIn → ℕ

-- An `int` is its 32-bit pattern.
abbrev pub is_negative : ℕ → Bool
is_negative n = leb (2 ^ 31) n

abbrev pub zeros : ℕ → Bytes
zeros zero = []
zeros (suc n) = 0 ∷ zeros n

-- `sizeof(sockaddr_in)`
abbrev pub sockaddr_size : ℕ
sockaddr_size = 16

-- Numbers that are bytes.
abbrev pub AllBytes : Bytes → Type 0
AllBytes [] = Unit
AllBytes (b ∷ bs) = (b < 256) × AllBytes bs

-- How a `u64` lies in memory.
pub record WideFormat : Type 0 where
  pub decode : Bytes → ℕ
  pub decode-injective :
      (a b : Bytes)
      → length a ≡ 8
      → length b ≡ 8
      → AllBytes a
      → AllBytes b
      → decode a ≡ decode b
      → a ≡ b
