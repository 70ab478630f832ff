-- ===== src/Socket/Windows.antt =====
-- socket/winsocket.cpp.
pub mod Streams
use Prim.Native.String.{String}
use khawasu_pc.Base.{
  ℕ, Bool, true, none, some, Option, [], ◌∷◌, ◌++◌, Bytes, take, ◌==◌, bytes_eq, if◌then◌else◌,
}
use khawasu_pc.Base.Outcome.{Outcome, ok, ◌>>=◌, ◌>>◌, guard, or_fault, exited, uninitialised}
use khawasu_pc.Socket.{SockAddrIn, Connection, Platform, WideFormat, zeros}

-- The system calls: `none` is `INVALID_SOCKET`, `false` is `SOCKET_ERROR`. `stack` is what lies in
-- an uninitialised `raw_ip_nbo`.
pub record System : Type 0 where
  pub socket : Option ℕ
  pub ioctlsocket : ℕ → Bool
  pub bind : ℕ → SockAddrIn → Bool
  pub listen : ℕ → Bool
  pub connect : ℕ → SockAddrIn → Bool
  pub accept : Option (SockAddrIn × ℕ)
  pub inet_addr : String → Bytes
  pub inet_pton : String → Option Bytes
  pub htons : ℕ → Bytes
  pub stack : Bytes

-- `INADDR_NONE`
abbrev pub inaddr_none : Bytes
inaddr_none = 255 ∷ 255 ∷ 255 ∷ 255 ∷ []

module _ (S : System) where
  -- Where `listen` fails, `Close()` reads the member `handle`, which is not set yet.
  unfoldable pub create : String → ℕ → Outcome ℕ
  create addr port = do
    let address : SockAddrIn = record {
      sin_port = S.htons port;
      sin_addr = S.inet_addr addr;
      sin_zero = zeros 8;
    }
    handle ← or_fault S.socket (exited 1)
    guard (S.ioctlsocket handle) (exited 1)
    guard (S.bind handle address) (exited 1)
    guard (S.listen handle) uninitialised
    ok handle

  unfoldable pub connect : String → ℕ → Option Connection
  connect addr port =
      let raw_ip : Bytes = elim (S.inet_pton addr) [ none ↦ S.stack | some bytes ↦ bytes ] in
      let address : SockAddrIn = record {
        sin_port = S.htons port;
        sin_addr = raw_ip;
        sin_zero = zeros 8;
      } in
      if raw_ip == inaddr_none then none else elim S.socket [
        | none ↦ none
        | some handle ↦
            if S.connect handle address
            then some (record { address = address; handle = handle; connected = true })
            else none
      ]

  unfoldable pub accept : Outcome (Option (SockAddrIn × ℕ))
  accept = ok S.accept

  -- Six bytes from the address on, and the port behind them.
  unfoldable pub address_u64 : WideFormat → SockAddrIn → ℕ
  address_u64 F a = F.decode (take 6 (a.sin_addr ++ a.sin_zero) ++ take 2 a.sin_port)

  abbrev pub windows : WideFormat → Platform
  windows F = record {
    create = create;
    connect = connect;
    accept = accept;
    address_u64 = address_u64 F;
  }
