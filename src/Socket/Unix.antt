-- ===== src/Socket/Unix.antt =====
-- socket/unixsocket.cpp.
pub mod Streams
use Prim.Native.String.{String}
use khawasu_pc.Base.{ℕ, not, none, some, Option, ◌++◌, Bytes, take, ◌==◌, nat_eq, if◌then◌else◌}
use khawasu_pc.Base.Outcome.{Outcome, ok, fault, ◌>>◌, guard, exited}
use khawasu_pc.Socket.{
  SockAddrIn, Connection, Platform, WideFormat, is_negative, zeros, sockaddr_size,
}

-- The system calls, each with its arguments and its result: `bind` and `connect` take a descriptor,
-- an address and its length, `accept` gives a descriptor and the peer. `stack` is what lies in
-- uninitialised variables. What another call finds is another `System`.
pub record System : Type 0 where
  pub socket : ℕ
  pub bind : ℕ → SockAddrIn → ℕ → ℕ
  pub listen : ℕ → ℕ → ℕ
  pub connect : ℕ → SockAddrIn → ℕ → ℕ
  pub accept : ℕ × SockAddrIn
  pub inet_aton : String → Option Bytes
  pub htons : ℕ → Bytes
  pub stack : ℕ → Bytes

-- `sizeof` of a pointer.
abbrev pub pointer_size : ℕ
pointer_size = 8

module _ (S : System) where
  -- The address is `INADDR_ANY`, whatever text is given.
  unfoldable pub create : String → ℕ → Outcome ℕ
  create addr port =
      let handle = S.socket in
      let address : SockAddrIn = record {
        sin_port = S.htons port;
        sin_addr = zeros 4;
        sin_zero = S.stack 8;
      } in
      do
        guard (not (is_negative (S.bind handle address sockaddr_size))) (exited 2)
        guard (not (is_negative (S.listen handle 10))) (exited 2)
        ok handle

  -- The length that is passed is that of the pointer `server_addr`.
  unfoldable pub connect : String → ℕ → Option Connection
  connect addr port =
      let client = S.socket in
      let server_addr : SockAddrIn = record {
        sin_port = S.htons port;
        sin_addr = elim (S.inet_aton addr) [ none ↦ zeros 4 | some bytes ↦ bytes ];
        sin_zero = zeros 8;
      } in
      if is_negative client
      then none
      else some (record {
        address = server_addr;
        handle = client;
        connected = S.connect client server_addr pointer_size == 0;
      })

  unfoldable pub accept : Outcome (Option (SockAddrIn × ℕ))
  accept = if is_negative S.accept.0 then fault (exited 3) else ok (some (S.accept.1, S.accept.0))

  -- Six bytes from `sin_addr` on; the other two bytes of `result` are not written, and hold what
  -- lies there at the call.
  unfoldable pub address_u64 : WideFormat → SockAddrIn → ℕ
  address_u64 F a = F.decode (take 6 (a.sin_addr ++ a.sin_zero) ++ S.stack 2)

  abbrev pub unix : WideFormat → Platform
  unix F = record {
    create = create;
    connect = connect;
    accept = accept;
    address_u64 = address_u64 F;
  }
