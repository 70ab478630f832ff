-- ===== src/Socket/Keys.antt =====
-- `AddressU64`: which peers have the same key among an interface's clients.
use khawasu_pc.Base.{ℕ, ◌≡◌, ◌↔◌, refl, sym, ap, subst, ◌∙◌, [], ◌∷◌, Bytes, arith, length}
use khawasu_pc.Socket.{SockAddrIn, WideFormat, AllBytes, zeros}
use khawasu_pc.Socket.Unix
use khawasu_pc.Socket.Windows

-- An IPv4 address and a port, each by its bytes in network order.
pub record Endpoint : Type 0 where
  pub host_0 : ℕ
  pub host_1 : ℕ
  pub host_2 : ℕ
  pub host_3 : ℕ
  pub port_0 : ℕ
  pub port_1 : ℕ

-- As `connect` and `accept` fill it in.
abbrev pub sockaddr_of : Endpoint → SockAddrIn
sockaddr_of e = record {
  sin_port = e.port_0 ∷ e.port_1 ∷ [];
  sin_addr = e.host_0 ∷ e.host_1 ∷ e.host_2 ∷ e.host_3 ∷ [];
  sin_zero = zeros 8;
}

abbrev pub endpoint_bytes : Endpoint → Bytes
endpoint_bytes e = e.host_0 ∷ e.host_1 ∷ e.host_2 ∷ e.host_3 ∷ e.port_0 ∷ e.port_1 ∷ []

abbrev pub SameHost : Endpoint → Endpoint → Type 0
SameHost x y =
    (x.host_0 ≡ y.host_0) × (x.host_1 ≡ y.host_1) × (x.host_2 ≡ y.host_2) × (x.host_3 ≡ y.host_3)

abbrev pub SamePort : Endpoint → Endpoint → Type 0
SamePort x y = (x.port_0 ≡ y.port_0) × (x.port_1 ≡ y.port_1)

-- On Windows two peers have one key exactly when they have one address and one port.
pub windows_address_u64-eq_iff :
    (S : Windows.System) (F : WideFormat) (x y : Endpoint)
    → AllBytes (endpoint_bytes x)
    → AllBytes (endpoint_bytes y)
    → (Windows.address_u64 S F (sockaddr_of x) ≡ Windows.address_u64 S F (sockaddr_of y))
      ↔ (SameHost x y × SamePort x y)
unfolding Windows.address_u64
windows_address_u64-eq_iff S F x y bx by = (
  λ e.
      let bytes =
        F.decode-injective
          (x.host_0 ∷ x.host_1 ∷ x.host_2 ∷ x.host_3 ∷ 0 ∷ 0 ∷ x.port_0 ∷ x.port_1 ∷ [])
          (y.host_0 ∷ y.host_1 ∷ y.host_2 ∷ y.host_3 ∷ 0 ∷ 0 ∷ y.port_0 ∷ y.port_1 ∷ []) refl refl
          (omega arith) (omega arith) e in
      (((cc), (cc), (cc), (cc)), ((cc), (cc))),
  λ same. cc,
)

-- On Unix, if the two bytes that are not written hold the same at both calls, two peers have one
-- key exactly when they have one address: the port does not count.
pub unix_address_u64-eq_iff :
    (S₀ S : Unix.System) (F : WideFormat) (x y : Endpoint)
    → S₀.stack 2 ≡ S.stack 2
    → length (S.stack 2) ≡ 2
    → AllBytes (S.stack 2)
    → AllBytes (endpoint_bytes x)
    → AllBytes (endpoint_bytes y)
    → (Unix.address_u64 S₀ F (sockaddr_of x) ≡ Unix.address_u64 S F (sockaddr_of y)) ↔ SameHost x y
unfolding Unix.address_u64
unix_address_u64-eq_iff S₀ S F x y same_rest two rest bx by = (
  λ e.
      let two₀ : length (S₀.stack 2) ≡ 2 = ap (length {A = ℕ}) same_rest ∙ two in
      let rest₀ : AllBytes (S₀.stack 2) = subst AllBytes (sym same_rest) rest in
      let bytes =
        F.decode-injective (x.host_0 ∷ x.host_1 ∷ x.host_2 ∷ x.host_3 ∷ 0 ∷ 0 ∷ S₀.stack 2)
          (y.host_0 ∷ y.host_1 ∷ y.host_2 ∷ y.host_3 ∷ 0 ∷ 0 ∷ S.stack 2) (omega arith)
          (omega arith) (ground arith) (ground arith) e in
      ((cc), (cc), (cc), (cc)),
  λ same. cc,
)
