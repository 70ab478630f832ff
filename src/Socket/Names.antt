-- ===== src/Socket/Names.antt =====
-- `AddressString` of socket/unixsocket.cpp and socket/winsocket.cpp: a peer's address as text.
use khawasu_pc.Base.{
  ℕ, ◌+◌, ◌*◌, ◌%◌, ◌≡◌, ◌↔◌, refl, [], ◌∷◌, ◌++◌, Bytes, get_elem?, arith, nat_eq, length,
}
use khawasu_pc.Base.Outcome.{Outcome, ok, or_fault, out_of_bounds, ◌>>=◌}
use khawasu_pc.Socket.{SockAddrIn, AllBytes}
use khawasu_pc.Socket.Keys.{Endpoint, sockaddr_of, endpoint_bytes, SameHost, SamePort}

-- What the stream writes for an `int` that is not negative, and what `inet_ntoa` gives for an
-- address: digits, and another text for another number or address.
abbrev pub NoMark : ℕ → Bytes → Type 0
NoMark c [] = Unit
NoMark c (b ∷ bs) = ((b ≡ c) → ⊥) × NoMark c bs

pub record Text : Type 0 where
  pub show : ℕ → Bytes
  pub inet_ntoa : Bytes → Bytes
  pub show-injective : (a b : ℕ) → show a ≡ show b → a ≡ b
  pub show-no_dot : (a : ℕ) → NoMark b'.' (show a)
  pub show-no_colon : (a : ℕ) → NoMark b':' (show a)
  pub inet_ntoa-injective :
      (a b : Bytes)
      → length a ≡ 4
      → length b ≡ 4
      → AllBytes a
      → AllBytes b
      → inet_ntoa a ≡ inet_ntoa b
      → a ≡ b

module _ (X : Text) where
  -- `sin_addr`, four bytes.
  unfoldable pub unix_address_string : SockAddrIn → Bytes
  unix_address_string a = X.inet_ntoa a.sin_addr

  -- `sa_data` is the memory behind the address's family: the port, then the address.
  unfoldable pub windows_address_string : SockAddrIn → Outcome Bytes
  windows_address_string a =
      let sa_data = a.sin_port ++ a.sin_addr ++ a.sin_zero in
      do
        port_0 ← or_fault (get_elem? sa_data 0) out_of_bounds
        port_1 ← or_fault (get_elem? sa_data 1) out_of_bounds
        host_0 ← or_fault (get_elem? sa_data 2) out_of_bounds
        host_1 ← or_fault (get_elem? sa_data 3) out_of_bounds
        host_2 ← or_fault (get_elem? sa_data 4) out_of_bounds
        host_3 ← or_fault (get_elem? sa_data 5) out_of_bounds
        ok (
            X.show (host_0 % 256)
            ++ b'.'
              ∷ (X.show (host_1 % 256)
                  ++ b'.'
                    ∷ (X.show (host_2 % 256)
                        ++ b'.'
                          ∷ (X.show (host_3 % 256)
                              ++ b':' ∷ X.show (port_0 % 256 * 256 + port_1 % 256)))))

-- Texts without a mark, each in front of one.
mark-injective :
    (c : ℕ) (a b x y : Bytes)
    → NoMark c a
    → NoMark c b
    → a ++ c ∷ x ≡ b ++ c ∷ y
    → (a ≡ b) × (x ≡ y)
mark-injective c [] [] x y m n e = (refl, cc)
mark-injective c [] (d ∷ b) x y m n e = absurd (n.0 (cc))
mark-injective c (d ∷ a) [] x y m n e = absurd (m.0 (cc))
mark-injective c (d ∷ a) (d' ∷ b) x y m n e =
    let (same, rest) = mark-injective c a b x y m.1 n.1 (cc) in let head : d ≡ d' = cc in (cc, rest)

ok-injective {ℓ} : {A : Type ℓ} {a b : A} → ok a ≡ ok b → a ≡ b
ok-injective e = cc

-- Two peers have one text on Windows exactly when they have one address and one port, and on Unix
-- exactly when they have one address: the port is not written.
pub address_string-eq_iff :
    (X : Text) (x y : Endpoint)
    → AllBytes (endpoint_bytes x)
    → AllBytes (endpoint_bytes y)
    → ((windows_address_string X (sockaddr_of x) ≡ windows_address_string X (sockaddr_of y))
        ↔ (SameHost x y × SamePort x y))
      × ((unix_address_string X (sockaddr_of x) ≡ unix_address_string X (sockaddr_of y))
          ↔ SameHost x y)
unfolding windows_address_string unix_address_string
address_string-eq_iff X x y bx by = (
  (
    λ e.
        let (h₀, r₀) =
          mark-injective b'.' _ _ _ _ (X.show-no_dot _) (X.show-no_dot _) (ok-injective e) in
        let (h₁, r₁) = mark-injective b'.' _ _ _ _ (X.show-no_dot _) (X.show-no_dot _) r₀ in
        let (h₂, r₂) = mark-injective b'.' _ _ _ _ (X.show-no_dot _) (X.show-no_dot _) r₁ in
        let (h₃, r₃) = mark-injective b':' _ _ _ _ (X.show-no_colon _) (X.show-no_colon _) r₂ in
        let i₀ = X.show-injective _ _ h₀ in
        let i₁ = X.show-injective _ _ h₁ in
        let i₂ = X.show-injective _ _ h₂ in
        let i₃ = X.show-injective _ _ h₃ in let p = X.show-injective _ _ r₃ in omega arith,
    λ same. cc,
  ),
  (
    λ e.
        let bytes =
          X.inet_ntoa-injective (x.host_0 ∷ x.host_1 ∷ x.host_2 ∷ x.host_3 ∷ [])
            (y.host_0 ∷ y.host_1 ∷ y.host_2 ∷ y.host_3 ∷ []) refl refl (omega arith) (omega arith)
            e in
        ((cc), (cc), (cc), (cc)),
    λ same. cc,
  ),
)
