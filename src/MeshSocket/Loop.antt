-- ===== src/MeshSocket/Loop.antt =====
-- The loop of `check_packets` over all clients as calls of the socket's methods.
use khawasu_pc.Base.{
  ℕ, ◌≡◌, refl, ◌∙◌, ap, subst, arith, false, none, some, List, [], ◌∷◌, Bytes, ◌==◌, nat_eq,
  if◌then◌else◌, Bool-cases, inl, inr,
}
use khawasu_pc.Base.Dict.{Dict, All}
use khawasu_pc.Socket.Transfer.{Wire, Transfers, ReadsAll}
use khawasu_pc.MeshSocket.{WordFormat, Client, Effects, check_clients, poll_client}
use khawasu_pc.MeshSocket.OneClient.{look, look_effects}
use khawasu_pc.MeshSocket.Calls.{look_at, LooksLike, look_at-poll_client}

-- `status` is `GetStatus(handle, STATUS_READ, 0)`, by what lies in the sockets.
module _ (W : WordFormat) (T : Transfers) (status : Wire → ℕ → ℕ) where
  -- The body of the loop: the client, the sockets and the packets delivered after it.
  unfoldable pub turn : ℕ → Client → Wire → List (ℕ × Bytes) → Client × Wire × List (ℕ × Bytes)
  unfolding look_at
  turn addr c w delivered =
      let (b, packet, w') = look_at W T w c.handle c.buffer in
      let delivered' : List (ℕ × Bytes) = elim packet [
        | none ↦ delivered
        | some bytes ↦ (addr, bytes) ∷ delivered
      ] in
      if status w c.handle == 1
      then (record c { buffer = b }, w', delivered')
      else (c, w, delivered)

  -- The loop over the clients, in the order of the map.
  unfoldable pub look_at_all :
      Dict ℕ Client → Wire → List (ℕ × Bytes) → Dict ℕ Client × Wire × List (ℕ × Bytes)
  unfolding turn
  look_at_all [] w delivered = ([], w, delivered)
  look_at_all ((addr, c) ∷ cs) w delivered =
      let (c', w₁, delivered₁) = turn addr c w delivered in
      let (cs', w₂, delivered₂) = look_at_all cs w₁ delivered₁ in ((addr, c') ∷ cs', w₂, delivered₂)

-- No two clients share a handle.
abbrev pub DistinctHandles : Dict ℕ Client → Type 0
DistinctHandles [] = Unit
DistinctHandles ((a, c) ∷ cs) =
    All (λ b (d : Client). (d.handle == c.handle) ≡ false) cs × DistinctHandles cs

-- The wire and the effects agree.
abbrev pub Agrees : Wire → List (ℕ × Bytes) → Effects → Type 0
Agrees w delivered e = ((k : ℕ) → w.unread k ≡ e.unread k) × (delivered ≡ e.delivered)

own_test : (x y : Bytes) (k h : ℕ) → (if k == h then x else y) ≡ (if h == k then x else y)
own_test x y k h = ground arith

-- A wire that differs at the handle `h` only shows the same status of the others.
still_seen :
    (status : Wire → ℕ → ℕ) (s : ℕ → ℕ) (h : ℕ) (w w' : Wire) (cs : Dict ℕ Client)
    → ((v v' : Wire) (k : ℕ) → v.unread k ≡ v'.unread k → status v k ≡ status v' k)
    → ((k : ℕ) → (k == h) ≡ false → w'.unread k ≡ w.unread k)
    → All (λ b (d : Client). (d.handle == h) ≡ false) cs
    → All (λ b (d : Client). status w d.handle ≡ s d.handle) cs
    → All (λ b (d : Client). status w' d.handle ≡ s d.handle) cs
still_seen status s h w w' [] own same others seen = tt
still_seen status s h w w' ((b, d) ∷ cs) own same others seen = (
  own w' w d.handle (same d.handle others.0) ∙ seen.0,
  still_seen status s h w w' cs own same others.1 seen.1,
)

module _ (W : WordFormat) (T : Transfers) (R : ReadsAll T) (status : Wire → ℕ → ℕ) where
  turn-look :
      (s : ℕ → ℕ) (a : ℕ) (c : Client) (w : Wire) (out : List (ℕ × Bytes)) (e : Effects)
      → status w c.handle ≡ s c.handle
      → Agrees w out e
      → let (c', w', out') = turn W T status a c w out in
        (c' ≡ look W s c e)
        × Agrees w' out' (look_effects W s a c e)
        × ((k : ℕ) → (k == c.handle) ≡ false → w'.unread k ≡ w.unread k)
  unfolding turn look look_effects
  turn-look s a c w out e seen agrees = elim (Bool-cases (s c.handle == 1)) [
    | inr waiting ↦ rw (seen, waiting) (refl, agrees, λ k other. refl)
    | inl ready ↦
        let q = poll_client W c.buffer (e.unread c.handle) in
        let (buffer, packet, unread, written) =
          subst
            (λ u. LooksLike w c.handle (poll_client W c.buffer u) (look_at W T w c.handle c.buffer))
            (agrees.0 c.handle) (look_at-poll_client W T R w c.handle c.buffer) in
        rw (seen, ready)
          (
            ap (λ x. record c { buffer = x }) buffer,
            (
              λ k.
                  unread k
                  ∙ ap (λ x. if k == c.handle then q.unread else x) (agrees.0 k)
                  ∙ own_test q.unread (e.unread k) k c.handle,
              rw packet
                  (ap (λ d. elim q.packet [ none ↦ d | some bytes ↦ (a, bytes) ∷ d ]) agrees.1),
            ),
            λ k other. unread k ∙ rw other refl,
          )
  ]

  -- The loop by calls comes to what `check_clients` computes from the statuses at the start.
  pub look_at_all-check_clients :
      (s : ℕ → ℕ) (cs : Dict ℕ Client) (w : Wire) (out : List (ℕ × Bytes)) (e : Effects)
      → ((w w' : Wire) (h : ℕ) → w.unread h ≡ w'.unread h → status w h ≡ status w' h)
      → DistinctHandles cs
      → All (λ a (c : Client). status w c.handle ≡ s c.handle) cs
      → Agrees w out e
      → let (cs₁, w', out') = look_at_all W T status cs w out in
        let (cs₂, e') = check_clients W s cs e in (cs₁ ≡ cs₂) × Agrees w' out' e'
  unfolding look_at_all check_clients look look_effects
  look_at_all-check_clients s [] w out e own distinct seen agrees = (refl, agrees)
  look_at_all-check_clients s ((a, c) ∷ cs) w out e own distinct seen agrees =
      let w' = (turn W T status a c w out).1 in
      let out' = (turn W T status a c w out).2 in
      let (client, agrees', others) = turn-look s a c w out e seen.0 agrees in
      let (clients, rest) =
        look_at_all-check_clients s cs w' out' (look_effects W s a c e) own distinct.1
          (still_seen status s c.handle w w' cs own others distinct.0 seen.1) agrees' in
      (rw (client, clients) refl, rest)
