-- ===== src/MeshSocket/Transmit.antt =====
-- `send_packet` as calls of `Send`, whose results are not looked at.
use khawasu_pc.Base.{
  ℕ, ◌+◌, ◌-◌, ◌%◌, ◌^◌, ◌≤◌, ◌<◌, ◌≡◌, refl, ◌∙◌, ap, sym, true, none, some, [], ◌∷◌, ◌++◌, Bytes,
  leb, ltb, length, take, drop, min, ◌==◌, nat_eq, if◌then◌else◌, arith, Bool-cases, inl, inr,
  length-take, length-append, take-append_self, take-append-drop, zero, suc, Option-cases,
  drop-append_self,
}
use mathlib.Core.List.{append_assoc}
use khawasu_pc.Base.Dict.{find}
use khawasu_pc.Socket.Transfer.{Wire, Transfers, SendsPart, update}
use khawasu_pc.MeshSocket.{
  WordFormat, Client, MeshSocketInterface, empty_buffer, word_size, read_size, read_bytes,
  poll_client, frame, send_packet,
}
use khawasu_pc.MeshSocket.Frames.{Fits}

module _ (W : WordFormat) (T : Transfers) where
  -- `send_packet`
  unfoldable pub transmit : Wire → MeshSocketInterface → ℕ → Bytes → Wire
  transmit w i addr packet = elim (find addr i.clients) [
    | none ↦ w
    | some c ↦ (T.send (T.send w c.handle (W.encode (length packet))).1 c.handle packet).1
  ]

update-twice :
    (f : ℕ → Bytes) (h k : ℕ) (a b : Bytes)
    → let g = update h (f h ++ a) f in
      update h (g h ++ b) g k ≡ (if k == h then f h ++ (a ++ b) else f k)
update-twice f h k a b =
    let own : (h == h) ≡ true = (nat_eq.beq_iff h h).1 refl in
    elim (Bool-cases (k == h)) [
      | inl same ↦ rw (same, own) (append_assoc (f h) a b)
      | inr other ↦ rw other refl
    ]

module _ (W : WordFormat) (T : Transfers) (taken : ℕ → Bytes → ℕ) (S : SendsPart T taken) where
  written-transmit :
      (w : Wire) (i : MeshSocketInterface) (addr k : ℕ) (c : Client) (packet : Bytes)
      → find addr i.clients ≡ some c
      → let h = c.handle in
        let head = W.encode (length packet) in
        (transmit W T w i addr packet).written k ≡ (
          if k == h
          then w.written h ++ (take (taken h head) head ++ take (taken h packet) packet)
          else w.written k)
  unfolding transmit
  written-transmit w i addr k c packet known =
      let head = W.encode (length packet) in
      rw (known, transmit, S.send_lem w c.handle head, S.send_lem)
        (update-twice w.written c.handle k (take (taken c.handle head) head)
          (take (taken c.handle packet) packet))

read_bytes-exact :
    (p rest : Bytes)
    → length p < 2 ^ 32
    → read_bytes (record { bytes = []; size = length p }) (p ++ rest)
      ≡ record { buffer = empty_buffer; unread = rest; packet = some p }
unfolding read_bytes
read_bytes-exact p rest h =
    let k : min (length (p ++ rest)) ((length p + 2 ^ 64 - 0) % 2 ^ 64) ≡ length p =
      omega (arith, length-append p rest) in
    let full : (length p == length p) ≡ true = (nat_eq.beq_iff (length p) (length p)).1 refl in
    rw (read_bytes, k, take-append_self p rest, drop-append_self p rest, full) refl

module _ (W : WordFormat) where
  -- A whole frame at a packet's start is read at one look.
  poll_client-frame :
      (p rest : Bytes)
      → Fits p
      → poll_client W empty_buffer (frame W p ++ rest)
        ≡ record { buffer = empty_buffer; unread = rest; packet = some p }
  unfolding poll_client read_size frame
  poll_client-frame p rest fits =
      let head = W.encode (length p) in
      let size : word_size ≡ length head = sym (W.length-encode (length p)) in
      let parts : frame W p ++ rest ≡ head ++ (p ++ rest) = append_assoc head p rest in
      let first : take word_size (head ++ (p ++ rest)) ≡ head =
        rw size (take-append_self head (p ++ rest)) in
      let later : drop word_size (head ++ (p ++ rest)) ≡ p ++ rest =
        rw size (drop-append_self head (p ++ rest)) in
      let some_there : ltb 0 (length (head ++ (p ++ rest))) ≡ true =
        ground (arith, size, length-append head (p ++ rest)) in
      let starts : leb word_size (length (head ++ (p ++ rest))) ≡ true =
        ground (arith, size, length-append head (p ++ rest)) in
      rw (parts, poll_client, some_there, starts, first, later, W.decode-encode (length p) fits.1)
        (read_bytes-exact p rest fits.1)

  -- What is handed over of a packet's frame, if the last `Send` takes only `n` bytes.
  abbrev pub cut_frame : ℕ → Bytes → Bytes
  cut_frame n p = W.encode (length p) ++ take n p

  poll_client-cut_frame :
      (n : ℕ) (p later : Bytes)
      → Fits p
      → n ≤ length p
      → length p - n ≤ length later
      → poll_client W empty_buffer (cut_frame n p ++ later) ≡ record {
        buffer = empty_buffer;
        unread = drop (length p - n) later;
        packet = some (take n p ++ take (length p - n) later);
      }
  unfolding frame
  poll_client-cut_frame n p later fits h k =
      let m = length p - n in
      let p' = take n p ++ take m later in
      let same : length p' ≡ length p =
        omega
          (arith, length-append (take n p) (take m later), length-take n p, length-take m later) in
      let e : cut_frame n p ++ later ≡ frame W p' ++ drop m later =
        append_assoc (W.encode (length p)) (take n p) later
        ∙ ap (λ x. W.encode (length p) ++ (take n p ++ x)) (sym (take-append-drop m later))
        ∙ ap (λ x. W.encode (length p) ++ x)
            (sym (append_assoc (take n p) (take m later) (drop m later)))
        ∙ sym (append_assoc (W.encode (length p)) p' (drop m later))
        ∙ ap (λ l. (W.encode l ++ p') ++ drop m later) (sym same) in
      rw e (poll_client-frame p' (drop m later) (omega (arith, fits.0), omega (arith, fits.1)))

take-over : (n : ℕ) (xs : Bytes) → length xs ≤ n → take n xs ≡ xs
take-over zero [] h = refl
take-over zero (x ∷ xs) h = absurd (omega arith)
take-over (suc n) [] h = refl
take-over (suc n) (x ∷ xs) h = ap (◌∷◌ x) (take-over n xs (omega arith))

module _ (W : WordFormat) (T : Transfers) (taken : ℕ → Bytes → ℕ) (S : SendsPart T taken) where
  -- Both calls of `Send` for this packet take all that they are given.
  abbrev pub TakesAll : ℕ → Bytes → Type 0
  TakesAll h p =
      (length (W.encode (length p)) ≤ taken h (W.encode (length p))) × (length p ≤ taken h p)

  written-whole :
      (w : Wire) (i : MeshSocketInterface) (addr k : ℕ) (c : Client) (packet : Bytes)
      → find addr i.clients ≡ some c
      → TakesAll c.handle packet
      → (transmit W T w i addr packet).written k
        ≡ (if k == c.handle then w.written c.handle ++ frame W packet else w.written k)
  unfolding frame
  written-whole w i addr k c packet known all =
      let head = W.encode (length packet) in
      written-transmit W T taken S w i addr k c packet known
      ∙ rw
          (
            take-over (taken c.handle head) head all.0,
            take-over (taken c.handle packet) packet all.1,
          )
          refl

  -- Where `Send` takes all that it is given, `send_packet` hands over what its model says, on the
  -- handle that it says: the packet behind its length, behind what was handed over before. Nothing
  -- is handed over on any other handle, nor at all for an unknown address.
  pub transmit-send_packet :
      (w : Wire) (i : MeshSocketInterface) (addr k : ℕ) (packet : Bytes)
      → ((h : ℕ) → TakesAll h packet)
      → (transmit W T w i addr packet).written k ≡ (elim (send_packet W i addr packet) [
        | none ↦ w.written k
        | some (h, bytes) ↦ if k == h then w.written h ++ bytes else w.written k
      ])
  unfolding transmit send_packet
  transmit-send_packet w i addr k packet all = elim (Option-cases (find addr i.clients)) [
    | inl unknown ↦ rw (unknown, transmit, send_packet) refl
    | inr (c, known) ↦
        written-whole w i addr k c packet known (all c.handle) ∙ rw (known, send_packet) refl
  ]

  -- A packet is sent to a client on a connection that is fresh, and the second `Send` takes only
  -- the first `n` of its bytes; then a packet is sent whole, whose frame is as long as what is
  -- missing. Nothing is sent again. What the client's receiver then hands on first is the part that
  -- was taken, filled up with the first bytes of the next packet's frame, and it goes on reading in
  -- the middle of that frame.
  pub transmit-cut :
      (w : Wire) (i : MeshSocketInterface) (addr n : ℕ) (c : Client) (p q : Bytes)
      → find addr i.clients ≡ some c
      → w.written c.handle ≡ []
      → Fits p
      → length (W.encode (length p)) ≤ taken c.handle (W.encode (length p))
      → taken c.handle p ≡ n
      → n ≤ length p
      → TakesAll c.handle q
      → length p - n ≤ length (frame W q)
      → poll_client W empty_buffer
          ((transmit W T (transmit W T w i addr p) i addr q).written c.handle)
        ≡ record {
          buffer = empty_buffer;
          unread = drop (length p - n) (frame W q);
          packet = some (take n p ++ take (length p - n) (frame W q));
        }
  transmit-cut w i addr n c p q known fresh fits head part cut whole enough =
      let h = c.handle in
      let own : (h == h) ≡ true = (nat_eq.beq_iff h h).1 refl in
      let first : (transmit W T w i addr p).written h ≡ cut_frame W n p =
        written-transmit W T taken S w i addr h c p known
        ∙ rw (own, fresh, take-over _ (W.encode (length p)) head, part) refl in
      let both : (transmit W T (transmit W T w i addr p) i addr q).written h
          ≡ cut_frame W n p ++ frame W q =
        written-whole (transmit W T w i addr p) i addr h c q known whole ∙ rw (own, first) refl in
      ap (poll_client W empty_buffer) both ∙ poll_client-cut_frame W n p (frame W q) fits cut enough
