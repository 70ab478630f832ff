-- ===== src/MeshSocket/Reassembly.antt =====
-- What the receiver delivers is what the sender sent, however the stream is cut into pieces.
use khawasu_pc.Base.{
  ◌+◌, ◌-◌, ◌%◌, ◌^◌, ◌≤◌, ◌<◌, ◌≡◌, ◌⊎◌, refl, ◌∙◌, ap, sym, subst, true, false, Bytes, Option,
  none, some, List, [], ◌∷◌, ◌++◌, length, take, drop, nat_eq, ◌==◌, leb, ltb, min, arith,
  length-append, take-append-drop, inl, inr,
}
use mathlib.Core.List.{append_assoc, append-nil}
use native.Mathlib.Decide.{dec_le}
use khawasu_pc.MeshSocket.{
  WordFormat, ClientRecvBuffer, Polled, empty_buffer, word_size, read_size, read_bytes, poll_client,
  frame,
}
use khawasu_pc.MeshSocket.Frames.{
  Fits, All, stream, Stands, at_start, inside, split_le, take-length, drop-length,
}

abbrev pub delivered : Option Bytes → List Bytes
delivered none = []
delivered (some p) = p ∷ []

module _ (W : WordFormat) where
  -- One look at a client takes the buffer along the stream: the packets to come are what it
  -- delivers, and what the buffer then stands for.
  abbrev pub Advances : Polled → Bytes → List Bytes → Type 0
  Advances q future ps =
      (ps' : List Bytes) × Stands W q.buffer (q.unread ++ future) ps'
      × (ps ≡ delivered q.packet ++ ps')

  -- The missing part is there: the packet is delivered.
  read_bytes-whole :
      (b : ClientRecvBuffer) (unread future p more : Bytes) (ps : List Bytes)
      → Fits p
      → p ≡ b.bytes ++ more
      → b.size ≡ length p
      → unread ++ future ≡ more ++ stream W ps
      → All Fits ps
      → length more ≤ length unread
      → Advances (read_bytes b unread) future (p ∷ ps)
  unfolding read_bytes
  read_bytes-whole b unread future p more ps fits split sized e all h =
      let len = ap length split ∙ length-append b.bytes more in
      let k : min (length unread) ((b.size + 2 ^ 64 - length b.bytes) % 2 ^ 64) ≡ length more =
        omega arith in
      let cut = split_le unread future more (stream W ps) e h in
      let full : (b.size == length (b.bytes ++ more)) ≡ true =
        ground (arith, length-append b.bytes more) in
      rw (read_bytes, k, cut.0, full) (ps, at_start refl cut.1 all, ap (λ x. x ∷ ps) split)

  -- Some of it is still missing.
  read_bytes-part :
      (b : ClientRecvBuffer) (unread future p more : Bytes) (ps : List Bytes)
      → Fits p
      → p ≡ b.bytes ++ more
      → b.size ≡ length p
      → unread ++ future ≡ more ++ stream W ps
      → All Fits ps
      → length unread < length more
      → Advances (read_bytes b unread) future (p ∷ ps)
  unfolding read_bytes
  read_bytes-part b unread future p more ps fits split sized e all h =
      let n = length unread in
      let len = ap length split ∙ length-append b.bytes more in
      let k : min (length unread) ((b.size + 2 ^ 64 - length b.bytes) % 2 ^ 64) ≡ length unread =
        omega arith in
      let cut = split_le more (stream W ps) unread future (sym e) (omega arith) in
      let rest : more ≡ unread ++ drop n more =
        sym (take-append-drop n more) ∙ ap (λ x. x ++ drop n more) cut.0 in
      let whole : p ≡ (b.bytes ++ unread) ++ drop n more =
        split ∙ ap (λ x. b.bytes ++ x) rest ∙ sym (append_assoc b.bytes unread (drop n more)) in
      let short : (b.size == length (b.bytes ++ unread)) ≡ false =
        ground (arith, length-append b.bytes unread) in
      rw (read_bytes, k, take-length unread, drop-length unread, short)
        (
          p ∷ ps,
          inside (drop n more) fits whole sized (omega (arith, length-append b.bytes unread))
              (sym cut.1) all,
          refl,
        )

  read_bytes-Advances :
      (b : ClientRecvBuffer) (unread future p more : Bytes) (ps : List Bytes)
      → Fits p
      → p ≡ b.bytes ++ more
      → b.size ≡ length p
      → unread ++ future ≡ more ++ stream W ps
      → All Fits ps
      → Advances (read_bytes b unread) future (p ∷ ps)
  read_bytes-Advances b unread future p more ps fits split sized e all =
      elim (dec_le (length more) (length unread)) [
        | yes h ↦ read_bytes-whole b unread future p more ps fits split sized e all h
        | no h ↦ read_bytes-part b unread future p more ps fits split sized e all (omega arith)
      ]

  -- Where a packet starts, the four bytes of its length are there, or nothing is.
  abbrev pub WholeHeader : ClientRecvBuffer → Bytes → Type 0
  WholeHeader b unread = b.size ≡ 0 → (unread ≡ []) ⊎ (word_size ≤ length unread)

  poll_client-start :
      (unread future : Bytes) (ps : List Bytes)
      → unread ++ future ≡ stream W ps
      → All Fits ps
      → word_size ≤ length unread
      → Advances (poll_client W empty_buffer unread) future ps
  unfolding poll_client read_size frame
  poll_client-start unread future [] e all h =
      absurd (omega (arith, ap length e, length-append unread future))
  poll_client-start unread future (p ∷ ps) e all h =
      let header = W.length-encode (length p) in
      let cut =
        split_le unread future (W.encode (length p)) (p ++ stream W ps)
          (e ∙ append_assoc _ p (stream W ps)) (omega arith) in
      let size : W.decode (take word_size unread) ≡ length p =
        ap (λ n. W.decode (take n unread)) (sym header)
        ∙ ap W.decode cut.0
        ∙ W.decode-encode (length p) all.0.1 in
      let rest : drop word_size unread ++ future ≡ p ++ stream W ps =
        ap (λ n. drop n unread ++ future) (sym header) ∙ cut.1 in
      let some_there : ltb 0 (length unread) ≡ true = ground arith in
      let starts : leb word_size (length unread) ≡ true = ground arith in
      rw (some_there, starts, size)
        (read_bytes-Advances (record { bytes = []; size = length p }) (drop word_size unread) future
          p p ps all.0 refl refl rest all.1)

  pub poll_client-Advances :
      (b : ClientRecvBuffer) (unread future : Bytes) (ps : List Bytes)
      → Stands W b (unread ++ future) ps
      → WholeHeader b unread
      → Advances (poll_client W b unread) future ps
  unfolding poll_client read_size
  poll_client-Advances b [] future ps st whole = (ps, st, refl)
  poll_client-Advances b (x ∷ xs) future ps (at_start e r all) whole =
      elim (whole (ap (λ (c : ClientRecvBuffer). c.size) e)) [
        | inl none_there ↦ absurd (cc)
        | inr h ↦
            subst (λ c. Advances (poll_client W c (x ∷ xs)) future ps) (sym e)
              (poll_client-start (x ∷ xs) future ps r all h)
      ]
  poll_client-Advances b (x ∷ xs) future (p ∷ ps) (inside more fits split sized l r all) whole =
      let some_there : ltb 0 (length (x ∷ xs)) ≡ true = ground arith in
      let going : (b.size == 0) ≡ false = ground arith in
      rw (some_there, going)
        (read_bytes-Advances b (x ∷ xs) future p more ps fits split sized r all)

  -- Looks at one client in turn: before each of them a piece of the stream arrives.
  unfoldable pub run_client :
      ClientRecvBuffer → Bytes → List Bytes → List Bytes × ClientRecvBuffer × Bytes
  unfolding poll_client
  run_client b unread [] = ([], b, unread)
  run_client b unread (c ∷ cs) =
      let q = poll_client W b (unread ++ c) in
      let (ps, b', unread') = run_client q.buffer q.unread cs in
      (delivered q.packet ++ ps, b', unread')

  -- No look finds one to three bytes of a length.
  abbrev pub WholeHeaders : ClientRecvBuffer → Bytes → List Bytes → Type 0
  WholeHeaders b unread [] = Unit
  WholeHeaders b unread (c ∷ cs) =
      let q = poll_client W b (unread ++ c) in
      WholeHeader b (unread ++ c) × WholeHeaders q.buffer q.unread cs

  abbrev pub join : List Bytes → Bytes
  join [] = []
  join (c ∷ cs) = c ++ join cs

  run_client-Stands :
      (b : ClientRecvBuffer) (unread : Bytes) (cs ps : List Bytes)
      → Stands W b (unread ++ join cs) ps
      → WholeHeaders b unread cs
      → let (out, b', unread') = run_client b unread cs in
        (ps' : List Bytes) × Stands W b' (unread' ++ []) ps' × (ps ≡ out ++ ps')
  unfolding run_client
  run_client-Stands b unread [] ps st whole = (ps, st, refl)
  run_client-Stands b unread (c ∷ cs) ps st whole =
      let st' = subst (λ x. Stands W b x ps) (sym (append_assoc unread c (join cs))) st in
      let (ps₁, st₁, e₁) = poll_client-Advances b (unread ++ c) (join cs) ps st' whole.0 in
      let (ps₂, st₂, e₂) =
        run_client-Stands (poll_client W b (unread ++ c)).buffer
          (poll_client W b (unread ++ c)).unread cs ps₁ st₁ whole.1 in
      (
        ps₂,
        st₂,
        e₁
            ∙ ap (λ x. delivered (poll_client W b (unread ++ c)).packet ++ x) e₂
            ∙ sym (append_assoc (delivered (poll_client W b (unread ++ c)).packet) _ ps₂),
      )

  Stands-nil : (b : ClientRecvBuffer) (ps : List Bytes) → Stands W b [] ps → ps ≡ []
  unfolding frame
  Stands-nil b [] (at_start e r all) = refl
  Stands-nil b (p ∷ ps) (at_start e r all) = absurd (
      omega (
        arith,
        ap length r,
        length-append (W.encode (length p) ++ p) (stream W ps),
        length-append (W.encode (length p)) p,
      ))
  Stands-nil b (p ∷ ps) (inside more fits split sized l r all) = absurd (
      omega (
        arith,
        ap length r,
        length-append more (stream W ps),
        ap length split,
        length-append b.bytes more,
      ))

  -- The sender writes packets, none of them empty or of 2^32 bytes or more, each by `send_packet`;
  -- the stream arrives in any pieces, a look at the client after each. If no look finds only one
  -- to three bytes of a length, then what has been delivered at the end is a first part of the
  -- packets, in order and unchanged.
  pub run_client-prefix :
      (ps cs : List Bytes)
      → All Fits ps
      → join cs ≡ stream W ps
      → WholeHeaders empty_buffer [] cs
      → (ps' : List Bytes) × (ps ≡ (run_client empty_buffer [] cs).0 ++ ps')
  run_client-prefix ps cs all pieces whole =
      let (ps', st, e) = run_client-Stands empty_buffer [] cs ps (at_start refl pieces all) whole in
      (ps', e)

  -- The sender writes packets, none of them empty or of 2^32 bytes or more, each by `send_packet`;
  -- the stream arrives in any pieces, a look at the client after each. If no look finds only one
  -- to three bytes of a length, and in the end no byte is left unread in the socket, then exactly
  -- these packets have been delivered, in order.
  pub run_client_complete :
      (ps cs : List Bytes)
      → All Fits ps
      → join cs ≡ stream W ps
      → WholeHeaders empty_buffer [] cs
      → (run_client empty_buffer [] cs).2 ≡ []
      → (run_client empty_buffer [] cs).0 ≡ ps
  run_client_complete ps cs all pieces whole done =
      let (ps', st, e) = run_client-Stands empty_buffer [] cs ps (at_start refl pieces all) whole in
      let read = subst (λ x. Stands W (run_client empty_buffer [] cs).1 (x ++ []) ps') done st in
      sym (
        e ∙ ap (λ x. (run_client empty_buffer [] cs).0 ++ x) (Stands-nil _ ps' read) ∙ append-nil _)
