-- ===== src/MeshSocket/OneClient.antt =====
-- The loop of `check_packets` over many clients: what it does for one of them.
use khawasu_pc.Base.{
  ℕ, ◌≡◌, refl, ◌∙◌, ap, sym, subst, true, false, none, some, List, [], ◌∷◌, ◌++◌, Bytes, nat_eq,
  ◌==◌, if◌then◌else◌, arith, Bool-cases, Option-cases, inl, inr,
}
use khawasu_pc.Base.Dict.{Dict, All, find, IsMap}
use khawasu_pc.MeshSocket.{WordFormat, Client, Effects, check_clients, poll_client, set_unread}
use khawasu_pc.MeshSocket.Reassembly.{delivered}

-- The packets of one client among those delivered.
abbrev pub of_client : ℕ → List (ℕ × Bytes) → List Bytes
of_client k [] = []
of_client k ((a, p) ∷ l) = let rest = of_client k l in if a == k then p ∷ rest else rest

-- Only the client `k` has the handle `h`, and it has it.
abbrev pub Own : ℕ → ℕ → Dict ℕ Client → Type 0
Own k h cs = All (λ a (c : Client). (c.handle == h) ≡ (a == k)) cs

pub beq_sym : (k a : ℕ) → (k == a) ≡ false → (a == k) ≡ false
beq_sym k a h = ground arith

find-cons-none :
    (k a : ℕ) (c : Client) (cs : Dict ℕ Client)
    → find k ((a, c) ∷ cs) ≡ none
    → ((k == a) ≡ false) × (find k cs ≡ none)
unfolding find
find-cons-none k a c cs n = ground arith

find-cons_other :
    (k a : ℕ) (c : Client) (cs : Dict ℕ Client)
    → (k == a) ≡ false
    → find k ((a, c) ∷ cs) ≡ find k cs
unfolding find
find-cons_other k a c cs n = rw n refl

find-cons_own :
    (k a : ℕ) (c : Client) (cs : Dict ℕ Client) → (k == a) ≡ true → find k ((a, c) ∷ cs) ≡ some c
unfolding find
find-cons_own k a c cs n = rw n refl

module _ (W : WordFormat) (status : ℕ → ℕ) where
  -- A client after `check_packets` has looked at its socket, and the effects of that look.
  unfoldable pub look : Client → Effects → Client
  look c e =
      if status c.handle == 1
      then record c { buffer = (poll_client W c.buffer (e.unread c.handle)).buffer }
      else c

  unfoldable pub look_effects : ℕ → Client → Effects → Effects
  look_effects a c e =
      let p = poll_client W c.buffer (e.unread c.handle) in
      let e' : Effects = record {
        unread = set_unread e.unread c.handle p.unread;
        delivered = elim p.packet [ none ↦ e.delivered | some bytes ↦ (a, bytes) ∷ e.delivered ];
      } in
      if status c.handle == 1 then e' else e

  check_clients-cons :
      (a : ℕ) (c : Client) (cs : Dict ℕ Client) (e : Effects)
      → let (cs', e') = check_clients W status cs (look_effects a c e) in
        check_clients W status ((a, c) ∷ cs) e ≡ ((a, look c e) ∷ cs', e')
  unfolding check_clients look look_effects
  check_clients-cons a c cs e = refl

  handle-look : (c : Client) (e : Effects) → (look c e).handle ≡ c.handle
  unfolding look
  handle-look c e = elim (Bool-cases (status c.handle == 1)) [
    | inl ready ↦ rw ready refl
    | inr waiting ↦ rw waiting refl
  ]

  look_effects-other :
      (k h a : ℕ) (c : Client) (e : Effects)
      → (c.handle == h) ≡ false
      → (a == k) ≡ false
      → let e' = look_effects a c e in
        (e'.unread h ≡ e.unread h) × (of_client k e'.delivered ≡ of_client k e.delivered)
  unfolding look_effects
  look_effects-other k h a c e handle address = elim (Bool-cases (status c.handle == 1)) [
    | inr waiting ↦ rw waiting (refl, refl)
    | inl ready ↦
        rw (ready, handle)
          (
            refl,
            elim (Option-cases (poll_client W c.buffer (e.unread c.handle)).packet) [
              | inl nothing ↦ rw nothing refl
              | inr (p, packet) ↦ rw (packet, address) refl
            ],
          )
  ]

  poll_client-nil :
      (c : Client)
      → poll_client W c.buffer [] ≡ record { buffer = c.buffer; unread = []; packet = none }
  unfolding poll_client
  poll_client-nil c = refl

  look_effects-own :
      (k h a : ℕ) (c : Client) (e : Effects)
      → c.handle ≡ h
      → (a == k) ≡ true
      → ((status h == 1) ≡ false → e.unread h ≡ [])
      → let q = poll_client W c.buffer (e.unread h) in
        let e' = look_effects a c e in
        (look c e ≡ record c { buffer = q.buffer })
        × (e'.unread h ≡ q.unread)
        × (of_client k e'.delivered ≡ delivered q.packet ++ of_client k e.delivered)
  unfolding look look_effects
  look_effects-own k h a c e handle address readable =
      let same : (c.handle == h) ≡ true = (nat_eq.beq_iff c.handle h).1 handle in
      elim (Bool-cases (status c.handle == 1)) [
        | inl ready ↦
            rw (ready, same, handle)
              (
                refl,
                refl,
                elim (Option-cases (poll_client W c.buffer (e.unread h)).packet) [
                  | inl nothing ↦ rw nothing refl
                  | inr (p, packet) ↦ rw (packet, address) refl
                ],
              )
        | inr waiting ↦
            let empty = readable (ap (λ x. status x == 1) (sym handle) ∙ waiting) in
            rw (waiting, empty, poll_client-nil c) (refl, refl, refl)
      ]

  check_clients-find-none :
      (j : ℕ) (cs : Dict ℕ Client) (e : Effects)
      → find j cs ≡ none
      → find j (check_clients W status cs e).0 ≡ none
  unfolding check_clients find look look_effects
  check_clients-find-none j [] e n = refl
  check_clients-find-none j ((a, c) ∷ cs) e n =
      let (other, rest) = find-cons-none j a c cs n in
      find-cons_other j a (look c e) _ other
      ∙ check_clients-find-none j cs (look_effects a c e) rest

  pub check_clients-IsMap :
      (cs : Dict ℕ Client) (e : Effects) → IsMap cs → IsMap (check_clients W status cs e).0
  unfolding check_clients
  check_clients-IsMap [] e m = tt
  check_clients-IsMap ((a, c) ∷ cs) e m =
      (check_clients-find-none a cs _ m.0, check_clients-IsMap cs _ m.1)

  pub check_clients-Own :
      (k h : ℕ) (cs : Dict ℕ Client) (e : Effects)
      → Own k h cs
      → Own k h (check_clients W status cs e).0
  unfolding check_clients look look_effects
  check_clients-Own k h [] e o = tt
  check_clients-Own k h ((a, c) ∷ cs) e o =
      (ap (λ x. x == h) (handle-look c e) ∙ o.0, check_clients-Own k h cs _ o.1)

  check_clients-absent :
      (k h : ℕ) (cs : Dict ℕ Client) (e : Effects)
      → Own k h cs
      → find k cs ≡ none
      → let e' = (check_clients W status cs e).1 in
        (e'.unread h ≡ e.unread h) × (of_client k e'.delivered ≡ of_client k e.delivered)
  unfolding check_clients look_effects
  check_clients-absent k h [] e o n = (refl, refl)
  check_clients-absent k h ((a, c) ∷ cs) e o n =
      let (other, rest) = find-cons-none k a c cs n in
      let address = beq_sym k a other in
      let (u, d) = look_effects-other k h a c e (o.0 ∙ address) address in
      let (us, ds) = check_clients-absent k h cs (look_effects a c e) o.1 rest in (us ∙ u, ds ∙ d)

  pub check_clients-present :
      (k h : ℕ) (cs : Dict ℕ Client) (e : Effects) (c : Client)
      → IsMap cs
      → Own k h cs
      → find k cs ≡ some c
      → ((status h == 1) ≡ false → e.unread h ≡ [])
      → let q = poll_client W c.buffer (e.unread h) in
        let (cs', e') = check_clients W status cs e in
        (find k cs' ≡ some (record c { buffer = q.buffer }))
        × (e'.unread h ≡ q.unread)
        × (of_client k e'.delivered ≡ delivered q.packet ++ of_client k e.delivered)
  unfolding check_clients find look look_effects
  check_clients-present k h [] e c m o f readable = cc
  check_clients-present k h ((a, d) ∷ cs) e c m o f readable = elim (Bool-cases (k == a)) [
    | inl here ↦
        let found = sym (find-cons_own k a d cs here) ∙ f in
        let d_c : d ≡ c = cc in
        let a_k : k ≡ a = (nat_eq.beq_iff k a).0 here in
        let address : (a == k) ≡ true = (nat_eq.beq_iff a k).1 (sym a_k) in
        let handle : d.handle ≡ h = (nat_eq.beq_iff d.handle h).0 (o.0 ∙ address) in
        let (l, u, p) = look_effects-own k h a d e handle address readable in
        let (us, ps) =
          check_clients-absent k h cs (look_effects a d e) o.1 (ap (λ x. find x cs) a_k ∙ m.0) in
        subst
          (λ x.
            let q = poll_client W x.buffer (e.unread h) in
            let (cs', e') = check_clients W status ((a, d) ∷ cs) e in
            (find k cs' ≡ some (record x { buffer = q.buffer }))
            × (e'.unread h ≡ q.unread)
            × (of_client k e'.delivered ≡ delivered q.packet ++ of_client k e.delivered))
          d_c (find-cons_own k a (look d e) _ here ∙ ap some l, us ∙ u, ps ∙ p)
    | inr other ↦
        let address = beq_sym k a other in
        let (u, p) = look_effects-other k h a d e (o.0 ∙ address) address in
        let f' = sym (find-cons_other k a d cs other) ∙ f in
        let (fs, us, ps) =
          check_clients-present k h cs (look_effects a d e) c m.1 o.1 f'
            (λ waiting. u ∙ readable waiting) in
        subst
          (λ x.
            let q = poll_client W c.buffer x in
            let (cs', e') = check_clients W status ((a, d) ∷ cs) e in
            (find k cs' ≡ some (record c { buffer = q.buffer }))
            × (e'.unread h ≡ q.unread)
            × (of_client k e'.delivered ≡ delivered q.packet ++ of_client k e.delivered))
          u
          (
            find-cons_other k a (look d e) _ other ∙ fs,
            us,
            ps
                ∙ ap
                    (λ x.
                      delivered (poll_client W c.buffer ((look_effects a d e).unread h)).packet
                      ++ x)
                    p,
          )
  ]
