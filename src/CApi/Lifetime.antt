-- ===== src/CApi/Lifetime.antt =====
-- c_api.h and c_api.cpp: `deinit_ctx`, and any sequence of the exported functions and of the calls
-- that the controller makes. The controller keeps its callbacks after `deinit_ctx`.
use khawasu_pc.Base.{
  ℕ, ◌≡◌, refl, ◌⊎◌, inl, inr, Bool, Option, none, some, List, [], ◌∷◌, Bytes, Option-cases,
}
use khawasu_pc.Base.Outcome.{Outcome, ok, fault, use_after_free, ◌>>=◌}
use khawasu_pc.Protocol.{Proto}
use khawasu_pc.Manager.Execute.{Round}
use khawasu_pc.Overlay.{OverlayFormat, overlay_log}
use khawasu_pc.CApi.{Action, ExecuteFunction, FetchFunction, Context}
use khawasu_pc.CApi.Functions.{
  on_new_peer, register_callback_new_device, register_callback_action_execute,
  register_callback_action_fetch, register_callback_action_execute_result,
  register_callback_action_fetch_result, create_device, remove_device, execute_action_async,
  execute_action, fetch_action_async, fetch_action, mesh_packet_handler,
}

-- A `CONTEXT*`: with its two managers, or with the pointers that `deinit_ctx` leaves in it.
pub data Instance : Type 0 where
  live freed : Context → Instance

unfoldable pub deinit_ctx : Instance → Outcome Instance
deinit_ctx (live c) = ok (freed c)
deinit_ctx (freed c) = fault use_after_free

-- A function that reads what `phy_device_manager` points to.
unfoldable pub use_manager : Instance → (Context → Outcome Context) → Outcome Instance
use_manager (live c) f = do c' ← f c; ok (live c')
use_manager (freed c) f = fault use_after_free

-- A function that writes to the context alone.
abbrev pub use_context : Instance → (Context → Context) → Instance
use_context (live c) f = live (f c)
use_context (freed c) f = freed (f c)

-- `check_packets` does nothing.
unfoldable pub check_packets : Instance → Instance
check_packets s = s

-- What the controller calls: `on_data_packet`, which may pass the packet over.
unfoldable pub on_data_packet : Proto → OverlayFormat → Instance → ℕ → Bytes → ℕ → Outcome Instance
unfolding use_manager
on_data_packet P V s src_phy memory size = elim (overlay_log V memory size) [
  | none ↦ ok s
  | some log ↦ use_manager s λ c. mesh_packet_handler P V c src_phy memory size
]

-- The calls on one context, with their arguments: those of the exported functions but `init_ctx`,
-- and those of the controller.
pub data Call : Type 0 where
  registers_new_device : Bool → Call
  registers_execute : Option ExecuteFunction → Call
  registers_fetch : Option FetchFunction → Call
  registers_execute_result registers_fetch_result : Bool → Call
  creates : (log_addr : ℕ) → Bytes → (dev_class : ℕ) → List Action → Call
  removes : (dev_port : ℕ) → Call
  executes_async :
      (dest_phy dest_log : ℕ) → Bytes → Bytes → (require_result : Bool) → (now : ℕ) → Call
  executes :
      (dest_phy dest_log : ℕ)
      → Bytes
      → Bytes
      → (require_result : Bool) → (now start_time : ℕ) → List Round
      → Call
  fetches_async : (dest_phy dest_log : ℕ) → Bytes → Bytes → (now : ℕ) → Call
  fetches : (dest_phy dest_log : ℕ) → Bytes → Bytes → (now start_time : ℕ) → List Round → Call
  checks : Call
  receives : (src_phy : ℕ) → Bytes → (size : ℕ) → Call
  meets_peer : Call
  deinits : Call

-- The returned value is the caller's.
abbrev pub ignoring {ℓ} : {A : Type ℓ} → Outcome (A × Context) → Outcome Context
ignoring result = do (_, c) ← result; ok c

module _ (P : Proto) (V : OverlayFormat) where
  unfoldable pub perform : Instance → Call → Outcome Instance
  unfolding use_manager on_data_packet deinit_ctx check_packets
  perform s (registers_new_device set) = ok (use_context s (register_callback_new_device set))
  perform s (registers_execute f) = ok (use_context s (register_callback_action_execute f))
  perform s (registers_fetch f) = ok (use_context s (register_callback_action_fetch f))
  perform s (registers_execute_result set) =
      ok (use_context s (register_callback_action_execute_result set))
  perform s (registers_fetch_result set) =
      ok (use_context s (register_callback_action_fetch_result set))
  perform s (creates log_addr name dev_class actions) =
      use_manager s λ c. ok (create_device c log_addr name dev_class actions)
  perform s (removes dev_port) = use_manager s λ c. ok (remove_device c dev_port)
  perform s (executes_async phy log name buffer require now) =
      use_manager s λ c. ignoring (execute_action_async c phy log name buffer require now)
  perform s (executes phy log name buffer require now start_time rounds) =
      use_manager s
        λ c. ignoring (execute_action P c phy log name buffer require now start_time rounds)
  perform s (fetches_async phy log name buffer now) =
      use_manager s λ c. ignoring (fetch_action_async c phy log name buffer now)
  perform s (fetches phy log name buffer now start_time rounds) =
      use_manager s λ c. ignoring (fetch_action P c phy log name buffer now start_time rounds)
  perform s checks = ok (check_packets s)
  perform s (receives src_phy memory size) = on_data_packet P V s src_phy memory size
  perform s meets_peer = use_manager s on_new_peer
  perform s deinits = deinit_ctx s

  unfoldable pub perform_all : Instance → List Call → Outcome Instance
  unfolding perform
  perform_all s [] = ok s
  perform_all s (call ∷ calls) = do s' ← perform s call; perform_all s' calls

-- A call that reads nothing of what `deinit_ctx` frees.
abbrev pub Harmless : OverlayFormat → Call → Type 0
Harmless V (registers_new_device set) = Unit
Harmless V (registers_execute f) = Unit
Harmless V (registers_fetch f) = Unit
Harmless V (registers_execute_result set) = Unit
Harmless V (registers_fetch_result set) = Unit
Harmless V checks = Unit
Harmless V (receives src_phy memory size) = overlay_log V memory size ≡ none
Harmless V (creates log_addr name dev_class actions) = ⊥
Harmless V (removes dev_port) = ⊥
Harmless V (executes_async phy log name buffer require now) = ⊥
Harmless V (executes phy log name buffer require now start_time rounds) = ⊥
Harmless V (fetches_async phy log name buffer now) = ⊥
Harmless V (fetches phy log name buffer now start_time rounds) = ⊥
Harmless V meets_peer = ⊥
Harmless V deinits = ⊥

abbrev pub AllHarmless : OverlayFormat → List Call → Type 0
AllHarmless V [] = Unit
AllHarmless V (call ∷ calls) = Harmless V call × AllHarmless V calls

-- What calls on a deinitialised context come to.
abbrev Freed : OverlayFormat → List Call → Outcome Instance → Type 0
Freed V calls o =
    (AllHarmless V calls × ((c : Context) × (o ≡ ok (freed c))))
    ⊎ ((¬ AllHarmless V calls) × (o ≡ fault use_after_free))

module _ (P : Proto) (V : OverlayFormat) where
  pub perform-freed :
      (c : Context) (call : Call)
      → (Harmless V call × ((c' : Context) × (perform P V (freed c) call ≡ ok (freed c'))))
        ⊎ ((¬ Harmless V call) × (perform P V (freed c) call ≡ fault use_after_free))
  unfolding perform
  perform-freed c (registers_new_device set) = inl (tt, (_, refl))
  perform-freed c (registers_execute f) = inl (tt, (_, refl))
  perform-freed c (registers_fetch f) = inl (tt, (_, refl))
  perform-freed c (registers_execute_result set) = inl (tt, (_, refl))
  perform-freed c (registers_fetch_result set) = inl (tt, (_, refl))
  perform-freed c checks = inl (tt, (_, refl))
  perform-freed c (receives src_phy memory size) = elim (Option-cases (overlay_log V memory size)) [
    | inl over ↦ inl (over, (c, rw (over, perform, on_data_packet) refl))
    | inr (log, there) ↦ inr ((λ over. cc), rw (there, perform, on_data_packet) refl)
  ]
  perform-freed c (creates log_addr name dev_class actions) = inr ((λ h. h), refl)
  perform-freed c (removes dev_port) = inr ((λ h. h), refl)
  perform-freed c (executes_async phy log name buffer require now) = inr ((λ h. h), refl)
  perform-freed c (executes phy log name buffer require now start_time rounds) =
      inr ((λ h. h), refl)
  perform-freed c (fetches_async phy log name buffer now) = inr ((λ h. h), refl)
  perform-freed c (fetches phy log name buffer now start_time rounds) = inr ((λ h. h), refl)
  perform-freed c meets_peer = inr ((λ h. h), refl)
  perform-freed c deinits = inr ((λ h. h), refl)

  perform_all-freed :
      (c : Context) (calls : List Call) → Freed V calls (perform_all P V (freed c) calls)
  unfolding perform_all
  perform_all-freed c [] = inl (tt, (c, refl))
  perform_all-freed c (call ∷ calls) = elim (perform-freed c call) [
    | inr (bad, failed) ↦ inr ((λ h. bad h.0), rw (failed, perform_all) refl)
    | inl (good, (c', done)) ↦ elim (perform_all-freed c' calls) [
      | inl (rest, (c'', all_done)) ↦ inl ((good, rest), (c'', rw (done, perform_all) all_done))
      | inr (bad, failed) ↦ inr ((λ h. bad h.1), rw (done, perform_all) failed)
    ]
  ]

  -- After `deinit_ctx`, calls on the context go on without fault exactly when each of them sets a
  -- client's function, is `check_packets`, or is a packet that is passed over; any other exported
  -- function, a second `deinit_ctx`, any other packet and a new peer read freed memory.
  pub perform_all-deinits :
      (c : Context) (calls : List Call)
      → let o = perform_all P V (live c) (deinits ∷ calls) in
        (AllHarmless V calls × ((c' : Context) × (o ≡ ok (freed c'))))
        ⊎ ((¬ AllHarmless V calls) × (o ≡ fault use_after_free))
  unfolding perform_all perform
  perform_all-deinits c calls = perform_all-freed c calls
