-- ===== src/CApi/Calls.antt =====
-- The C library under any sequence of calls.
use Prim.Native.String.{String}
use khawasu_pc.Base.{ℕ, ◌≡◌, refl, Option, List, [], ◌∷◌, Bytes, inl, inr, nat_eq}
use khawasu_pc.Base.Outcome.{
  Outcome, ok, Ensures, Ensures-bind, Ensures-all, Ensures-option, Ensures-eq-ok,
}
use khawasu_pc.Protocol.{Proto}
use khawasu_pc.DeviceInfo.{ActionResponse}
use khawasu_pc.Manager.State.{hello_sent, Manager, send_hello}
use khawasu_pc.Manager.Receive.{handle_packet}
use khawasu_pc.Manager.Valid.{IsValid}
use khawasu_pc.Manager.Valid.Receive.{handle_packet-IsValid, emit-IsValid}
use khawasu_pc.Manager.Valid.Calls.{
  Returned, Fetched, execute_action_async_by_name-IsValid, fetch_action_async_by_name-IsValid,
  execute_action_by_name-IsValid, fetch_action_by_name-IsValid,
}
use khawasu_pc.Manager.Steps.{
  send_hello-Kept, execute_action_async_by_name-Kept, fetch_action_async_by_name-Kept,
  execute_action_by_name-Kept, fetch_action_by_name-Kept,
}
use khawasu_pc.Manager.Execute.{Round, execute_action_async_by_name, execute_action_by_name}
use khawasu_pc.Manager.Fetch.{fetch_action_async_by_name, fetch_action_by_name}
use khawasu_pc.Socket.{Platform}
use khawasu_pc.MeshSocket.{MeshSocketInterface}
use khawasu_pc.Overlay.{OverlayFormat, overlay_log}
use khawasu_pc.CApi.{Context, with_manager}
use khawasu_pc.CApi.Functions.{
  init_ctx, on_new_peer, execute_action_async, execute_action, fetch_action_async, fetch_action,
  mesh_packet_handler, create_device, remove_device, register_callback_new_device,
  register_callback_action_execute, register_callback_action_fetch,
  register_callback_action_execute_result, register_callback_action_fetch_result, with_manager_void,
}
use khawasu_pc.CApi.Lifetime.{
  Instance, live, freed, Call, use_manager, ignoring, perform, perform_all, perform-freed,
  registers_new_device, registers_execute, registers_fetch, registers_execute_result,
  registers_fetch_result, creates, removes, executes_async, executes, fetches_async, fetches,
  checks, receives, meets_peer, deinits,
}
use khawasu_pc.CApi.Ready.{
  IsReady, IsWired, IsWired-Kept, Good, InstanceIsReady, with_manager-IsReady,
  with_manager_void-IsReady, same_manager-IsReady, init_ctx-IsReady,
}

module _ (P : Proto) (V : OverlayFormat) where
  mesh_packet_handler-IsReady :
      (c : Context) (src_phy : ℕ) (memory : Bytes) (size : ℕ)
      → IsReady c
      → Ensures IsReady (mesh_packet_handler P V c src_phy memory size)
  unfolding mesh_packet_handler
  mesh_packet_handler-IsReady c src_phy memory size r =
      Ensures-option IsReady (overlay_log V memory size) _ _ r λ log there.
        Ensures-bind IsReady (with_manager_void c (handle_packet P c.manager src_phy log size)) _
          λ c' e. same_manager-IsReady c' _ refl (
            Ensures-eq-ok IsReady _
              (with_manager_void-IsReady c (handle_packet P c.manager src_phy log size) (
                Ensures-all Good _ λ m' e'. (
                  Ensures-eq-ok IsValid _
                      (handle_packet-IsValid P c.manager src_phy log size r.manager) e',
                  (IsWired-Kept P).handled c.manager m' src_phy log size e' r.wired,
                )))
              e)

  -- A value that is not used.
  ignoring-IsReady {ℓ} :
      {A : Type ℓ} (result : Outcome (A × Context))
      → Ensures (λ (r : A × Context). IsReady r.1) result
      → Ensures IsReady (ignoring result)
  ignoring-IsReady result g = Ensures-bind IsReady result _ λ r e. Ensures-eq-ok _ result g e

  method-IsReady {ℓ} :
      {A : Type ℓ} (c : Context) (result : Outcome (A × Manager))
      → Ensures (λ (r : A × Manager). Good r.1) result
      → Ensures IsReady (ignoring (with_manager c result))
  method-IsReady c result g =
      ignoring-IsReady (with_manager c result) (with_manager-IsReady c result g)

  -- A call of the manager that keeps both parts.
  both-Good {ℓ} :
      {A : Type ℓ} (result : Outcome (A × Manager))
      → Ensures (λ (r : A × Manager). IsValid r.1) result
      → Ensures (λ (r : A × Manager). IsWired r.1) result
      → Ensures (λ (r : A × Manager). Good r.1) result
  both-Good result v w = Ensures-all _ result λ r e. (Ensures-eq-ok _ _ v e, Ensures-eq-ok _ _ w e)

  use_manager-IsReady :
      (s : Instance) (f : Context → Outcome Context)
      → ((c : Context) → IsReady c → Ensures IsReady (f c))
      → InstanceIsReady s
      → Ensures InstanceIsReady (use_manager s f)
  unfolding use_manager
  use_manager-IsReady (live c) f keeps r =
      Ensures-bind InstanceIsReady (f c) _ λ c' e. Ensures-eq-ok IsReady (f c) (keeps c r) e
  use_manager-IsReady (freed c) f keeps r = tt

  fetch_action-IsReady :
      (c : Context) (phy log : ℕ) (name buffer : Bytes) (now start_time : ℕ) (rounds : List Round)
      → IsReady c
      → Ensures
          (λ (r : (Bytes × ℕ) × Context). IsReady r.1)
          (fetch_action P c phy log name buffer now start_time rounds)
  unfolding fetch_action
  fetch_action-IsReady c phy log name buffer now start_time rounds r =
      let fetched = fetch_action_by_name P c.manager phy log name buffer now start_time rounds in
      let good : Ensures (λ (x : Option ActionResponse × Manager). Good x.1) fetched =
        both-Good fetched
          (Ensures-all _ fetched λ a e.
            (Ensures-eq-ok Fetched _
              (fetch_action_by_name-IsValid P c.manager phy log name buffer now start_time rounds
                r.manager)
              e).1)
          (fetch_action_by_name-Kept P IsWired (IsWired-Kept P) c.manager phy log name buffer now
            start_time rounds r.wired) in
      Ensures-bind _ (with_manager c fetched) _ λ (resp, c') e.
        Ensures-option _ resp _ _ tt λ a there.
          Ensures-eq-ok (λ (x : Option ActionResponse × Context). IsReady x.1) _
            (with_manager-IsReady c fetched good) e

  freed-IsReady : (c : Context) (call : Call) → Ensures InstanceIsReady (perform P V (freed c) call)
  freed-IsReady c call = elim (perform-freed P V c call) [
    | inl (good, (c', done)) ↦ rw done tt
    | inr (bad, failed) ↦ rw failed tt
  ]

  perform-IsReady :
      (s : Instance) (call : Call)
      → InstanceIsReady s
      → Ensures InstanceIsReady (perform P V s call)
  unfolding perform execute_action_async execute_action fetch_action_async on_new_peer create_device
      remove_device send_hello register_callback_new_device register_callback_action_execute
      register_callback_action_fetch register_callback_action_execute_result
      register_callback_action_fetch_result
  perform-IsReady (freed c) call r = freed-IsReady c call
  perform-IsReady (live c) (registers_new_device set) r = same_manager-IsReady c _ refl r
  perform-IsReady (live c) (registers_execute f) r = same_manager-IsReady c _ refl r
  perform-IsReady (live c) (registers_fetch f) r = same_manager-IsReady c _ refl r
  perform-IsReady (live c) (registers_execute_result set) r = same_manager-IsReady c _ refl r
  perform-IsReady (live c) (registers_fetch_result set) r = same_manager-IsReady c _ refl r
  perform-IsReady (live c) (creates log_addr name dev_class actions) r =
      same_manager-IsReady c _ refl r
  perform-IsReady (live c) (removes dev_port) r = same_manager-IsReady c _ refl r
  perform-IsReady (live c) (executes_async phy log name buffer require now) r =
      use_manager-IsReady (live c) _
        (λ c r.
          method-IsReady c
            (ok (execute_action_async_by_name c.manager phy log name buffer require now))
            (
              execute_action_async_by_name-IsValid c.manager phy log name buffer require now
                  r.manager,
              execute_action_async_by_name-Kept P IsWired (IsWired-Kept P) c.manager phy log name
                  buffer require now r.wired,
            ))
        r
  perform-IsReady (live c) (executes phy log name buffer require now start_time rounds) r =
      use_manager-IsReady (live c) _
        (λ c r.
          method-IsReady c
            (execute_action_by_name P c.manager phy log name buffer require now start_time rounds)
            (both-Good _
              (Ensures-all _ _ λ a e.
                (Ensures-eq-ok Returned _
                  (execute_action_by_name-IsValid P c.manager phy log name buffer require now
                    start_time rounds r.manager)
                  e).1)
              (execute_action_by_name-Kept P IsWired (IsWired-Kept P) c.manager phy log name buffer
                require now start_time rounds r.wired)))
        r
  perform-IsReady (live c) (fetches_async phy log name buffer now) r =
      use_manager-IsReady (live c) _
        (λ c r.
          method-IsReady c (ok (fetch_action_async_by_name c.manager phy log name buffer now)) (
            fetch_action_async_by_name-IsValid c.manager phy log name buffer now r.manager,
            fetch_action_async_by_name-Kept P IsWired (IsWired-Kept P) c.manager phy log name buffer
                now r.wired,
          ))
        r
  perform-IsReady (live c) (fetches phy log name buffer now start_time rounds) r =
      use_manager-IsReady (live c)
        (λ c. ignoring (fetch_action P c phy log name buffer now start_time rounds))
        (λ c r.
          ignoring-IsReady (fetch_action P c phy log name buffer now start_time rounds)
            (fetch_action-IsReady c phy log name buffer now start_time rounds r))
        r
  perform-IsReady (live c) checks r = r
  perform-IsReady (live c) (receives src_phy memory size) r =
      Ensures-option InstanceIsReady (overlay_log V memory size) _ _ r λ log there.
        use_manager-IsReady (live c) _ (λ c r. mesh_packet_handler-IsReady c src_phy memory size r)
          r
  perform-IsReady (live c) meets_peer r =
      use_manager-IsReady (live c) _
        (λ c r. with_manager_void-IsReady c (ok (send_hello c.manager)) (
          emit-IsValid (hello_sent c.manager.self_port) c.manager r.manager,
          send_hello-Kept P IsWired (IsWired-Kept P) c.manager r.wired,
        ))
        r
  perform-IsReady (live c) deinits r = tt

  perform_all-IsReady :
      (s : Instance) (calls : List Call)
      → InstanceIsReady s
      → Ensures InstanceIsReady (perform_all P V s calls)
  unfolding perform_all
  perform_all-IsReady s [] r = r
  perform_all-IsReady s (call ∷ calls) r =
      Ensures-bind InstanceIsReady (perform P V s call) _ λ s' e.
        perform_all-IsReady s' calls (Ensures-eq-ok InstanceIsReady _ (perform-IsReady s call r) e)

  -- From `init_ctx` on, over any platform, after any sequence of the exported functions and of the
  -- controller's calls that has come back, a context that is not deinitialised is ready: its manager
  -- is valid, both callbacks that `init_ctx` gave it are set, it has no subscription, and no call of
  -- the manager is left in its record, to be passed on with those of a later call.
  pub init_ctx-perform_all :
      (O : Platform) (port : ℕ) (ip : String) (peer_port : ℕ) (calls : List Call) (c c' : Context)
      (i : MeshSocketInterface)
      → init_ctx O port ip peer_port ≡ ok (c, i)
      → perform_all P V (live c) calls ≡ ok (live c')
      → IsReady c'
  init_ctx-perform_all O port ip peer_port calls c c' i made done =
      Ensures-eq-ok InstanceIsReady _
        (perform_all-IsReady (live c) calls (
          Ensures-eq-ok (λ (r : Context × MeshSocketInterface). IsReady r.0) _
            (init_ctx-IsReady O port ip peer_port) made))
        done
