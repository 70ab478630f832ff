-- ===== src/CApi/Ready.antt =====
-- What is true of a context of the C library between calls, from `init_ctx` on.
use Prim.Native.String.{String}
use khawasu_pc.Base.{
  ℕ, ◌≡◌, refl, ◌∙◌, ap, sym, subst, true, false, none, List, [], Bool-cases, inl, inr, arith,
  nat_eq,
}
use khawasu_pc.Base.Outcome.{Outcome, ok, ◌>>=◌, Ensures, Ensures-bind, Ensures-eq-ok}
use khawasu_pc.Base.Dict.{find}
use khawasu_pc.Protocol.{
  Proto, Hello, Body, hello_world, hello_world_response, action_execute_result, action_response,
  subscription_done, subscription_callback, other_type,
}
use khawasu_pc.Manager.State.{Manager, Event, phy_device_manager, call_action, start}
use khawasu_pc.Manager.Receive.{handle_packet, handle_body, handle_hello}
use khawasu_pc.Manager.Receive.Devices.{announced, handle_hello-eq-ok}
use khawasu_pc.Manager.Valid.{IsValid, phy_device_manager-IsValid}
use khawasu_pc.Manager.Valid.Receive.{emit-IsValid}
use khawasu_pc.Manager.Steps.{Kept}
use khawasu_pc.Socket.{Platform}
use khawasu_pc.MeshSocket.{MeshSocketInterface}
use khawasu_pc.MeshSocket.Interface.{mesh_socket_interface}
use khawasu_pc.CApi.{Context, deliver_all, with_manager}
use khawasu_pc.CApi.Requests.{has_null_call, deliver_all-ok, deliver_all-null}
use khawasu_pc.CApi.Functions.{init_ctx, new_context, with_manager_void, void}
use khawasu_pc.CApi.Lifetime.{Instance, live, freed}

-- Both callbacks of `init_ctx` are set, and there is no subscription.
pub record IsWired (m : Manager) : Type 0 where
  pub tells_devices : m.new_device_callback ≡ true
  pub tells_answers : m.action_callback ≡ true
  pub unsubscribed : m.subscriptions ≡ []

-- No call of the manager is left in its record.
pub record IsReady (c : Context) : Type 0 where
  pub manager : IsValid c.manager
  pub wired : IsWired c.manager
  pub delivered : c.manager.events ≡ []

-- After `deinit_ctx` there is no manager.
abbrev pub InstanceIsReady : Instance → Type 0
InstanceIsReady (live c) = IsReady c
InstanceIsReady (freed c) = Unit

module _ (P : Proto) where
  handle_hello-IsWired :
      (m m' : Manager) (src_phy src_addr : ℕ) (h : Hello)
      → handle_hello P m src_phy src_addr h ≡ ok m'
      → IsWired m
      → IsWired m'
  unfolding announced
  handle_hello-IsWired m m' src_phy src_addr h e w =
      let (info, _, f) = handle_hello-eq-ok P m m' src_phy src_addr h e in ground arith

  handle_body-IsWired :
      (m m' : Manager) (src_phy size src_addr : ℕ) (b : Body)
      → handle_body P m src_phy size src_addr b ≡ ok m'
      → IsWired m
      → IsWired m'
  unfolding handle_body call_action find
  handle_body-IsWired m m' src_phy size addr (hello_world h) e w =
      handle_hello-IsWired m m' src_phy addr h e w
  handle_body-IsWired m m' src_phy size addr (hello_world_response h) e w =
      handle_hello-IsWired m m' src_phy addr h e w
  handle_body-IsWired m m' src_phy size addr (action_execute_result id s) e w = ground arith
  handle_body-IsWired m m' src_phy size addr (action_response id s p) e w = ground arith
  handle_body-IsWired m m' src_phy size addr (subscription_done id) e w =
      let nobody : find id m.subscriptions ≡ none = ap (find id) w.unsubscribed in ground arith
  handle_body-IsWired m m' src_phy size addr (subscription_callback id p) e w =
      let nobody : find id m.subscriptions ≡ none = ap (find id) w.unsubscribed in ground arith
  handle_body-IsWired m m' src_phy size addr (other_type n) e w = ground arith

  pub IsWired-Kept : Kept P IsWired
  unfolding handle_packet
  IsWired-Kept = record {
    untouched = λ m m' u w. record {
      tells_devices = u.2 ∙ w.tells_devices;
      tells_answers = u.3 ∙ w.tells_answers;
      unsubscribed = u.1 ∙ w.unsubscribed;
    };
    handled = λ m m' src_phy log size e w.
        handle_body-IsWired m m' src_phy size log.src_addr log.body e w;
  }

-- What a method of the manager has to come to.
abbrev pub Good : Manager → Type 0
Good m = IsValid m × IsWired m

deliver_all-manager :
    (c : Context) (es : List Event) → Ensures (λ c'. c'.manager ≡ c.manager) (deliver_all c es)
deliver_all-manager c es = elim (Bool-cases (has_null_call es)) [
  | inl null ↦ rw (deliver_all-null c es null) tt
  | inr fine ↦ let (c', done, same) = deliver_all-ok c es fine in rw done same
]

no_events-IsReady :
    (c : Context) (m : Manager) → c.manager ≡ record m { events = [] } → Good m → IsReady c
no_events-IsReady c m e (v, w) = record {
  manager = subst IsValid (sym e) (record {
    devices = v.devices;
    responses = v.responses;
    subscribed = v.subscribed;
    request_fits = v.request_fits;
    subscription_fits = v.subscription_fits;
  });
  wired = subst IsWired (sym e) (record {
    tells_devices = w.tells_devices;
    tells_answers = w.tells_answers;
    unsubscribed = w.unsubscribed;
  });
  delivered = ap (λ (x : Manager). x.events) e;
}

pub with_manager-IsReady {ℓ} :
    {A : Type ℓ} (c : Context) (result : Outcome (A × Manager))
    → Ensures (λ (r : A × Manager). Good r.1) result
    → Ensures (λ (r : A × Context). IsReady r.1) (with_manager c result)
unfolding with_manager
with_manager-IsReady c result g = Ensures-bind _ result _ λ (a, m) e.
    Ensures-bind _ (deliver_all (record c { manager = record m { events = [] } }) m.events) _
      λ c' d.
        no_events-IsReady c' m (Ensures-eq-ok _ _ (deliver_all-manager _ m.events) d)
          (Ensures-eq-ok _ result g e)

pub with_manager_void-IsReady :
    (c : Context) (result : Outcome Manager)
    → Ensures Good result
    → Ensures IsReady (with_manager_void c result)
with_manager_void-IsReady c result g =
    Ensures-bind _ (with_manager c (result >>= λ m. ok (void m))) _ λ (u, c') e.
      Ensures-eq-ok (λ (r : Unit {0} × Context). IsReady r.1) _
        (with_manager-IsReady c _ (Ensures-bind _ result _ λ m e'. Ensures-eq-ok Good result g e'))
        e

-- Writing the client's functions and recording an effect.
pub same_manager-IsReady : (c c' : Context) → c'.manager ≡ c.manager → IsReady c → IsReady c'
same_manager-IsReady c c' e r = record {
  manager = subst IsValid (sym e) r.manager;
  wired = subst IsWired (sym e) r.wired;
  delivered = ap (λ (x : Manager). x.events) e ∙ r.delivered;
}

callbacks_set-IsValid : (port : ℕ) → IsValid (new_context port).manager
unfolding phy_device_manager
callbacks_set-IsValid port = ground (arith, phy_device_manager-IsValid port)

pub init_ctx-IsReady :
    (O : Platform) (port : ℕ) (ip : String) (peer_port : ℕ)
    → Ensures (λ (r : Context × MeshSocketInterface). IsReady r.0) (init_ctx O port ip peer_port)
unfolding init_ctx phy_device_manager start
init_ctx-IsReady O port ip peer_port =
    Ensures-bind _ (mesh_socket_interface O ip peer_port false) _ λ i e.
      Ensures-bind _ (with_manager_void (new_context port) (ok (start (new_context port).manager)))
        _
        λ c d.
          Ensures-eq-ok IsReady _
            (with_manager_void-IsReady (new_context port) (ok (start (new_context port).manager)) (
              emit-IsValid _ _ (callbacks_set-IsValid port),
              record { tells_devices = refl; tells_answers = refl; unsubscribed = refl },
            ))
            d
