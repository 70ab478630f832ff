-- ===== src/App/Laws.antt =====
-- Which interfaces hwctrl ends up with.
use Prim.Native.String.{String}
use mathlib.Core.List.{append_assoc, append-nil}
use khawasu_pc.Base.{
  ℕ, ◌≡◌, refl, sym, ap, ◌∙◌, Bool, true, false, Option, List, [], ◌∷◌, ◌++◌, inl, inr,
  if◌then◌else◌, map,
}
use khawasu_pc.Base.Outcome.{Outcome, ok, fault, pending}
use khawasu_pc.Socket.{Platform}
use khawasu_pc.MeshSocket.{MeshSocketInterface}
use khawasu_pc.MeshSocket.Interface.{mesh_socket_interface}
use khawasu_pc.ArgParser.{Config, ComInterface, SocketInterface, EvalOrder}
use khawasu_pc.ConfigFile.{TomlFile}
use khawasu_pc.App.{
  Interface, socket, com_port, KhawasuApp, khawasu_app, is_exception, try_push, register_sockets,
  register_coms, register_fresh_socket_server, register_fresh_socket_client,
  register_fresh_com_device, load_config, main,
}

-- The constructor returns or throws an exception.
abbrev pub Survives : Outcome MeshSocketInterface → Type 0
Survives (ok i) = Unit
Survives (fault e) = is_exception e ≡ true
Survives pending = ⊥

abbrev pub opened_one : Outcome MeshSocketInterface → List Interface
opened_one (ok i) = socket i ∷ []
opened_one (fault e) = []
opened_one pending = []

module _ (O : Platform) where
  abbrev pub AllSurvive : List SocketInterface → Type 0
  AllSurvive [] = Unit
  AllSurvive (s ∷ rest) =
      Survives (mesh_socket_interface O s.hostname s.port s.is_server) × AllSurvive rest

  -- The sockets that can be opened, in order.
  abbrev pub opened : List SocketInterface → List Interface
  opened [] = []
  opened (s ∷ rest) =
      opened_one (mesh_socket_interface O s.hostname s.port s.is_server) ++ opened rest

abbrev pub with_interfaces : KhawasuApp → List Interface → KhawasuApp
with_interfaces app is = record app { interfaces = app.interfaces ++ is }

try_push-Survives :
    (app : KhawasuApp) (o : Outcome MeshSocketInterface)
    → Survives o
    → try_push app o ≡ ok (with_interfaces app (opened_one o))
try_push-Survives app (ok i) s = refl
try_push-Survives app (fault e) s =
    rw s (ap (λ x. ok (record app { interfaces = x })) (sym (append-nil app.interfaces)))
try_push-Survives app pending s = absurd s

register_one :
    (O : Platform) (is_server : Bool) (h : String) (p : ℕ) (app : KhawasuApp)
    → (if is_server
        then register_fresh_socket_server O h p app
        else register_fresh_socket_client O h p app)
      ≡ try_push app (mesh_socket_interface O h p is_server)
unfolding register_fresh_socket_server register_fresh_socket_client
register_one O true h p app = refl
register_one O false h p app = refl

register_sockets-AllSurvive :
    (O : Platform) (ss : List SocketInterface) (app : KhawasuApp)
    → AllSurvive O ss
    → register_sockets O ss app ≡ ok (with_interfaces app (opened O ss))
unfolding register_sockets
register_sockets-AllSurvive O [] app a =
    ap (λ x. ok (record app { interfaces = x })) (sym (append-nil app.interfaces))
register_sockets-AllSurvive O (s ∷ rest) app a =
    rw
      (
        register_one O s.is_server s.hostname s.port app,
        register_sockets,
        try_push-Survives app (mesh_socket_interface O s.hostname s.port s.is_server) a.0,
      )
      (register_sockets-AllSurvive O rest _ a.1
        ∙ ap (λ x. ok (record app { interfaces = x }))
            (append_assoc app.interfaces _ (opened O rest)))

-- Every serial port can be opened.
abbrev pub AllOpen : (String → ℕ → Outcome (Unit {0})) → List ComInterface → Type 0
AllOpen open_serial [] = Unit
AllOpen open_serial (d ∷ ds) = (open_serial d.path d.boudrate ≡ ok tt) × AllOpen open_serial ds

register_coms-AllOpen :
    (open_serial : String → ℕ → Outcome (Unit {0})) (ds : List ComInterface) (app : KhawasuApp)
    → AllOpen open_serial ds
    → register_coms open_serial ds app
      ≡ ok (with_interfaces app (map (λ (d : ComInterface). com_port d.path d.boudrate) ds))
unfolding register_coms register_fresh_com_device
register_coms-AllOpen open_serial [] app o =
    ap (λ x. ok (record app { interfaces = x })) (sym (append-nil app.interfaces))
register_coms-AllOpen open_serial (d ∷ ds) app o =
    rw (o.0, register_coms)
      (register_coms-AllOpen open_serial ds (with_interfaces app (com_port d.path d.boudrate ∷ []))
          o.1
        ∙ ap (λ x. ok (record app { interfaces = x }))
            (append_assoc app.interfaces (com_port d.path d.boudrate ∷ []) _))

module _ (stoi : String → Outcome ℕ) (order : EvalOrder) (to_lower : String → String)
    (file : String → Option TomlFile) (O : Platform)
    (open_serial : String → ℕ → Outcome (Unit {0})) where
  -- Where the settings are loaded, each constructor of a socket interface for them returns or throws
  -- an exception, and each of their serial ports opens, `main` starts the application: its interfaces are those of the settings'
  -- sockets that could be opened, in order, and then one for each COM port, and its network's name,
  -- address and key are the settings'. Where loading returns false, `main` returns 1.
  pub main-load_config :
      (args : List String) (port : ℕ) (loaded : Bool) (c : Config)
      → load_config stoi order to_lower file args ≡ ok (loaded, c)
      → (loaded ≡ true → AllSurvive O c.socket_interfaces)
      → (loaded ≡ true → AllOpen open_serial c.com_devices)
      → main stoi order to_lower file O open_serial args port
        ≡ ok (
            if loaded
            then inr (
                with_interfaces (khawasu_app port c.network_name c.network_addr c.network_psk) (
                  opened O c.socket_interfaces
                  ++ map (λ (d : ComInterface). com_port d.path d.boudrate) c.com_devices))
            else inl 1)
  unfolding main
  main-load_config args port true c e a o =
      let app = khawasu_app port c.network_name c.network_addr c.network_psk in
      rw
        (
          e,
          main,
          register_sockets-AllSurvive O c.socket_interfaces app (a refl),
          register_coms-AllOpen open_serial c.com_devices
              (with_interfaces app (opened O c.socket_interfaces)) (o refl),
        )
        (ap (λ x. ok (inr (record app { interfaces = x })))
          (append_assoc app.interfaces (opened O c.socket_interfaces) _))
  main-load_config args port false c e a o = rw (e, main) refl
