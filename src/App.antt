-- ===== src/App.antt =====
-- khawasu_app.h, khawasu_app.cpp and main.cpp: hwctrl. Interfaces to COM ports are the mesh
-- library's, and kept by their settings. Printing is left out.
pub mod Laws
use Prim.Native.String.{String}
use text.Mathlib.Text.{◌==◌ as str_eq}
use khawasu_pc.Base.{
  ℕ, Bool, true, false, Option, none, some, List, [], ◌∷◌, ◌++◌, Bytes, if◌then◌else◌, ◌⊎◌, inl,
  inr, not,
}
use khawasu_pc.Base.Outcome.{
  Outcome, ok, fault, pending, ◌>>=◌, ◌>>◌, Fault, assertion_failed, null_pointer,
  bad_function_call, out_of_bounds, out_of_range, length_error, invalid_argument, uninitialised,
  use_after_free, connection_exception, exited,
}
use khawasu_pc.Protocol.{LogicalPacket, Proto}
use khawasu_pc.Manager.State.{Manager, phy_device_manager}
use khawasu_pc.Manager.Receive
use khawasu_pc.Socket.{Platform}
use khawasu_pc.MeshSocket.{MeshSocketInterface}
use khawasu_pc.MeshSocket.Interface.{mesh_socket_interface}
use khawasu_pc.Overlay.{OverlayFormat, overlay_log}
use khawasu_pc.ArgParser.{Config, ComInterface, SocketInterface, EvalOrder, default_config, process}
use khawasu_pc.ConfigFile.{TomlFile, perform_config_toml}

pub data Interface : Type 0 where
  socket : MeshSocketInterface → Interface
  com_port : (path : String) (boudrate : ℕ) → Interface

pub record KhawasuApp : Type 0 where
  pub fresh_network_name : String
  pub fresh_network_addr : ℕ
  pub fresh_network_psk : String
  pub phy_manager : Option Manager
  pub interfaces : List Interface

-- The constructor; `port` is the manager's.
unfoldable pub khawasu_app : ℕ → String → ℕ → String → KhawasuApp
khawasu_app port name addr psk = record {
  fresh_network_name = name;
  fresh_network_addr = addr;
  fresh_network_psk = psk;
  phy_manager = some (phy_device_manager port);
  interfaces = [];
}

-- What `catch (const std::exception&)` catches: the rest ends the process.
abbrev pub is_exception : Fault → Bool
is_exception bad_function_call = true
is_exception out_of_range = true
is_exception length_error = true
is_exception invalid_argument = true
is_exception connection_exception = true
is_exception assertion_failed = false
is_exception null_pointer = false
is_exception out_of_bounds = false
is_exception uninitialised = false
is_exception use_after_free = false
is_exception (exited status) = false

abbrev pub push : KhawasuApp → Interface → KhawasuApp
push app i = record app { interfaces = app.interfaces ++ i ∷ [] }

-- `try { interfaces.push_back(…); … } catch …`
abbrev pub try_push : KhawasuApp → Outcome MeshSocketInterface → Outcome KhawasuApp
try_push app (ok i) = ok (push app (socket i))
try_push app (fault e) = if is_exception e then ok app else fault e
try_push app pending = pending

-- `open_serial` is the constructor of the mesh library's `UnixSerial` or `Win32Serial`.
unfoldable pub register_fresh_com_device :
    (open_serial : String → ℕ → Outcome (Unit {0})) → String → ℕ → KhawasuApp → Outcome KhawasuApp
register_fresh_com_device open_serial path boudrate app =
    open_serial path boudrate >> ok (push app (com_port path boudrate))

module _ (O : Platform) where
  unfoldable pub register_fresh_socket_server : String → ℕ → KhawasuApp → Outcome KhawasuApp
  register_fresh_socket_server hostname port app =
      try_push app (mesh_socket_interface O hostname port true)

  unfoldable pub register_fresh_socket_client : String → ℕ → KhawasuApp → Outcome KhawasuApp
  register_fresh_socket_client hostname port app =
      try_push app (mesh_socket_interface O hostname port false)

  -- The two loops of `main` over the configuration.
  unfoldable pub register_sockets : List SocketInterface → KhawasuApp → Outcome KhawasuApp
  unfolding register_fresh_socket_server register_fresh_socket_client
  register_sockets [] app = ok app
  register_sockets (s ∷ rest) app = do
    app' ←
        if s.is_server
        then register_fresh_socket_server s.hostname s.port app
        else register_fresh_socket_client s.hostname s.port app
    register_sockets rest app'

unfoldable pub register_coms :
    (open_serial : String → ℕ → Outcome (Unit {0}))
    → List ComInterface
    → KhawasuApp
    → Outcome KhawasuApp
unfolding register_fresh_com_device
register_coms open_serial [] app = ok app
register_coms open_serial (d ∷ rest) app = do
  app' ← register_fresh_com_device open_serial d.path d.boudrate app
  register_coms open_serial rest app'

-- `main` up to its endless loop: the status it returns, or the application. `file` is what toml++
-- reads under a path.
module _ (stoi : String → Outcome ℕ) (order : EvalOrder) (to_lower : String → String)
    (file : String → Option TomlFile) where
  -- The settings: those of the arguments, and of the file if one is named.
  unfoldable pub load_config : List String → Outcome (Bool × Config)
  load_config args = do
    c ← process stoi order args default_config
    if not (str_eq c.config_path "")
        then perform_config_toml to_lower (file c.config_path) c
        else ok (true, c)

  unfoldable pub main :
      Platform
      → (open_serial : String → ℕ → Outcome (Unit {0})) → List String
      → (port : ℕ) → Outcome (ℕ ⊎ KhawasuApp)
  unfolding load_config
  main O open_serial args port = do
    (loaded, c) ← load_config args
    let app = khawasu_app port c.network_name c.network_addr c.network_psk
    if loaded
        then (do
          app' ← register_sockets O c.socket_interfaces app
          app'' ← register_coms open_serial c.com_devices app'
          ok (inr app''))
        else ok (inl 1)

-- The arguments of a call of khawasu_core's `dispatch_packet`: the packet, its size and its sender.
abbrev pub Dispatched : Type 0
Dispatched = LogicalPacket × ℕ × ℕ

module _ (P : Proto) where
  -- `KhawasuApp::mesh_packet_handler`: what it dispatches, and then what its call of the manager's
  -- handler, which comes after that, leaves of the application, or the fault.
  unfoldable pub mesh_packet_handler :
      OverlayFormat → KhawasuApp → ℕ → Bytes → ℕ → List Dispatched × Outcome KhawasuApp
  mesh_packet_handler V app src_phy memory size = elim (overlay_log V memory size) [
    | none ↦ ([], ok app)
    | some log ↦ (
      (log, size, src_phy) ∷ [],
      elim app.phy_manager [
        | none ↦ ok app
        | some m ↦ do
          m' ← Receive.handle_packet P m src_phy log size
          ok (record app { phy_manager = some m' })
      ],
    )
  ]
