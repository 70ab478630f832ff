-- ===== src/Tests/App.antt =====
-- A configuration file with a socket and a COM port, and hwctrl started with it.
use Prim.Native.String.{String}
use text.Mathlib.Text.{◌==◌ as str_eq}
use khawasu_pc.Base.{ℕ, if◌then◌else◌, ◌≡◌, refl, true, none, some, List, [], ◌∷◌, ◌++◌, inr, map}
use khawasu_pc.Base.Outcome.{Outcome, ok, fault, invalid_argument}
use khawasu_pc.ArgParser.{
  Config, ComInterface, default_config, first_to_last, process, process_loop, process_one,
  process_named_argument, com_args, socket_args,
}
use khawasu_pc.ConfigFile.{InterfaceTable, TomlFile}
use khawasu_pc.ConfigFile.Laws.{Tables, groups}
use khawasu_pc.Socket.Unix
use khawasu_pc.Socket.Unix.{unix}
use khawasu_pc.MeshSocket.Interface.{mesh_socket_interface}
use khawasu_pc.App.{khawasu_app, com_port, load_config, main}
use khawasu_pc.App.Laws.{AllSurvive, opened, with_interfaces, main-load_config}
use khawasu_pc.Tests.Fixtures.{stoi}
use khawasu_pc.Tests.Socket.{system, wide_little_endian}

abbrev server_table : InterfaceTable
server_table = record {
  kind = some "server";
  host = some "0.0.0.0";
  port = some 49152;
  path = none;
  baud = none;
}

abbrev com_table : InterfaceTable
com_table = record { kind = none; host = none; port = none; path = some "COM1"; baud = none }

abbrev tables : Tables
tables = ("socket", server_table ∷ []) ∷ ("com", com_table ∷ []) ∷ []

abbrev file : TomlFile
file = record {
  addr = none;
  net = some "dev network";
  psk = some "1234";
  interfaces = some (groups tables);
}

abbrev same_case : String → String
same_case s = s

abbrev arguments : List String
arguments = "--socket" ∷ "server" ∷ "0.0.0.0" ∷ "49152" ∷ "--com" ∷ "COM1" ∷ "1" ∷ []

abbrev settings : Config
settings = record default_config {
  socket_interfaces = record { is_server = true; hostname = "0.0.0.0"; port = 49152 } ∷ [];
  com_devices = record { path = "COM1"; boudrate = 1 } ∷ [];
}

settings_loaded :
    load_config stoi first_to_last same_case (λ path. none) arguments ≡ ok (true, settings)
unfolding load_config process process_loop process_one process_named_argument com_args socket_args
settings_loaded = refl

sockets_survive : AllSurvive (unix system wide_little_endian) settings.socket_interfaces
unfolding mesh_socket_interface Unix.create
sockets_survive = (tt, tt)

-- Only one port is there.
abbrev open_serial : String → ℕ → Outcome (Unit {0})
open_serial path boudrate = if str_eq path "COM1" then ok tt else fault invalid_argument

main-load_config_example :
    main stoi first_to_last same_case
      (λ path. none)
      (unix system wide_little_endian)
      open_serial
      arguments
      3
    ≡ ok (
        inr (
          with_interfaces (khawasu_app 3 "" 0 "") (
            opened (unix system wide_little_endian) settings.socket_interfaces
            ++ map (λ (d : ComInterface). com_port d.path d.boudrate) settings.com_devices)))
main-load_config_example =
    main-load_config stoi first_to_last same_case (λ path. none) (unix system wide_little_endian)
      open_serial arguments 3 true settings settings_loaded (λ loaded. sockets_survive)
      (λ loaded. (refl, tt))
