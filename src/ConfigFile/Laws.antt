-- ===== src/ConfigFile/Laws.antt =====
-- What a configuration file does to the settings of the command line.
use Prim.Native.String.{String}
use text.Mathlib.Text.{◌==◌ as str_eq}
use khawasu_pc.Base.{◌%◌, Option, some, List, [], ◌∷◌, ◌++◌, if◌then◌else◌}
use khawasu_pc.ArgParser.{Config, ComInterface, SocketInterface}
use khawasu_pc.ConfigFile.{InterfaceTable, Group, value_or, is_server_text}

-- A file as it is documented: each group and each interface is a table.
abbrev pub Tables : Type 0
Tables = List (String × List InterfaceTable)

abbrev nodes : List InterfaceTable → List (Option InterfaceTable)
nodes [] = []
nodes (t ∷ ts) = some t ∷ nodes ts

abbrev pub groups : Tables → List Group
groups [] = []
groups ((name, ts) ∷ rest) = (name, some (nodes ts)) ∷ groups rest

abbrev pub socket_of : InterfaceTable → SocketInterface
socket_of t = record {
  is_server = is_server_text t.kind;
  hostname = value_or t.host "";
  port = value_or t.port 0 % 65536;
}

abbrev pub com_of : InterfaceTable → ComInterface
com_of t = record { path = value_or t.path ""; boudrate = value_or t.baud 0 }

-- What a list of tables gives, in order.
abbrev pub each {ℓ} : {A : Type ℓ} → (InterfaceTable → A) → List InterfaceTable → List A
each f [] = []
each f (t ∷ ts) = f t ∷ each f ts

abbrev extended : List SocketInterface → List ComInterface → Config → Config
extended socks coms c = record c {
  socket_interfaces = c.socket_interfaces ++ socks;
  com_devices = c.com_devices ++ coms;
}

module _ (to_lower : String → String) where
  -- The interfaces of the groups of one type.
  pub of_type {ℓ} : {A : Type ℓ} → String → (InterfaceTable → A) → Tables → List A
  of_type type f [] = []
  of_type type f ((name, ts) ∷ rest) =
      (if str_eq (to_lower name) type then each f ts else []) ++ of_type type f rest
