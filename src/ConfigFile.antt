-- ===== src/ConfigFile.antt =====
-- The function `perform_config_toml` of config.h. The file is what the library toml++ reads: a
-- parameter, as far as the function looks into it. `to_lower` is `std::tolower` on each character.
pub mod Laws
use Prim.Native.String.{String}
use text.Mathlib.Text.{◌==◌ as str_eq}
use khawasu_pc.Base.{
  ℕ, ◌%◌, Bool, true, false, Option, none, some, List, [], ◌∷◌, ◌++◌, if◌then◌else◌,
}
use khawasu_pc.Base.Outcome.{Outcome, ok, null_pointer, or_fault, ◌>>=◌}
use khawasu_pc.ArgParser.{Config, ComInterface, SocketInterface}

-- The table of one interface; a value that is missing or of another type is `none`.
pub record InterfaceTable : Type 0 where
  pub kind : Option String
  pub host : Option String
  pub port : Option ℕ
  pub path : Option String
  pub baud : Option ℕ

-- Tables under the name of a type of interface. A node that is no table is `none`.
abbrev pub Group : Type 0
Group = String × Option (List (Option InterfaceTable))

-- The table `fresh`.
pub record TomlFile : Type 0 where
  pub addr : Option ℕ
  pub net : Option String
  pub psk : Option String
  pub interfaces : Option (List Group)

abbrev pub value_or {ℓ} : {A : Type ℓ} → Option A → A → A
value_or none d = d
value_or (some a) d = a

-- `"server" == valueTable["type"]`
abbrev pub is_server_text : Option String → Bool
is_server_text none = false
is_server_text (some s) = str_eq "server" s

-- The body of the inner loop.
unfoldable pub add_interface : String → InterfaceTable → Config → Config
add_interface interface_type t c =
    if str_eq interface_type "socket"
    then record c {
      socket_interfaces =
          c.socket_interfaces
          ++ record {
            is_server = is_server_text t.kind;
            hostname = value_or t.host "";
            port = value_or t.port 0 % 65536;
          }
            ∷ [];
    }
    else if str_eq interface_type "com"
    then record c {
      com_devices =
          c.com_devices ++ record { path = value_or t.path ""; boudrate = value_or t.baud 0 } ∷ [];
    }
    else c

-- The inner loop; a null pointer is dereferenced at a value that is no table.
unfoldable pub add_tables : String → List (Option InterfaceTable) → Config → Outcome Config
unfolding add_interface
add_tables interface_type [] c = ok c
add_tables interface_type (value ∷ values) c = do
  t ← or_fault value null_pointer
  add_tables interface_type values (add_interface interface_type t c)

module _ (to_lower : String → String) where
  -- The outer loop.
  unfoldable pub add_groups : List Group → Config → Outcome Config
  unfolding add_tables
  add_groups [] c = ok c
  add_groups ((name, tables) ∷ groups) c = do
    values ← or_fault tables null_pointer
    c' ← add_tables (to_lower name) values c
    add_groups groups c'

  -- `none` is a file that cannot be parsed. The result is what the function returns, and the
  -- configuration.
  unfoldable pub perform_config_toml : Option TomlFile → Config → Outcome (Bool × Config)
  unfolding add_groups
  perform_config_toml none c = ok (false, c)
  perform_config_toml (some file) c = do
    let c₁ = record c {
      network_addr = value_or file.addr 0;
      network_name = value_or file.net "";
      network_psk = value_or file.psk "";
    }
    interfaces ← or_fault file.interfaces null_pointer
    c₂ ← add_groups interfaces c₁
    ok (true, c₂)
