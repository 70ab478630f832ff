-- ===== src/ArgParser.antt =====
-- arg_parser.h and the records of config.h. `std::stoi` is the library's, a parameter that gives an
-- `int` as its 32-bit pattern, or a fault for an exception. The order in which a call's arguments
-- are evaluated is the compiler's: a parameter too, with the two orders that compilers use.
pub mod Grammar
pub mod Order
use Prim.Native.String.{String}
use text.Mathlib.Text.{◌==◌ as str_eq, starts_with}
use khawasu_pc.Base.{
  ℕ, zero, suc, ◌+◌, ◌%◌, Bool, true, false, ◌||◌, List, [], ◌∷◌, ◌++◌, leb, length, ◌==◌, nat_eq,
  if◌then◌else◌,
}
use khawasu_pc.Base.Outcome.{Outcome, ok, pending, ◌>>=◌}

pub record ComInterface : Type 0 where
  pub path : String
  pub boudrate : ℕ

-- `port` is a `short`, as its 16-bit pattern.
pub record SocketInterface : Type 0 where
  pub is_server : Bool
  pub hostname : String
  pub port : ℕ

pub record Config : Type 0 where
  pub network_name : String
  pub network_addr : ℕ
  pub network_psk : String
  pub com_devices : List ComInterface
  pub socket_interfaces : List SocketInterface
  pub config_path : String
  pub action_type : String
  pub device_addr : ℕ
  pub device_port : ℕ
  pub action_name : String
  pub action_values : List String
  pub debug : Bool

-- `Config app_config;`
abbrev pub default_config : Config
default_config = record {
  network_name = "";
  network_addr = 0;
  network_psk = "";
  com_devices = [];
  socket_interfaces = [];
  config_path = "";
  action_type = "";
  device_addr = 0;
  device_port = 0;
  action_name = "";
  action_values = [];
  debug = false;
}

-- The arguments from `current_index` on, and the other fields.
pub record ArgParser : Type 0 where
  pub args : List String
  pub relative_index : ℕ
  pub config : Config

-- `seek()`: an empty text past the end.
abbrev pub seek : List String → String
seek [] = ""
seek (arg ∷ rest) = arg

abbrev pub peek : List String → String × List String
peek [] = ("", [])
peek (arg ∷ rest) = (arg, rest)

-- Whether the arguments of a call are evaluated from the first or from the last.
pub data EvalOrder : Type 0 where
  first_to_last last_to_first : EvalOrder

module _ (stoi : String → Outcome ℕ) where
  -- `(peek(), std::stoi(peek()))`
  unfoldable pub com_args : EvalOrder → List String → Outcome (ComInterface × List String)
  com_args first_to_last args₀ =
      let (path, args₁) = peek args₀ in
      let (number, args₂) = peek args₁ in
      do boudrate ← stoi number; ok (record { path = path; boudrate = boudrate }, args₂)
  com_args last_to_first args₀ =
      let (number, args₁) = peek args₀ in
      let (path, args₂) = peek args₁ in
      do boudrate ← stoi number; ok (record { path = path; boudrate = boudrate }, args₂)

  -- `(peek() == "server", peek(), std::stoi(peek()))`
  unfoldable pub socket_args : EvalOrder → List String → Outcome (SocketInterface × List String)
  socket_args first_to_last args₀ =
      let (kind, args₁) = peek args₀ in
      let (hostname, args₂) = peek args₁ in
      let (number, args₃) = peek args₂ in
      do
        port ← stoi number
        ok (
          record { is_server = str_eq kind "server"; hostname = hostname; port = port % 65536 },
          args₃,
        )
  socket_args last_to_first args₀ =
      let (number, args₁) = peek args₀ in
      let (hostname, args₂) = peek args₁ in
      let (kind, args₃) = peek args₂ in
      do
        port ← stoi number
        ok (
          record { is_server = str_eq kind "server"; hostname = hostname; port = port % 65536 },
          args₃,
        )

  -- What `processRelativeArgument` does with the argument at a position.
  unfoldable pub relative_config : ℕ → String → Config → Outcome Config
  relative_config index arg c =
      if index == 0
      then ok (record c { action_type = arg })
      else if index == 1
      then (do addr ← stoi arg; ok (record c { device_addr = addr }))
      else if index == 2
      then (do port ← stoi arg; ok (record c { device_port = port }))
      else if index == 3
      then ok (record c { action_name = arg })
      else ok (record c { action_values = c.action_values ++ arg ∷ [] })

module _ (stoi : String → Outcome ℕ) (order : EvalOrder) where
  -- `processNamedArgument`. The tests of the source exclude one another.
  unfoldable pub process_named_argument : ArgParser → Outcome ArgParser
  unfolding com_args socket_args
  process_named_argument p =
      let (name, args₁) = peek p.args in
      let (value, args₂) = peek args₁ in
      let c = p.config in
      let with_config : Config → List String → ArgParser =
        λ c' rest. record p { args = rest; config = c' } in
      if str_eq name "--net" || str_eq name "-n"
      then ok (with_config (record c { network_name = value }) args₂)
      else if str_eq name "--addr" || str_eq name "-a"
      then (do addr ← stoi value; ok (with_config (record c { network_addr = addr }) args₂))
      else if str_eq name "--psk"
      then ok (with_config (record c { network_psk = value }) args₂)
      else if str_eq name "--com"
      then (do
        (device, rest) ← com_args stoi order args₁
        ok (with_config (record c { com_devices = c.com_devices ++ device ∷ [] }) rest))
      else if str_eq name "--socket"
      then (do
        (sock, rest) ← socket_args stoi order args₁
        ok (with_config (record c { socket_interfaces = c.socket_interfaces ++ sock ∷ [] }) rest))
      else if str_eq name "--config" || str_eq name "-c"
      then ok (with_config (record c { config_path = value }) args₂)
      else if str_eq name "--debug"
      then ok (with_config (record c { debug = true }) args₁)
      else ok (with_config c args₁)

  unfoldable pub process_relative_argument : ArgParser → Outcome ArgParser
  unfolding relative_config
  process_relative_argument p =
      let (arg, rest) = peek p.args in
      do
        c ← relative_config stoi p.relative_index arg p.config
        ok (record { args = rest; relative_index = p.relative_index + 1; config = c })

  -- One turn of the loop of `process`.
  unfoldable pub process_one : ArgParser → Outcome ArgParser
  unfolding process_named_argument process_relative_argument
  process_one p =
      if starts_with (seek p.args) "-"
      then process_named_argument p
      else process_relative_argument p

  -- The loop, with fuel for its turns.
  unfoldable pub process_loop : ℕ → ArgParser → Outcome ArgParser
  unfolding process_one
  process_loop zero p = if length p.args == 0 then ok p else pending
  process_loop (suc fuel) p =
      let turn : Outcome ArgParser = process_one p >>= process_loop fuel in
      if length p.args == 0 then ok p else turn

  unfoldable pub process : List String → Config → Outcome Config
  unfolding process_loop
  process args c = do
    p ← process_loop (length args) (record { args = args; relative_index = 0; config = c })
    ok p.config
