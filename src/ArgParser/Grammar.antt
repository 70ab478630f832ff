-- ===== src/ArgParser/Grammar.antt =====
-- The command line as a sequence of words, and what `process` makes of it.
use Prim.Native.String.{String}
use text.Mathlib.Text.{starts_with}
use khawasu_pc.Base.{
  ℕ, zero, suc, ◌+◌, ◌%◌, ◌≤◌, ◌<◌, ◌≡◌, refl, Bool, true, false, List, [], ◌∷◌, ◌++◌, length, ◌==◌,
  nat_eq, arith, if◌then◌else◌,
}
use khawasu_pc.Base.Outcome.{Outcome, ok, fault, pending, ◌>>=◌}
use khawasu_pc.ArgParser.{
  Config, ArgParser, first_to_last, com_args, socket_args, relative_config, process_one,
  process_loop, process,
}

-- An option with its values, in its long or its short spelling, or a positional argument.
pub data Word : Type 0 where
  net addr config : (short : Bool) (value : String) → Word
  psk : (value : String) → Word
  com_device : (path boudrate : String) → Word
  socket : (is_server : Bool) (hostname port : String) → Word
  debug : Word
  positional : String → Word

abbrev pub spelled : Bool → String → String → String
spelled short long_name short_name = if short then short_name else long_name

abbrev pub words : Word → List String
words (net short value) = spelled short "--net" "-n" ∷ value ∷ []
words (addr short value) = spelled short "--addr" "-a" ∷ value ∷ []
words (config short value) = spelled short "--config" "-c" ∷ value ∷ []
words (psk value) = "--psk" ∷ value ∷ []
words (com_device path boudrate) = "--com" ∷ path ∷ boudrate ∷ []
words (socket is_server hostname port) =
    "--socket" ∷ (if is_server then "server" else "client") ∷ hostname ∷ port ∷ []
words debug = "--debug" ∷ []
words (positional text) = text ∷ []

abbrev pub command_line : List Word → List String
command_line [] = []
command_line (w ∷ ws) = words w ++ command_line ws

-- A positional argument does not begin with a dash.
abbrev pub IsWord : Word → Type 0
IsWord (positional text) = starts_with text "-" ≡ false
IsWord _ = Unit

abbrev pub AllWords : List Word → Type 0
AllWords [] = Unit
AllWords (w ∷ ws) = IsWord w × AllWords ws

module _ (stoi : String → Outcome ℕ) where
  -- The positional arguments of the README's `execute 1 1 power_state 1`, by their places: the
  -- action's type, the device's address, its port, the action's name, and then the action's values.
  unfoldable pub positional_config : ℕ → String → Config → Outcome Config
  positional_config zero text c = ok (record c { action_type = text })
  positional_config (suc zero) text c = do n ← stoi text; ok (record c { device_addr = n })
  positional_config (suc (suc zero)) text c = do n ← stoi text; ok (record c { device_port = n })
  positional_config (suc (suc (suc zero))) text c = ok (record c { action_name = text })
  positional_config (suc (suc (suc (suc later)))) text c =
      ok (record c { action_values = c.action_values ++ text ∷ [] })

  relative_config_lem :
      (index : ℕ) (text : String) (c : Config)
      → relative_config stoi index text c ≡ positional_config index text c
  unfolding relative_config positional_config
  relative_config_lem zero text c = refl
  relative_config_lem (suc zero) text c = refl
  relative_config_lem (suc (suc zero)) text c = refl
  relative_config_lem (suc (suc (suc zero))) text c = refl
  relative_config_lem (suc (suc (suc (suc later)))) text c = ground arith

  -- What a word means, after `index` positional arguments.
  unfoldable pub apply : Word → ℕ → Config → Outcome (ℕ × Config)
  apply (net short value) index c = ok (index, record c { network_name = value })
  apply (addr short value) index c = do n ← stoi value; ok (index, record c { network_addr = n })
  apply (config short value) index c = ok (index, record c { config_path = value })
  apply (psk value) index c = ok (index, record c { network_psk = value })
  apply (com_device path boudrate) index c = do
    n ← stoi boudrate
    ok (
      index,
      record c { com_devices = c.com_devices ++ record { path = path; boudrate = n } ∷ [] },
    )
  apply (socket is_server hostname port) index c = do
    n ← stoi port
    ok (
      index,
      record c {
        socket_interfaces =
            c.socket_interfaces
            ++ record { is_server = is_server; hostname = hostname; port = n % 65536 } ∷ [];
      },
    )
  apply debug index c = ok (index, record c { debug = true })
  apply (positional text) index c = do c' ← positional_config index text c; ok (index + 1, c')

  unfoldable pub apply_all : List Word → ℕ → Config → Outcome (ℕ × Config)
  unfolding apply
  apply_all [] index c = ok (index, c)
  apply_all (w ∷ ws) index c = apply w index c >>= λ (index', c'). apply_all ws index' c'

  abbrev parser : List String → ℕ × Config → ArgParser
  parser args (index, c) = record { args = args; relative_index = index; config = c }

  -- One turn of the loop reads one word.
  process_one-words :
      (w : Word) (rest : List String) (index : ℕ) (c : Config)
      → IsWord w
      → process_one stoi first_to_last (parser (words w ++ rest) (index, c))
        ≡ (apply w index c >>= λ r. ok (parser rest r))
  unfolding process_one com_args socket_args apply
  process_one-words (net false value) rest index c h = refl
  process_one-words (net true value) rest index c h = refl
  process_one-words (addr false value) rest index c h = ground arith
  process_one-words (addr true value) rest index c h = ground arith
  process_one-words (config false value) rest index c h = refl
  process_one-words (config true value) rest index c h = refl
  process_one-words (psk value) rest index c h = refl
  process_one-words (com_device path boudrate) rest index c h = ground arith
  process_one-words (socket false hostname port) rest index c h = ground arith
  process_one-words (socket true hostname port) rest index c h = ground arith
  process_one-words debug rest index c h = refl
  process_one-words (positional text) rest index c h =
      rw (h, relative_config_lem index text c) (ground arith)

  bind_assoc :
      (o : Outcome (ℕ × Config)) (f : ℕ × Config → Outcome (ℕ × Config)) (rest : List String)
      (k : ArgParser → Outcome ArgParser)
      → ((r : ℕ × Config) → k (parser rest r) ≡ (f r >>= λ r'. ok (parser [] r')))
      → ((o >>= λ r. ok (parser rest r)) >>= k) ≡ ((o >>= f) >>= λ r'. ok (parser [] r'))
  bind_assoc (ok r) f rest k h = h r
  bind_assoc (fault e) f rest k h = refl
  bind_assoc pending f rest k h = refl

  length-words : (w : Word) (rest : List String) → length rest < length (words w ++ rest)
  length-words (net s v) rest = omega arith
  length-words (addr s v) rest = omega arith
  length-words (config s v) rest = omega arith
  length-words (psk v) rest = omega arith
  length-words (com_device p b) rest = omega arith
  length-words (socket s h p) rest = omega arith
  length-words debug rest = omega arith
  length-words (positional t) rest = omega arith

  process_loop-words :
      (ws : List Word) (fuel index : ℕ) (c : Config)
      → AllWords ws
      → length (command_line ws) ≤ fuel
      → process_loop stoi first_to_last fuel (parser (command_line ws) (index, c))
        ≡ (apply_all ws index c >>= λ r. ok (parser [] r))
  unfolding process_loop apply_all
  process_loop-words [] zero index c a h = refl
  process_loop-words [] (suc fuel) index c a h = refl
  process_loop-words (w ∷ ws) zero index c a h =
      absurd (omega (arith, length-words w (command_line ws)))
  process_loop-words (w ∷ ws) (suc fuel) index c a h =
      let more : (length (words w ++ command_line ws) == 0) ≡ false =
        ground (arith, length-words w (command_line ws)) in
      rw (more, process_one-words w (command_line ws) index c a.0)
        (bind_assoc (apply w index c) _ (command_line ws) (process_loop stoi first_to_last fuel)
          λ r.
            process_loop-words ws fuel r.0 r.1 a.1
              (omega (arith, length-words w (command_line ws))))

  finish :
      (o : Outcome (ℕ × Config))
      → ((o >>= λ r. ok (parser [] r)) >>= λ p. ok p.config) ≡ (o >>= λ r. ok r.1)
  finish (ok r) = refl
  finish (fault e) = refl
  finish pending = refl

  -- With arguments evaluated from the first to the last, `process` reads any command line of
  -- words, the positional ones without a dash in front, word by word: the configuration, or the exception, is what the words mean in order.
  pub process-command_line :
      (ws : List Word) (c : Config)
      → AllWords ws
      → process stoi first_to_last (command_line ws) c ≡ (do (_, c') ← apply_all ws 0 c; ok c')
  unfolding process
  process-command_line ws c a =
      rw (process_loop-words ws (length (command_line ws)) 0 c a (omega arith))
        (finish (apply_all ws 0 c))
