-- ===== src/Tests/ArgParser.antt =====
-- The command line `--addr 1 --socket client localhost 49152 set 1 49152 --debug level high low`.
use Prim.Native.String.{String}
use text.Mathlib.Text.{◌==◌ as str_eq}
use khawasu_pc.Base.{◌≡◌, refl, false, List, [], ◌∷◌}
use khawasu_pc.Base.Outcome.{ok, ◌>>=◌, Settles, Settles-if}
use khawasu_pc.ArgParser.{default_config, first_to_last, last_to_first, process}
use khawasu_pc.ArgParser.Grammar.{
  Word, addr, socket, debug, positional, apply_all, command_line, process-command_line,
}
use khawasu_pc.ArgParser.Order.{process-Settles}
use khawasu_pc.Tests.Fixtures.{stoi}

abbrev line : List Word
line =
    addr false "1"
    ∷ socket false "localhost" "49152"
    ∷ positional "set"
    ∷ positional "1"
    ∷ positional "49152"
    ∷ debug
    ∷ positional "level"
    ∷ positional "high"
    ∷ positional "low"
    ∷ []

process-command_line_example :
    process stoi first_to_last (command_line line) default_config
    ≡ (apply_all stoi line 0 default_config >>= λ (_, c'). ok c')
process-command_line_example =
    process-command_line stoi line default_config
      (tt, (tt, (refl, (refl, (refl, (tt, (refl, (refl, (refl, tt)))))))))

stoi-Settles : (s : String) → Settles (stoi s)
stoi-Settles s = Settles-if (str_eq s "1") _ _ tt (Settles-if (str_eq s "49152") _ _ tt tt)

process-Settles_example : Settles (process stoi last_to_first ("--addr" ∷ "1" ∷ []) default_config)
process-Settles_example =
    process-Settles stoi stoi-Settles last_to_first ("--addr" ∷ "1" ∷ []) default_config
