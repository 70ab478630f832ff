-- ===== src/ArgParser/Order.antt =====
-- Properties of `process` under either order of evaluation.
use Prim.Native.String.{String}
use text.Mathlib.Text.{◌==◌ as str_eq, starts_with}
use native.Mathlib.Nat.{le_refl}
use khawasu_pc.Base.{ℕ, zero, suc, ◌≤◌, ◌≡◌, Bool, ◌||◌, List, [], ◌∷◌, length, ◌==◌, nat_eq, arith}
use khawasu_pc.Base.Outcome.{
  Outcome, fault, Fault, Ensures, Ensures-bind, Ensures-if, Ensures-eq-ok, Settles, Settles-bind,
  Settles-if, Settles-after,
}
use khawasu_pc.ArgParser.{
  ComInterface, SocketInterface, Config, ArgParser, EvalOrder, first_to_last, last_to_first, peek,
  com_args, socket_args, relative_config, process_one, process_loop, process,
}

-- With arguments evaluated from the last to the first, the number of `--socket` is taken from the
-- word that says which kind of socket it is, so that a kind that is no number is an exception,
-- whatever stands behind it.
pub process-socket_reversed :
    (stoi : String → Outcome ℕ) (kind : String) (rest : List String) (c : Config) (e : Fault)
    → stoi kind ≡ fault e
    → process stoi last_to_first ("--socket" ∷ kind ∷ rest) c ≡ fault e
unfolding process process_loop process_one socket_args
process-socket_reversed stoi kind rest c e h = rw h (ground arith)

peek-le : (args : List String) → length (peek args).1 ≤ length args
peek-le [] = omega arith
peek-le (arg ∷ rest) = omega arith

-- At most these arguments are left.
abbrev Leaves : ℕ → ArgParser → Type 0
Leaves n p = length p.args ≤ n

module _ (stoi : String → Outcome ℕ) where
  com_args-le :
      (order : EvalOrder) (args : List String)
      → Ensures
          (λ (r : ComInterface × List String). length r.1 ≤ length args)
          (com_args stoi order args)
  unfolding com_args
  com_args-le first_to_last args =
      Ensures-bind _ (stoi _) _ λ n _. omega (arith, peek-le args, peek-le (peek args).1)
  com_args-le last_to_first args =
      Ensures-bind _ (stoi _) _ λ n _. omega (arith, peek-le args, peek-le (peek args).1)

  socket_args-le :
      (order : EvalOrder) (args : List String)
      → Ensures
          (λ (r : SocketInterface × List String). length r.1 ≤ length args)
          (socket_args stoi order args)
  unfolding socket_args
  socket_args-le first_to_last args =
      Ensures-bind _ (stoi _) _
        λ n _. omega (arith, peek-le args, peek-le (peek args).1, peek-le (peek (peek args).1).1)
  socket_args-le last_to_first args =
      Ensures-bind _ (stoi _) _
        λ n _. omega (arith, peek-le args, peek-le (peek args).1, peek-le (peek (peek args).1).1)

module _ (stoi : String → Outcome ℕ) (order : EvalOrder) where
  -- A turn takes an argument.
  process_one-Leaves :
      (arg : String) (rest : List String) (index : ℕ) (c : Config)
      → Ensures (Leaves (length rest)) (
          process_one stoi order (record { args = arg ∷ rest; relative_index = index; config = c }))
  unfolding process_one
  process_one-Leaves arg rest index c =
      Ensures-if Q (starts_with arg "-") _ _
        (Ensures-if Q (is "--net" || is "-n") _ _ (peek-le rest) (
          Ensures-if Q (is "--addr" || is "-a") _ _ (Ensures-bind Q (stoi _) _ λ n _. peek-le rest)
            (Ensures-if Q (is "--psk") _ _ (peek-le rest) (
              Ensures-if Q (is "--com") _ _
                (Ensures-bind Q (com_args stoi order rest) _
                  λ r e. Ensures-eq-ok _ _ (com_args-le stoi order rest) e)
                (Ensures-if Q (is "--socket") _ _
                  (Ensures-bind Q (socket_args stoi order rest) _
                    λ r e. Ensures-eq-ok _ _ (socket_args-le stoi order rest) e)
                  (Ensures-if Q (is "--config" || is "-c") _ _ (peek-le rest) (
                    Ensures-if Q (is "--debug") _ _ (le_refl (length rest))
                      (le_refl (length rest)))))))))
        (Ensures-bind Q (relative_config stoi index arg c) _ λ c' _. le_refl (length rest))
    where
      Q : ArgParser → Type 0
      Q = Leaves (length rest)

      is : String → Bool
      is name = str_eq arg name

module _ (stoi : String → Outcome ℕ) (settles : (s : String) → Settles (stoi s)) where
  com_args-Settles : (order : EvalOrder) (args : List String) → Settles (com_args stoi order args)
  unfolding com_args
  com_args-Settles first_to_last args = Settles-bind _ _ (settles _) λ n. tt
  com_args-Settles last_to_first args = Settles-bind _ _ (settles _) λ n. tt

  socket_args-Settles :
      (order : EvalOrder) (args : List String) → Settles (socket_args stoi order args)
  unfolding socket_args
  socket_args-Settles first_to_last args = Settles-bind _ _ (settles _) λ n. tt
  socket_args-Settles last_to_first args = Settles-bind _ _ (settles _) λ n. tt

  relative_config-Settles :
      (index : ℕ) (arg : String) (c : Config) → Settles (relative_config stoi index arg c)
  unfolding relative_config
  relative_config-Settles index arg c = Settles-if (index == 0) _ _ tt (
      Settles-if (index == 1) _ _ (Settles-bind _ _ (settles arg) λ n. tt) (
        Settles-if (index == 2) _ _ (Settles-bind _ _ (settles arg) λ n. tt)
          (Settles-if (index == 3) _ _ tt tt)))

  process_one-Settles :
      (order : EvalOrder) (arg : String) (rest : List String) (index : ℕ) (c : Config)
      → Settles (
          process_one stoi order (record { args = arg ∷ rest; relative_index = index; config = c }))
  unfolding process_one
  process_one-Settles order arg rest index c =
      Settles-if (starts_with arg "-") _ _
        (Settles-if (is "--net" || is "-n") _ _ tt (
          Settles-if (is "--addr" || is "-a") _ _ (Settles-bind _ _ (settles _) λ n. tt) (
            Settles-if (is "--psk") _ _ tt (
              Settles-if (is "--com") _ _ (Settles-bind _ _ (com_args-Settles order _) λ r. tt) (
                Settles-if (is "--socket") _ _
                  (Settles-bind _ _ (socket_args-Settles order _) λ r. tt)
                  (Settles-if (is "--config" || is "-c") _ _ tt
                    (Settles-if (is "--debug") _ _ tt tt)))))))
        (Settles-bind _ _ (relative_config-Settles index arg c) λ c'. tt)
    where
      is : String → Bool
      is name = str_eq arg name

  process_loop-Settles :
      (order : EvalOrder) (fuel : ℕ) (args : List String) (index : ℕ) (c : Config)
      → length args ≤ fuel
      → Settles (
          process_loop stoi order fuel (record { args = args; relative_index = index; config = c }))
  unfolding process_loop
  process_loop-Settles order zero [] index c h = tt
  process_loop-Settles order zero (arg ∷ rest) index c h = absurd (omega arith)
  process_loop-Settles order (suc fuel) [] index c h = tt
  process_loop-Settles order (suc fuel) (arg ∷ rest) index c h =
      Settles-if (length (arg ∷ rest) == 0) _ _ tt (
        Settles-after {Q = Leaves (length rest)}
          (process_one stoi order
            (record { args = arg ∷ rest; relative_index = index; config = c }))
          (process_loop stoi order fuel) (process_one-Settles order arg rest index c)
          (process_one-Leaves stoi order arg rest index c)
          λ p l. process_loop-Settles order fuel p.args p.relative_index p.config (omega arith))

  -- If `stoi` always comes to a number or an exception, the loop of `process` ends, whatever the
  -- arguments are and in either order of evaluation: as many turns as there are arguments are
  -- enough.
  pub process-Settles :
      (order : EvalOrder) (args : List String) (c : Config) → Settles (process stoi order args c)
  unfolding process
  process-Settles order args c =
      Settles-bind _ _ (process_loop-Settles order (length args) args 0 c (le_refl (length args)))
        λ p. tt
