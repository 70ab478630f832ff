-- ===== src/Base/Outcome.antt =====
-- What a call of the C++ code comes to: a value, a fault, or no return within the given schedule.
use Prim.Native.Nat.{ℕ}
use mathlib.Core.Path.{◌≡◌, refl, subst}
use mathlib.Core.Option.{Option, none, some}
use mathlib.Core.Bool.{Bool, true, false}
use khawasu_pc.Base.Tests.{if◌then◌else◌}

-- A fault ends the run: a failed `assert`, an uncaught exception, or undefined behaviour.
pub data Fault : Type 0 where
  assertion_failed null_pointer bad_function_call : Fault
  out_of_bounds out_of_range length_error invalid_argument uninitialised : Fault
  connection_exception use_after_free : Fault
  exited : (status : ℕ) → Fault

pub data Outcome {ℓ} (A : Type ℓ) : Type ℓ where
  ok : A → Outcome A
  fault : Fault → Outcome A
  pending : Outcome A

infixl 5 ◌>>=◌
abbrev pub ◌>>=◌ {ℓ κ} : {A : Type ℓ} {B : Type κ} → Outcome A → (A → Outcome B) → Outcome B
pending >>= next = pending
fault e >>= next = fault e
ok a >>= next = next a

infixl 5 ◌>>◌
abbrev pub ◌>>◌ {ℓ} : {B : Type ℓ} → Outcome (Unit {0}) → Outcome B → Outcome B
first >> next = first >>= λ _. next

-- `assert(b)`, or any other check whose failure is the fault `e`.
abbrev pub guard : Bool → Fault → Outcome (Unit {0})
guard true e = ok tt
guard false e = fault e

abbrev pub or_fault {ℓ} : {A : Type ℓ} → Option A → Fault → Outcome A
or_fault none e = fault e
or_fault (some a) e = ok a

-- A sequence that comes to a value does so through one of its first part.
pub >>=-eq-ok {ℓ κ} :
    {A : Type ℓ} {B : Type κ} {b : B} (first : Outcome A) (next : A → Outcome B)
    → first >>= next ≡ ok b
    → (a : A) × (first ≡ ok a) × (next a ≡ ok b)
>>=-eq-ok pending next e = cc
>>=-eq-ok (fault e') next e = cc
>>=-eq-ok (ok a) next e = (a, refl, e)

Outcome-ok-injective {ℓ} : {A : Type ℓ} {a b : A} → ok a ≡ ok b → a ≡ b
Outcome-ok-injective e = cc

-- Every value that comes back satisfies the predicate.
abbrev pub Ensures {ℓ κ} : {A : Type ℓ} → (A → Type κ) → Outcome A → Type κ
Ensures Q (ok a) = Q a
Ensures Q (fault e) = Unit
Ensures Q pending = Unit

module _ {ℓ κ} {A : Type ℓ} (Q : A → Type κ) where
  pub Ensures-bind {ι} :
      {B : Type ι} (m : Outcome B) (f : B → Outcome A)
      → ((b : B) → m ≡ ok b → Ensures Q (f b))
      → Ensures Q (m >>= f)
  Ensures-bind (ok b) f h = h b refl
  Ensures-bind (fault e) f h = tt
  Ensures-bind pending f h = tt

  pub Ensures-guard :
      (b : Bool) (e : Fault) (m : Outcome A) → Ensures Q m → Ensures Q (guard b e >> m)
  Ensures-guard true e m h = h
  Ensures-guard false e m h = tt

  pub Ensures-eq-ok : (m : Outcome A) {a : A} → Ensures Q m → m ≡ ok a → Q a
  Ensures-eq-ok (ok b) h e = subst Q (Outcome-ok-injective e) h
  Ensures-eq-ok (fault e') h e = cc
  Ensures-eq-ok pending h e = cc

  pub Ensures-all : (m : Outcome A) → ((a : A) → m ≡ ok a → Q a) → Ensures Q m
  Ensures-all (ok a) h = h a refl
  Ensures-all (fault e) h = tt
  Ensures-all pending h = tt

  -- Rules for the branches of a method.
  pub Ensures-option {ι} :
      {B : Type ι} (o : Option B) (n : Outcome A) (s : B → Outcome A)
      → Ensures Q n
      → ((b : B) → o ≡ some b → Ensures Q (s b))
      → Ensures Q (elim o [ none ↦ n | some b ↦ s b ])
  Ensures-option none n s hn hs = hn
  Ensures-option (some b) n s hn hs = hs b refl

  pub Ensures-if :
      (b : Bool) (x y : Outcome A) → Ensures Q x → Ensures Q y → Ensures Q (if b then x else y)
  Ensures-if true x y hx hy = hx
  Ensures-if false x y hx hy = hy

-- The same for a plain value.
pub if-holds {ℓ κ} :
    {A : Type ℓ} (Q : A → Type κ) (b : Bool) (x y : A) → Q x → Q y → Q (if b then x else y)
if-holds Q true x y hx hy = hx
if-holds Q false x y hx hy = hy

-- The call comes back within its schedule, with a value or a fault.
abbrev pub Settles {ℓ} : {A : Type ℓ} → Outcome A → Type 0
Settles (ok a) = Unit
Settles (fault e) = Unit
Settles pending = ⊥

pub Settles-bind {ℓ κ} :
    {A : Type ℓ} {B : Type κ} (m : Outcome A) (f : A → Outcome B)
    → Settles m
    → ((a : A) → Settles (f a))
    → Settles (m >>= f)
Settles-bind (ok a) f h k = k a
Settles-bind (fault e) f h k = tt
Settles-bind pending f h k = absurd h

module _ {ℓ} {A : Type ℓ} where
  pub Settles-or_fault : (o : Option A) (e : Fault) → Settles (or_fault o e)
  Settles-or_fault none e = tt
  Settles-or_fault (some a) e = tt

  pub Settles-guard : (b : Bool) (e : Fault) (m : Outcome A) → Settles m → Settles (guard b e >> m)
  Settles-guard true e m h = h
  Settles-guard false e m h = tt

  pub Settles-if :
      (b : Bool) (x y : Outcome A) → Settles x → Settles y → Settles (if b then x else y)
  Settles-if true x y hx hy = hx
  Settles-if false x y hx hy = hy

  pub Settles-option {κ} :
      {B : Type κ} (o : Option B) (n : Outcome A) (s : B → Outcome A)
      → Settles n
      → ((b : B) → Settles (s b))
      → Settles (elim o [ none ↦ n | some b ↦ s b ])
  Settles-option none n s hn hs = hn
  Settles-option (some b) n s hn hs = hs b

-- A later part that needs what the first part ensures.
pub Settles-after {ℓ κ ι} :
    {A : Type ℓ} {B : Type κ} {Q : A → Type ι} (m : Outcome A) (f : A → Outcome B)
    → Settles m
    → Ensures Q m
    → ((a : A) → Q a → Settles (f a))
    → Settles (m >>= f)
Settles-after (ok a) f h q k = k a q
Settles-after (fault e) f h q k = tt
Settles-after pending f h q k = absurd h
