-- ===== src/Manager/Execute/Clock.antt =====
-- The test of the waiting loops, and rounds in which the clock passes the deadline.
use khawasu_pc.Base.{ℕ, ◌+◌, ◌^◌, ◌≤◌, ◌<◌, ◌≡◌, ◌⊎◌, true, false, List, [], ◌∷◌, arith}
use khawasu_pc.Manager.Execute.{Round, in_time, response_timeout}

-- With a clock that does not run backwards, the loop goes on below the deadline and no longer.
pub in_time_iff :
    (clock start_time : ℕ)
    → start_time ≤ clock
    → clock < 2 ^ 64
    → (clock < start_time + response_timeout → in_time clock start_time ≡ true)
      × (start_time + response_timeout ≤ clock → in_time clock start_time ≡ false)
unfolding in_time
in_time_iff clock start_time h k = (λ l. ground arith, λ l. ground arith)

-- In some round the loop's test reads a clock at or past the deadline.
abbrev pub Expires : ℕ → List Round → Type 0
Expires start_time [] = ⊥
Expires start_time (r ∷ rs) =
    ((start_time + response_timeout ≤ r.clock) × (r.clock < 2 ^ 64)) ⊎ Expires start_time rs
