-- ===== src/CallbackDevice/Lookup.antt =====
-- `LogicalCallbackDevice::get_action_id`: texts in memory, compared up to a given length.
use khawasu_pc.Base.{
  ℕ, zero, suc, ◌+◌, ◌-◌, ◌%◌, ◌^◌, ◌<◌, ◌≡◌, refl, Bool, true, false, List, [], ◌∷◌, ◌++◌, Bytes,
  length, leb, ◌==◌, nat_eq, bytes_eq, bytes_beq, ap, subst, if◌then◌else◌, arith, Bool-cases, inl,
  inr,
}
use khawasu_pc.Base.Outcome.{Outcome, ok, fault, out_of_bounds, ◌>>=◌}

-- What the function reads of a `DeviceApiAction`: the memory from `name` on, and `length`.
pub record NamedAction : Type 0 where
  pub name : Bytes
  pub length : ℕ

-- The inner loop, which stops at the first difference; whether it came to the end.
unfoldable pub same_text : ℕ → Bytes → Bytes → Outcome Bool
same_text zero a b = ok true
same_text (suc n) [] b = fault out_of_bounds
same_text (suc n) (x ∷ a) [] = fault out_of_bounds
same_text (suc n) (x ∷ a) (y ∷ b) = elim (x == y) [ true ↦ same_text n a b | false ↦ ok false ]

-- An `int` is its 32-bit pattern; this is the test for a negative one.
abbrev is_negative_int : ℕ → Bool
is_negative_int n = leb (2 ^ 31) n

-- The outer loop from the action number `i` on. `string_len` is an `int`, which counts the
-- terminator. The inner loop of a negative length ends at once, as one that came to the end. For the
-- least `int` the subtraction overflows, and is taken to wrap round.
unfoldable pub search_action : ℕ → List NamedAction → Bytes → ℕ → Outcome ℕ
unfolding same_text
search_action i [] name string_len = ok 254
search_action i (a ∷ actions) name string_len =
    let later = search_action (i + 1) actions name string_len in
    if a.length == (string_len + 2 ^ 32 - 1) % 2 ^ 32
    then (if is_negative_int string_len
        then ok i
        else (do same ← same_text string_len a.name name; if same then ok i else later))
    else later

unfoldable pub get_action_id : List NamedAction → Bytes → ℕ → Outcome ℕ
unfolding search_action
get_action_id api_actions name string_len = search_action 0 api_actions name string_len

-- A text without a zero byte, as it stands in memory, and an action of that name.
abbrev pub c_string : Bytes → Bytes
c_string text = text ++ 0 ∷ []

abbrev pub named : Bytes → NamedAction
named text = record { name = c_string text; length = length text }

abbrev pub all_named : List Bytes → List NamedAction
all_named [] = []
all_named (t ∷ ts) = named t ∷ all_named ts

-- The number of the first text that is this one; 254 if there is none.
pub first_index : ℕ → List Bytes → Bytes → ℕ
first_index i [] text = 254
first_index i (t ∷ ts) text = if t == text then i else first_index (i + 1) ts text

same_text-c_string :
    (s t : Bytes)
    → length s ≡ length t
    → same_text (suc (length s)) (c_string s) (c_string t) ≡ ok (s == t)
unfolding same_text bytes_beq
same_text-c_string [] [] e = refl
same_text-c_string [] (y ∷ t) e = absurd (omega arith)
same_text-c_string (x ∷ s) [] e = absurd (omega arith)
same_text-c_string (x ∷ s) (y ∷ t) e = ground (arith, same_text-c_string s t)

search_action-first_index :
    (i : ℕ) (texts : List Bytes) (text : Bytes)
    → length text < 2 ^ 31 - 1
    → search_action i (all_named texts) (c_string text) (suc (length text))
      ≡ ok (first_index i texts text)
unfolding search_action first_index
search_action-first_index i [] text h = refl
search_action-first_index i (t ∷ ts) text h =
    elim (Bool-cases (length t == (suc (length text) + 2 ^ 32 - 1) % 2 ^ 32)) [
      | inl same ↦
          let e : length t ≡ length text = ground arith in
          let texts_same =
            subst (λ n. same_text (suc n) (c_string t) (c_string text) ≡ ok (t == text)) e
              (same_text-c_string t text e) in
          let positive : is_negative_int (suc (length text)) ≡ false = ground arith in
          rw (same, search_action, positive, texts_same)
            (ground (arith, search_action-first_index (i + 1) ts text h))
      | inr other ↦
          let ne : (t == text) ≡ false = elim (Bool-cases (t == text)) [
            | inl eq ↦ absurd (ground (arith, ap (length {A = ℕ}) ((bytes_eq.beq_iff t text).0 eq)))
            | inr d ↦ d
          ] in
          rw (other, search_action, ne) (search_action-first_index (i + 1) ts text h)
    ]

-- The number that `get_action_id` finds for a text, given with its length and terminator as an
-- `int` that is not negative, is that of the first action of this name, or 254: no action at all,
-- or the one numbered 254.
pub get_action_id_lem :
    (texts : List Bytes) (text : Bytes)
    → length text < 2 ^ 31 - 1
    → get_action_id (all_named texts) (c_string text) (length text + 1)
      ≡ ok (first_index 0 texts text)
unfolding get_action_id
get_action_id_lem texts text h =
    let one : length text + 1 ≡ suc (length text) = omega arith in
    rw (one, get_action_id) (search_action-first_index 0 texts text h)
