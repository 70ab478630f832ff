-- ===== src/CodeTables/Laws.antt =====
-- The conversions are inverse to one another, but for one name.
use Prim.Native.String.{String}
use text.Mathlib.Text.{◌==◌ as str_eq}
use text.Mathlib.TextEquality.{eq_iff}
use mathlib.Core.Option.{some-injective}
use khawasu_pc.Base.{
  ℕ, ◌≡◌, ◌≢◌, ◌↔◌, sym, false, some, List, [], ◌∷◌, nat_eq, arith, Option-cases, inl, inr,
}
use khawasu_pc.CodeTables.{
  DeviceClass, ActionType, Enumeration, switch_name, compare_names, or_zero, dev_class_names,
  dev_class_tests, action_names, dev_class_to_string, dev_class_to_int, action_type_to_string,
  action_type_to_int,
}

module _ {C : Type 0} where
  -- Neither this enumerator nor this name stands in the table.
  abbrev pub IsFresh : C → String → List (C × String) → Type 0
  IsFresh c s [] = Unit
  IsFresh c s ((d, t) ∷ cases) = (c ≢ d) × (str_eq s t ≡ false) × IsFresh c s cases

  abbrev pub IsTable : List (C × String) → Type 0
  IsTable [] = Unit
  IsTable ((c, s) ∷ cases) = IsFresh c s cases × IsTable cases

module _ {C : Type 0} (E : Enumeration C) where
  switch_name-ne :
      (c : C) (t : String) (cases : List (C × String)) (s : String)
      → IsFresh c t cases
      → switch_name E cases (E.number c) ≢ some s
  unfolding switch_name
  switch_name-ne c t [] s f e = cc
  switch_name-ne c t ((d, u) ∷ cases) s f e =
      ground (arith, E.number-injective c d, switch_name-ne c t cases s f.2)

  compare_names-ne :
      (c : C) (t : String) (cases : List (C × String)) (n : ℕ)
      → IsFresh c t cases
      → compare_names E cases t ≢ some n
  unfolding compare_names
  compare_names-ne c t [] n f e = cc
  compare_names-ne c t ((d, u) ∷ cases) n f e = ground (arith, compare_names-ne c t cases n f.2)

  -- In a table, a number has a name exactly when the name has that number.
  pub switch_name_iff :
      (cases : List (C × String)) (n : ℕ) (s : String)
      → IsTable cases
      → (switch_name E cases n ≡ some s) ↔ (compare_names E cases s ≡ some n)
  unfolding switch_name compare_names
  switch_name_iff [] n s t = (λ e. cc, λ e. cc)
  switch_name_iff ((c, u) ∷ cases) n s t = ground (
    arith,
    eq_iff s u,
    switch_name_iff cases n s t.1,
    switch_name-ne c u cases s t.0,
    compare_names-ne c u cases n t.0,
  )

  compare_names-cast :
      (cases : List (C × String)) (s : String) (n : ℕ)
      → compare_names E cases s ≡ some n
      → E.cast n ≡ n
  unfolding compare_names
  compare_names-cast [] s n e = cc
  compare_names-cast ((c, u) ∷ cases) s n e =
      ground (arith, E.cast-number c, compare_names-cast cases s n)

dev_class_names-IsTable : IsTable dev_class_names
dev_class_names-IsTable = ground arith

action_names-IsTable : IsTable action_names
action_names-IsTable = ground arith

module _ (D : Enumeration DeviceClass) where
  -- The name of a device class's number is turned back into that number, as the enumeration
  -- converts it.
  pub dev_class_to_int-dev_class_to_string :
      (n : ℕ) (s : String) → dev_class_to_string D n ≡ some s → dev_class_to_int D s ≡ D.cast n
  unfolding dev_class_to_string dev_class_to_int
  dev_class_to_int-dev_class_to_string n s e =
      rw ((switch_name_iff D dev_class_names (D.cast n) s dev_class_names-IsTable).0 e)

  -- A name that is turned into a number other than 0 is the name of that number.
  pub dev_class_to_string-dev_class_to_int :
      (s : String)
      → dev_class_to_int D s ≢ 0
      → dev_class_to_string D (dev_class_to_int D s) ≡ some s
  unfolding dev_class_to_string dev_class_to_int
  dev_class_to_string-dev_class_to_int s h =
      elim (Option-cases (compare_names D dev_class_tests s)) [
        | inl e ↦ absurd (h (rw e))
        | inr (k, e) ↦
            rw (e, compare_names-cast D dev_class_names s k e)
              ((switch_name_iff D dev_class_names k s dev_class_names-IsTable).1 e)
      ]

module _ (D : Enumeration DeviceClass) (A : Enumeration ActionType) where
  action_type_to_int-names :
      (s : String)
      → s ≢ "UNKNOWN"
      → action_type_to_int D A s ≡ or_zero (compare_names A action_names s)
  unfolding action_type_to_int compare_names
  action_type_to_int-names s ne =
      let other : str_eq s "UNKNOWN" ≡ false = ground (arith, eq_iff s "UNKNOWN") in rw other

  -- The name of an action type's number, if it is not "UNKNOWN", is turned back into that number,
  -- as the enumeration converts it.
  pub action_type_to_int-action_type_to_string :
      (n : ℕ) (s : String)
      → s ≢ "UNKNOWN"
      → action_type_to_string D A n ≡ some s
      → action_type_to_int D A s ≡ A.cast n
  unfolding action_type_to_string
  action_type_to_int-action_type_to_string n s ne e = rw (
    action_type_to_int-names s ne,
    (switch_name_iff A action_names (A.cast n) s action_names-IsTable).0 e,
  )

  -- A name other than "UNKNOWN" that is turned into a number other than 0 is the name of that
  -- number.
  pub action_type_to_string-action_type_to_int :
      (s : String)
      → s ≢ "UNKNOWN"
      → action_type_to_int D A s ≢ 0
      → action_type_to_string D A (action_type_to_int D A s) ≡ some s
  unfolding action_type_to_string
  action_type_to_string-action_type_to_int s ne h =
      elim (Option-cases (compare_names A action_names s)) [
        | inl e ↦ absurd (h (rw (action_type_to_int-names s ne, e)))
        | inr (k, e) ↦
            rw (action_type_to_int-names s ne, e, compare_names-cast A action_names s k e)
              ((switch_name_iff A action_names k s action_names-IsTable).1 e)
      ]

  -- "UNKNOWN" is turned into a number that is named "UNKNOWN" again exactly when the two
  -- enumerations agree on theirs, as action types are converted.
  pub action_type_to_int-unknown :
      (action_type_to_string D A (action_type_to_int D A "UNKNOWN") ≡ some "UNKNOWN")
      ↔ (A.cast (D.number DeviceClass.unknown) ≡ A.number ActionType.unknown)
  unfolding action_type_to_string action_type_to_int switch_name compare_names
  action_type_to_int-unknown = (
    λ e. sym (
        some-injective _ _ (
          (switch_name_iff A action_names (A.cast (D.number DeviceClass.unknown)) "UNKNOWN"
              action_names-IsTable).0
            e)),
    λ e. rw e (ground arith),
  )
