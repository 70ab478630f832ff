-- ===== src/CodeTables.antt =====
-- The four conversion functions of c_api.cpp between enumerators and their names. The numbers of
-- the enumerators are khawasu_core's: a parameter, with what a `switch` over them needs.
pub mod Laws
use Prim.Native.String.{String}
use text.Mathlib.Text.{◌==◌ as str_eq}
use khawasu_pc.Base.{ℕ, ◌≡◌, Option, none, some, List, [], ◌∷◌, ◌==◌, nat_eq, if◌then◌else◌}

-- The enumerators of `DeviceClassEnum` and of `ActionType` that the functions name.
pub data DeviceClass : Type 0 where
  unknown button relay temperature_sensor temp_hum_sensor controller pc2logical_adapter :
      DeviceClass
  lua_interpreter led_1_dim led_2_dim hw_accessor py_interpreter string_name : DeviceClass

pub data ActionType : Type 0 where
  unknown immediate toggle range label temperature humidity time_delta time : ActionType

-- An enumeration of a library: the number of each enumerator, and the conversion of an
-- `unsigned int` to the enumeration. Case labels of one `switch` differ, and an enumerator's own
-- number is converted to itself.
pub record Enumeration (C : Type 0) : Type 0 where
  pub number : C → ℕ
  pub cast : ℕ → ℕ
  pub number-injective : (c d : C) → number c ≡ number d → c ≡ d
  pub cast-number : (c : C) → cast (number c) ≡ number c

module _ {C : Type 0} (E : Enumeration C) where
  -- `switch (x) { case c: return "name"; … } return nullptr;`
  unfoldable pub switch_name : List (C × String) → ℕ → Option String
  switch_name [] x = none
  switch_name ((c, name) ∷ cases) x = if x == E.number c then some name else switch_name cases x

  -- `if (strcmp(s, "name") == 0) return (unsigned int) c; …`
  unfoldable pub compare_names : List (C × String) → String → Option ℕ
  compare_names [] s = none
  compare_names ((c, name) ∷ cases) s =
      if str_eq s name then some (E.number c) else compare_names cases s

abbrev pub or_zero : Option ℕ → ℕ
or_zero none = 0
or_zero (some n) = n

-- The cases of the two `switch` statements.
abbrev pub dev_class_names : List (DeviceClass × String)
dev_class_names =
    (DeviceClass.unknown, "UNKNOWN")
    ∷ (button, "BUTTON")
    ∷ (relay, "RELAY")
    ∷ (temperature_sensor, "TEMPERATURE_SENSOR")
    ∷ (temp_hum_sensor, "TEMP_HUM_SENSOR")
    ∷ (controller, "CONTROLLER")
    ∷ (pc2logical_adapter, "PC2LOGICAL_ADAPTER")
    ∷ (lua_interpreter, "LUA_INTERPRETER")
    ∷ (led_1_dim, "LED_1_DIM")
    ∷ (led_2_dim, "LED_2_DIM")
    ∷ (hw_accessor, "HW_ACCESSOR")
    ∷ (py_interpreter, "PY_INTERPRETER")
    ∷ (string_name, "STRING_NAME")
    ∷ []

abbrev pub action_names : List (ActionType × String)
action_names =
    (ActionType.unknown, "UNKNOWN")
    ∷ (immediate, "IMMEDIATE")
    ∷ (toggle, "TOGGLE")
    ∷ (range, "RANGE")
    ∷ (label, "LABEL")
    ∷ (temperature, "TEMPERATURE")
    ∷ (humidity, "HUMIDITY")
    ∷ (time_delta, "TIME_DELTA")
    ∷ (time, "TIME")
    ∷ []

-- The tests of the two chains of comparisons; that of an action type's begins with another
-- enumeration's name.
abbrev pub dev_class_tests : List (DeviceClass × String)
dev_class_tests =
    (DeviceClass.unknown, "UNKNOWN")
    ∷ (button, "BUTTON")
    ∷ (relay, "RELAY")
    ∷ (temperature_sensor, "TEMPERATURE_SENSOR")
    ∷ (temp_hum_sensor, "TEMP_HUM_SENSOR")
    ∷ (controller, "CONTROLLER")
    ∷ (pc2logical_adapter, "PC2LOGICAL_ADAPTER")
    ∷ (lua_interpreter, "LUA_INTERPRETER")
    ∷ (led_1_dim, "LED_1_DIM")
    ∷ (led_2_dim, "LED_2_DIM")
    ∷ (hw_accessor, "HW_ACCESSOR")
    ∷ (py_interpreter, "PY_INTERPRETER")
    ∷ (string_name, "STRING_NAME")
    ∷ []

abbrev pub action_tests : List (ActionType × String)
action_tests =
    (immediate, "IMMEDIATE")
    ∷ (toggle, "TOGGLE")
    ∷ (range, "RANGE")
    ∷ (label, "LABEL")
    ∷ (temperature, "TEMPERATURE")
    ∷ (humidity, "HUMIDITY")
    ∷ (time_delta, "TIME_DELTA")
    ∷ (time, "TIME")
    ∷ []

module _ (D : Enumeration DeviceClass) where
  unfoldable pub dev_class_to_string : ℕ → Option String
  dev_class_to_string n = switch_name D dev_class_names (D.cast n)

  unfoldable pub dev_class_to_int : String → ℕ
  dev_class_to_int s = or_zero (compare_names D dev_class_tests s)

module _ (D : Enumeration DeviceClass) (A : Enumeration ActionType) where
  unfoldable pub action_type_to_string : ℕ → Option String
  action_type_to_string n = switch_name A action_names (A.cast n)

  -- The first test returns an enumerator of the other enumeration.
  unfoldable pub action_type_to_int : String → ℕ
  action_type_to_int s =
      if str_eq s "UNKNOWN"
      then D.number DeviceClass.unknown
      else or_zero (compare_names A action_tests s)
