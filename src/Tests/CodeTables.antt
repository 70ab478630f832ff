-- ===== src/Tests/CodeTables.antt =====
-- The tables with enumerators numbered in the order in which they are named, from 0, and the
-- identity as the conversion to an enumeration.
use Prim.Native.String.{String}
use text.Mathlib.TextEquality.{eq_iff}
use khawasu_pc.Base.{ℕ, ◌≡◌, ◌≢◌, refl, sym, ap, ◌∙◌, arith, ◌==◌, nat_eq, if◌then◌else◌}
use khawasu_pc.CodeTables.{
  DeviceClass, ActionType, button, relay, temperature_sensor, temp_hum_sensor, controller,
  pc2logical_adapter, lua_interpreter, led_1_dim, led_2_dim, hw_accessor, py_interpreter,
  string_name, immediate, toggle, range, label, temperature, humidity, time_delta, time,
  Enumeration, switch_name, compare_names, dev_class_to_string, dev_class_to_int,
  action_type_to_int,
}
use khawasu_pc.CodeTables.Laws.{dev_class_to_int-dev_class_to_string}

abbrev class_number : DeviceClass → ℕ
class_number DeviceClass.unknown = 0
class_number button = 1
class_number relay = 2
class_number temperature_sensor = 3
class_number temp_hum_sensor = 4
class_number controller = 5
class_number pc2logical_adapter = 6
class_number lua_interpreter = 7
class_number led_1_dim = 8
class_number led_2_dim = 9
class_number hw_accessor = 10
class_number py_interpreter = 11
class_number string_name = 12

abbrev class_at : ℕ → DeviceClass
class_at n =
    if n == 1
    then button
    else if n == 2
    then relay
    else if n == 3
    then temperature_sensor
    else if n == 4
    then temp_hum_sensor
    else if n == 5
    then controller
    else if n == 6
    then pc2logical_adapter
    else if n == 7
    then lua_interpreter
    else if n == 8
    then led_1_dim
    else if n == 9
    then led_2_dim
    else if n == 10
    then hw_accessor
    else if n == 11
    then py_interpreter
    else if n == 12
    then string_name
    else DeviceClass.unknown

class_at-number : (c : DeviceClass) → class_at (class_number c) ≡ c
class_at-number DeviceClass.unknown = refl
class_at-number button = refl
class_at-number relay = refl
class_at-number temperature_sensor = refl
class_at-number temp_hum_sensor = refl
class_at-number controller = refl
class_at-number pc2logical_adapter = refl
class_at-number lua_interpreter = refl
class_at-number led_1_dim = refl
class_at-number led_2_dim = refl
class_at-number hw_accessor = refl
class_at-number py_interpreter = refl
class_at-number string_name = refl

abbrev classes : Enumeration DeviceClass
classes = record {
  number = class_number;
  cast = λ n. n;
  number-injective = λ c d e. sym (class_at-number c) ∙ ap class_at e ∙ class_at-number d;
  cast-number = λ c. refl;
}

abbrev type_number : ActionType → ℕ
type_number ActionType.unknown = 0
type_number immediate = 1
type_number toggle = 2
type_number range = 3
type_number label = 4
type_number temperature = 5
type_number humidity = 6
type_number time_delta = 7
type_number time = 8

abbrev type_at : ℕ → ActionType
type_at n =
    if n == 1
    then immediate
    else if n == 2
    then toggle
    else if n == 3
    then range
    else if n == 4
    then label
    else if n == 5
    then temperature
    else if n == 6
    then humidity
    else if n == 7
    then time_delta
    else if n == 8
    then time
    else ActionType.unknown

type_at-number : (c : ActionType) → type_at (type_number c) ≡ c
type_at-number ActionType.unknown = refl
type_at-number immediate = refl
type_at-number toggle = refl
type_at-number range = refl
type_at-number label = refl
type_at-number temperature = refl
type_at-number humidity = refl
type_at-number time_delta = refl
type_at-number time = refl

abbrev types : Enumeration ActionType
types = record {
  number = type_number;
  cast = λ n. n;
  number-injective = λ c d e. sym (type_at-number c) ∙ ap type_at e ∙ type_at-number d;
  cast-number = λ c. refl;
}

dev_class_to_int-dev_class_to_string_example : dev_class_to_int classes "RELAY" ≡ 2
unfolding dev_class_to_string switch_name
dev_class_to_int-dev_class_to_string_example =
    dev_class_to_int-dev_class_to_string classes 2 "RELAY" refl

toggle-ne-unknown : ◌≢◌ {A = String} "TOGGLE" "UNKNOWN"
toggle-ne-unknown = ground (arith, eq_iff "TOGGLE" "UNKNOWN")

action_type_to_int-toggle : action_type_to_int classes types "TOGGLE" ≡ 2
unfolding action_type_to_int compare_names
action_type_to_int-toggle = refl
