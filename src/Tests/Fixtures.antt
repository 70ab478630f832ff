-- ===== src/Tests/Fixtures.antt =====
-- Concrete parameters and data: a packet layout, a relay that announces itself, a byte order, and
-- a `stoi` for a few numerals.
use Prim.Native.String.{String}
use text.Mathlib.Text.{◌==◌ as str_eq}
use khawasu_pc.Base.{
  ℕ, ◌+◌, ◌*◌, ◌/◌, ◌%◌, ◌^◌, ◌<◌, ◌≡◌, refl, false, [], ◌∷◌, Bytes, get_elem?, nat_eq, bytes_eq,
  arith, if◌then◌else◌,
}
use khawasu_pc.Base.Outcome.{Outcome, ok, fault, invalid_argument}
use khawasu_pc.Protocol.{Hello, LogicalPacket, Proto, hello_world}
use khawasu_pc.DeviceInfo.{
  LogDeviceInfo, log_device_info, parse_attribs, parse_actions, bytes_at, c_str,
}
use khawasu_pc.DeviceInfo.Announce.{Layout}
use khawasu_pc.Base.Dict.{find, emplace, assign}
use khawasu_pc.Manager.State.{Manager, phy_device_manager}
use khawasu_pc.Manager.Receive.{handle_packet}
use khawasu_pc.Manager.Execute.{Round}
use khawasu_pc.MeshSocket.{WordFormat}

abbrev pub proto : Proto
proto = record {
  key_len = λ p. get_elem? p 0;
  value_len = λ p. get_elem? p 1;
  key = 2;
  value = 2;
  name_length = λ p. get_elem? p 0;
  action_type = λ p. get_elem? p 1;
  action_name = 2;
  action_response_size = 8;
  subscription_callback_size = 10;
}

-- How the fields of an announcement lie in memory under `proto`: one byte each.
abbrev pub layout : Layout proto
layout = record {
  attrib_head = λ k v. k ∷ v ∷ [];
  action_head = λ n t. n ∷ t ∷ [];
  value_key = refl;
  length-attrib_head = λ k v. refl;
  length-action_head = λ n t. refl;
  key_len-attrib_head = λ k v more h. refl;
  value_len-attrib_head = λ k v more h. refl;
  name_length-action_head = λ n t more h. refl;
  action_type-action_head = λ n t more h. refl;
}

-- A relay "ab" with the attribute k = v and the action "on".
abbrev pub relay_hello : Hello
relay_hello = record {
  device_class = 2;
  name_len = 2;
  special_attrib_count = 1;
  action_count = 1;
  memory = 97 ∷ 98 ∷ 1 ∷ 1 ∷ 107 ∷ 118 ∷ 2 ∷ 1 ∷ 111 ∷ 110 ∷ [];
}

abbrev pub announcement : LogicalPacket
announcement = record { src_addr = 20; body = hello_world relay_hello }

abbrev pub relay : LogDeviceInfo
relay = record {
  phy = 7;
  log = 20;
  dev_class = 2;
  name = 97 ∷ 98 ∷ [];
  attribs = (107 ∷ [], 118 ∷ []) ∷ [];
  actions_map = (0, record { name = 111 ∷ 110 ∷ []; action_type = 1 }) ∷ [];
}

abbrev pub knowing : Manager
knowing = record {
  known_devices = (7, record { log_devices = (20, relay) ∷ [] }) ∷ [];
  subscriptions = [];
  action_responses = [];
  action_responses_counter = 0;
  subscription_counter = 0;
  self_port = 3;
  new_device_callback = false;
  action_callback = false;
  events = [];
}

pub knowing_lem : handle_packet proto (phy_device_manager 3) 7 announcement 40 ≡ ok knowing
unfolding handle_packet phy_device_manager log_device_info parse_attribs parse_actions bytes_at
    c_str find emplace assign
knowing_lem = refl

abbrev pub round : ℕ → Round
round clock = record { clock = clock; taken_at = clock + 1; during = [] }

abbrev pub little_bytes : ℕ → Bytes
little_bytes n = (n % 256) ∷ (n / 256 % 256) ∷ (n / 65536 % 256) ∷ (n / 16777216 % 256) ∷ []

abbrev pub little_number : Bytes → ℕ
little_number (a ∷ b ∷ c ∷ d ∷ rest) =
    a % 256 + 256 * (b % 256) + 65536 * (c % 256) + 16777216 * (d % 256)
little_number _ = 0

pub little_number-little_bytes : (n : ℕ) → n < 2 ^ 32 → little_number (little_bytes n) ≡ n
little_number-little_bytes n h = omega arith

abbrev pub little_endian : WordFormat
little_endian = record {
  encode = little_bytes;
  decode = little_number;
  length-encode = λ n. refl;
  decode-encode = little_number-little_bytes;
}

abbrev pub stoi : String → Outcome ℕ
stoi s =
    if str_eq s "1" then ok 1 else if str_eq s "49152" then ok 49152 else fault invalid_argument
