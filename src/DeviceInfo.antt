-- ===== src/DeviceInfo.antt =====
-- device_info.h and device_info.cpp: what is known of a device, the record of a request, and the
-- constructor that reads a device's announcement.
pub mod Parse
pub mod Announce
pub mod Roundtrip
use khawasu_pc.Base.{
  ℕ, zero, suc, ◌+◌, Bool, true, Option, none, List, [], ◌∷◌, Bytes, leb, length, take, drop, ◌==◌,
  nat_eq, bytes_eq, if◌then◌else◌,
}
use khawasu_pc.Base.Outcome.{Outcome, ok, fault, out_of_bounds, ◌>>=◌, ◌>>◌, guard, or_fault}
use khawasu_pc.Base.Dict.{Dict, emplace}
use khawasu_pc.Protocol.{Status, ApiAction, LogicalPacket, Hello, Proto}

pub data ActionResponseType : Type 0 where
  unknown fetch execute subscription_callback : ActionResponseType

-- `status` is `none` until it is first written: the constructor leaves it indeterminate.
pub record ActionResponse : Type 0 where
  pub is_waiting : Bool
  pub req_id : ℕ
  pub response_type : ActionResponseType
  pub src_phy : ℕ
  pub src_port : ℕ
  pub status : Option Status
  pub payload : Bytes
  pub time_sent : ℕ
  pub time_received : ℕ

unfoldable pub action_response : ℕ → ActionResponseType → ℕ → ℕ → ℕ → ActionResponse
action_response req_id type src_phy src_port time_sent = record {
  is_waiting = true;
  req_id = req_id;
  response_type = type;
  src_phy = src_phy;
  src_port = src_port;
  status = none;
  payload = [];
  time_sent = time_sent;
  time_received = 0;
}

-- The back pointer to the manager is left out: there is one manager, and each function has it.
pub record LogDeviceInfo : Type 0 where
  pub phy : ℕ
  pub log : ℕ
  pub dev_class : ℕ
  pub name : Bytes
  pub attribs : Dict Bytes Bytes
  pub actions_map : Dict ℕ ApiAction

pub record PhyDeviceInfo : Type 0 where
  pub log_devices : Dict ℕ LogDeviceInfo

-- `n` bytes at an offset from a pointer, all inside the buffer.
unfoldable pub bytes_at : ℕ → ℕ → Bytes → Outcome Bytes
bytes_at offset n p =
    if leb (offset + n) (length p) then ok (take n (drop offset p)) else fault out_of_bounds

-- What `strlen`, `strcpy` and `strcmp` see of a buffer: its bytes before the first NUL.
unfoldable pub c_str : Bytes → Bytes
c_str [] = []
c_str (b ∷ bs) = if b == 0 then [] else b ∷ c_str bs

module _ (P : Proto) where
  unfoldable pub parse_attribs : ℕ → Bytes → Dict Bytes Bytes → Outcome (Dict Bytes Bytes × Bytes)
  parse_attribs zero attrib_ptr attribs = ok (attribs, attrib_ptr)
  parse_attribs (suc n) attrib_ptr attribs = do
    key_len ← or_fault (P.key_len attrib_ptr) out_of_bounds
    key ← bytes_at P.key key_len attrib_ptr
    value_len ← or_fault (P.value_len attrib_ptr) out_of_bounds
    value ← bytes_at (P.key + key_len) value_len attrib_ptr
    parse_attribs n (drop (P.value + key_len + value_len) attrib_ptr) (emplace key value attribs)

  -- An action with an empty name is passed over, and the pointer stays where it is.
  unfoldable pub parse_actions : ℕ → ℕ → Bytes → Dict ℕ ApiAction → Outcome (Dict ℕ ApiAction)
  parse_actions zero i action_ptr actions = ok actions
  parse_actions (suc n) i action_ptr actions = do
    name_length ← or_fault (P.name_length action_ptr) out_of_bounds
    let skipped = parse_actions n (suc i) action_ptr actions
    let taken : Outcome (Dict ℕ ApiAction) = do
      action_name ← bytes_at P.action_name name_length action_ptr
      action_type ← or_fault (P.action_type action_ptr) out_of_bounds
      parse_actions n (suc i) (drop (P.action_name + name_length) action_ptr)
          (emplace i (record { name = c_str action_name; action_type = action_type }) actions)
    if name_length == 0 then skipped else taken

  unfoldable pub log_device_info : ℕ → ℕ → Hello → Outcome LogDeviceInfo
  log_device_info phy src_addr h = do
    name ← bytes_at 0 h.name_len h.memory
    (attribs, action_ptr) ← parse_attribs h.special_attrib_count (drop h.name_len h.memory) []
    actions ← parse_actions h.action_count 0 action_ptr []
    ok (record {
      phy = phy;
      log = src_addr;
      dev_class = h.device_class;
      name = name;
      attribs = attribs;
      actions_map = actions;
    })
