-- ===== src/DeviceInfo/Announce.antt =====
-- The constructor of `LogDeviceInfo` (device_info.cpp) against the announcement that a device makes.
use khawasu_pc.Base.{
  ℕ, zero, suc, ◌+◌, ◌<◌, ◌≤◌, ◌≡◌, refl, ◌∙◌, ap, Option, none, some, List, [], ◌∷◌, ◌++◌, Bytes,
  length, nat_eq, bytes_eq, arith,
}
use khawasu_pc.Base.Dict.{Dict, find, emplace, find-emplace, IsMap, emplace-IsMap}
use khawasu_pc.Protocol.{ApiAction, Hello, Proto}
use khawasu_pc.DeviceInfo.{LogDeviceInfo, c_str}

-- What a device says of itself: attributes as key and value, actions as name and type.
pub record Announced : Type 0 where
  pub dev_class : ℕ
  pub name : Bytes
  pub attribs : List (Bytes × Bytes)
  pub actions : List (Bytes × ℕ)

-- How the fields before the arrays lie in memory. Where the arrays of an attribute begin, the key
-- does and so does the value, if the key is empty.
pub record Layout (P : Proto) : Type 0 where
  pub attrib_head : (key_len value_len : ℕ) → Bytes
  pub action_head : (name_length action_type : ℕ) → Bytes
  pub value_key : P.value ≡ P.key
  pub length-attrib_head : (k v : ℕ) → length (attrib_head k v) ≡ P.key
  pub length-action_head : (n t : ℕ) → length (action_head n t) ≡ P.action_name
  pub key_len-attrib_head :
      (k v : ℕ) (more : Bytes) → k < 256 → P.key_len (attrib_head k v ++ more) ≡ some k
  pub value_len-attrib_head :
      (k v : ℕ) (more : Bytes) → v < 256 → P.value_len (attrib_head k v ++ more) ≡ some v
  pub name_length-action_head :
      (n t : ℕ) (more : Bytes) → n < 256 → P.name_length (action_head n t ++ more) ≡ some n
  pub action_type-action_head :
      (n t : ℕ) (more : Bytes) → t < 256 → P.action_type (action_head n t ++ more) ≡ some t

abbrev pub AttribsFit : List (Bytes × Bytes) → Type 0
AttribsFit [] = Unit
AttribsFit ((k, v) ∷ attribs) = (length k < 256) × (length v < 256) × AttribsFit attribs

abbrev pub ActionsFit : List (Bytes × ℕ) → Type 0
ActionsFit [] = Unit
ActionsFit ((n, t) ∷ actions) = (0 < length n) × (length n < 256) × (t < 256) × ActionsFit actions

-- The action as the client sees it: its name ends at a zero byte.
abbrev pub api_action : Bytes × ℕ → ApiAction
api_action (n, t) = record { name = c_str n; action_type = t }

abbrev pub nth_action : List (Bytes × ℕ) → ℕ → Option ApiAction
nth_action [] i = none
nth_action (a ∷ actions) zero = some (api_action a)
nth_action (a ∷ actions) (suc i) = nth_action actions i

-- How an announcement lies in memory, `more` behind it.
module _ {P : Proto} (L : Layout P) where
  unfoldable pub encode_attribs : List (Bytes × Bytes) → Bytes → Bytes
  encode_attribs [] more = more
  encode_attribs ((k, v) ∷ attribs) more =
      L.attrib_head (length k) (length v) ++ (k ++ (v ++ encode_attribs attribs more))

  unfoldable pub encode_actions : List (Bytes × ℕ) → Bytes → Bytes
  encode_actions [] more = more
  encode_actions ((n, t) ∷ actions) more =
      L.action_head (length n) t ++ (n ++ encode_actions actions more)

  unfoldable pub announce : Announced → Bytes → Hello
  unfolding encode_attribs encode_actions
  announce d more = record {
    device_class = d.dev_class;
    name_len = length d.name;
    special_attrib_count = length d.attribs;
    action_count = length d.actions;
    memory = d.name ++ encode_attribs d.attribs (encode_actions d.actions more);
  }

-- The table of attributes, and that of actions from the number `i` on.
unfoldable pub register : List (Bytes × Bytes) → Dict Bytes Bytes → Dict Bytes Bytes
register [] d = d
register ((k, v) ∷ attribs) d = register attribs (emplace k v d)

unfoldable pub number : ℕ → List (Bytes × ℕ) → Dict ℕ ApiAction → Dict ℕ ApiAction
number i [] d = d
number i (a ∷ actions) d = number (suc i) actions (emplace i (api_action a) d)

pub find-register :
    (k : Bytes) (attribs : List (Bytes × Bytes)) (d : Dict Bytes Bytes)
    → find k (register attribs d) ≡ (elim (find k d) [ none ↦ find k attribs | some v ↦ some v ])
unfolding register find
find-register k [] d = ground (arith)
find-register k ((j, v) ∷ attribs) d =
    find-register k attribs (emplace j v d)
    ∙ ground (arith, find-emplace k j v d, bytes_eq.beq_iff k j)

find-number_below :
    (i j : ℕ) (actions : List (Bytes × ℕ)) (d : Dict ℕ ApiAction)
    → j < i
    → find j (number i actions d) ≡ find j d
unfolding number
find-number_below i j [] d h = refl
find-number_below i j (a ∷ actions) d h =
    find-number_below (suc i) j actions _ (omega arith)
    ∙ ground (arith, find-emplace j i (api_action a) d)

find-number :
    (i n : ℕ) (actions : List (Bytes × ℕ)) (d : Dict ℕ ApiAction)
    → ((j : ℕ) → i ≤ j → find j d ≡ none)
    → find (i + n) (number i actions d) ≡ nth_action actions n
unfolding number
find-number i n [] d free = free (i + n) (omega arith)
find-number i zero (a ∷ actions) d free =
    find-number_below (suc i) (i + zero) actions _ (omega arith)
    ∙ ground (arith, find-emplace (i + zero) i (api_action a) d, free i (omega arith))
find-number i (suc n) (a ∷ actions) d free =
    let e : i + suc n ≡ suc i + n = omega arith in
    rw e (
      find-number (suc i) n actions (emplace i (api_action a) d)
        λ j h. ground (arith, find-emplace j i (api_action a) d, free j (omega arith)))

pub find-number_zero :
    (i : ℕ) (actions : List (Bytes × ℕ)) → find i (number 0 actions []) ≡ nth_action actions i
unfolding find
find-number_zero i actions =
    let e : i ≡ 0 + i = omega arith in
    ap (λ j. find j (number 0 actions [])) e ∙ find-number 0 i actions [] λ j h. refl

pub number-IsMap :
    (i : ℕ) (actions : List (Bytes × ℕ)) (d : Dict ℕ ApiAction)
    → IsMap d
    → IsMap (number i actions d)
unfolding number
number-IsMap i [] d m = m
number-IsMap i (a ∷ actions) d m =
    number-IsMap (suc i) actions _ (emplace-IsMap i (api_action a) d m)

-- The record of a device that has announced itself.
abbrev pub recorded : ℕ → ℕ → Announced → LogDeviceInfo
recorded phy log d = record {
  phy = phy;
  log = log;
  dev_class = d.dev_class;
  name = d.name;
  attribs = register d.attribs [];
  actions_map = number 0 d.actions [];
}
