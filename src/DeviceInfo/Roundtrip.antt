-- ===== src/DeviceInfo/Roundtrip.antt =====
-- The constructor of `LogDeviceInfo` (device_info.cpp) reads what a device announces.
use khawasu_pc.Base.{
  ℕ, suc, ◌+◌, ◌<◌, ◌≡◌, refl, ◌∙◌, ap, sym, true, false, List, [], ◌∷◌, ◌++◌, Bytes, length, drop,
  leb, nat_eq, bytes_eq, ◌==◌, arith, length-append, take-append_self, drop-append_self,
}
use mathlib.Core.List.{append_assoc}
use khawasu_pc.Base.Outcome.{ok}
use khawasu_pc.Base.Dict.{Dict, find, emplace}
use khawasu_pc.Protocol.{ApiAction, Proto}
use khawasu_pc.DeviceInfo.{LogDeviceInfo, bytes_at, parse_attribs, parse_actions, log_device_info}
use khawasu_pc.DeviceInfo.Announce.{
  Announced, Layout, AttribsFit, ActionsFit, api_action, nth_action, encode_attribs, encode_actions,
  announce, register, number, recorded, find-register, find-number_zero,
}

-- The bytes behind a first part, and what follows them.
bytes_at-append :
    (before bytes more : Bytes)
    → bytes_at (length before) (length bytes) (before ++ (bytes ++ more)) ≡ ok bytes
unfolding bytes_at
bytes_at-append before bytes more =
    let fits : leb (length before + length bytes) (length (before ++ (bytes ++ more))) ≡ true =
      ground (arith, length-append before (bytes ++ more), length-append bytes more) in
    rw (fits, drop-append_self before (bytes ++ more), take-append_self bytes more) refl

drop-append_two :
    (before bytes more : Bytes)
    → drop (length before + length bytes) (before ++ (bytes ++ more)) ≡ more
drop-append_two before bytes more =
    rw (sym (length-append before bytes), sym (append_assoc before bytes more))
      (drop-append_self (before ++ bytes) more)

module _ (P : Proto) (L : Layout P) where
  parse_attribs-cons :
      (n : ℕ) (k v rest : Bytes) (d : Dict Bytes Bytes)
      → length k < 256
      → length v < 256
      → parse_attribs P (suc n) (L.attrib_head (length k) (length v) ++ (k ++ (v ++ rest))) d
        ≡ parse_attribs P n rest (emplace k v d)
  unfolding parse_attribs
  parse_attribs-cons n k v rest d hk hv =
      let head = L.attrib_head (length k) (length v) in
      let size : P.key ≡ length head = sym (L.length-attrib_head (length k) (length v)) in
      let key : bytes_at P.key (length k) (head ++ (k ++ (v ++ rest))) ≡ ok k =
        rw size (bytes_at-append head k (v ++ rest)) in
      let both : P.key + length k ≡ length (head ++ k) =
        ap (λ x. x + length k) size ∙ sym (length-append head k) in
      let value : bytes_at (P.key + length k) (length v) (head ++ (k ++ (v ++ rest))) ≡ ok v =
        rw (both, sym (append_assoc head k (v ++ rest))) (bytes_at-append (head ++ k) v rest) in
      let after : drop (P.value + length k + length v) (head ++ (k ++ (v ++ rest))) ≡ rest =
        rw (L.value_key, both, sym (append_assoc head k (v ++ rest)))
          (drop-append_two (head ++ k) v rest) in
      rw
        (
          parse_attribs,
          L.key_len-attrib_head (length k) (length v) (k ++ (v ++ rest)) hk,
          key,
          L.value_len-attrib_head (length k) (length v) (k ++ (v ++ rest)) hv,
          value,
          after,
        )
        refl

  parse_attribs-encode_attribs :
      (attribs : List (Bytes × Bytes)) (more : Bytes) (d : Dict Bytes Bytes)
      → AttribsFit attribs
      → parse_attribs P (length attribs) (encode_attribs L attribs more) d
        ≡ ok (register attribs d, more)
  unfolding parse_attribs encode_attribs register
  parse_attribs-encode_attribs [] more d fit = refl
  parse_attribs-encode_attribs ((k, v) ∷ attribs) more d fit =
      parse_attribs-cons (length attribs) k v (encode_attribs L attribs more) d fit.0 fit.1
      ∙ parse_attribs-encode_attribs attribs more (emplace k v d) fit.2

  parse_actions-cons :
      (m i t : ℕ) (n rest : Bytes) (d : Dict ℕ ApiAction)
      → 0 < length n
      → length n < 256
      → t < 256
      → parse_actions P (suc m) i (L.action_head (length n) t ++ (n ++ rest)) d
        ≡ parse_actions P m (suc i) rest (emplace i (api_action (n, t)) d)
  unfolding parse_actions
  parse_actions-cons m i t n rest d named hn ht =
      let head = L.action_head (length n) t in
      let size : P.action_name ≡ length head = sym (L.length-action_head (length n) t) in
      let name : bytes_at P.action_name (length n) (head ++ (n ++ rest)) ≡ ok n =
        rw size (bytes_at-append head n rest) in
      let after : drop (P.action_name + length n) (head ++ (n ++ rest)) ≡ rest =
        rw size (drop-append_two head n rest) in
      let there : (length n == 0) ≡ false = ground arith in
      rw
        (
          parse_actions,
          L.name_length-action_head (length n) t (n ++ rest) hn,
          there,
          name,
          L.action_type-action_head (length n) t (n ++ rest) ht,
          after,
        )
        refl

  parse_actions-encode_actions :
      (i : ℕ) (actions : List (Bytes × ℕ)) (more : Bytes) (d : Dict ℕ ApiAction)
      → ActionsFit actions
      → parse_actions P (length actions) i (encode_actions L actions more) d
        ≡ ok (number i actions d)
  unfolding parse_actions encode_actions number
  parse_actions-encode_actions i [] more d fit = refl
  parse_actions-encode_actions i ((n, t) ∷ actions) more d fit =
      parse_actions-cons (length actions) i t n (encode_actions L actions more) d fit.0 fit.1 fit.2
      ∙ parse_actions-encode_actions (suc i) actions more (emplace i (api_action (n, t)) d) fit.3

  pub log_device_info-announce :
      (phy log : ℕ) (d : Announced) (more : Bytes)
      → AttribsFit d.attribs
      → ActionsFit d.actions
      → log_device_info P phy log (announce L d more) ≡ ok (recorded phy log d)
  unfolding log_device_info announce
  log_device_info-announce phy log d more attribs actions =
      rw
        (
          log_device_info,
          bytes_at-append [] d.name (encode_attribs L d.attribs (encode_actions L d.actions more)),
          drop-append_self d.name (encode_attribs L d.attribs (encode_actions L d.actions more)),
          parse_attribs-encode_attribs d.attribs (encode_actions L d.actions more) [] attribs,
          parse_actions-encode_actions 0 d.actions more [] actions,
        )
        refl

  -- A device announces its class, its name, attributes and actions, whose texts fit one byte's
  -- length, with no action's name empty; anything may lie behind the announcement. The constructor
  -- reads back the class, the name, under each key its first value, and under each number the
  -- action that was announced at that place, and nothing else.
  pub log_device_info-roundtrip :
      (phy log : ℕ) (d : Announced) (more : Bytes)
      → AttribsFit d.attribs
      → ActionsFit d.actions
      → (info : LogDeviceInfo) × (log_device_info P phy log (announce L d more) ≡ ok info)
        × (info.phy ≡ phy)
        × (info.log ≡ log)
        × (info.dev_class ≡ d.dev_class)
        × (info.name ≡ d.name)
        × ((k : Bytes) → find k info.attribs ≡ find k d.attribs)
        × ((i : ℕ) → find i info.actions_map ≡ nth_action d.actions i)
  unfolding find
  log_device_info-roundtrip phy log d more attribs actions = (
    recorded phy log d,
    log_device_info-announce phy log d more attribs actions,
    refl,
    refl,
    refl,
    refl,
    λ k. find-register k d.attribs [],
    λ i. find-number_zero i d.actions,
  )
