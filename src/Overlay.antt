-- ===== src/Overlay.antt =====
-- The part that the three functions `mesh_packet_handler` have in common (c_api.cpp, khawasu_app.h,
-- main_client.cpp): from the data of the mesh to a logical packet.
use khawasu_pc.Base.{ℕ, Option, none, some, Bytes, ltb, if◌then◌else◌}
use khawasu_pc.Protocol.{LogicalPacket}

-- `OverlayProtoType`
pub data OverlayType : Type 0 where
  reliable unreliable : OverlayType
  other_type : ℕ → OverlayType

-- The layout of an `OverlayPacket`: the values of `OVL_PACKET_SIZE`, and the fields of a packet.
pub record OverlayFormat : Type 0 where
  pub type_size : ℕ
  pub reliable_size : ℕ
  pub unreliable_size : ℕ
  pub overlay_type : Bytes → OverlayType
  pub reliable_data : Bytes → LogicalPacket
  pub unreliable_data : Bytes → LogicalPacket

-- `none` is an early return.
unfoldable pub overlay_log : OverlayFormat → Bytes → ℕ → Option LogicalPacket
overlay_log V memory size = if ltb size V.type_size then none else elim (V.overlay_type memory) [
  | reliable ↦ if ltb size V.reliable_size then none else some (V.reliable_data memory)
  | unreliable ↦ if ltb size V.unreliable_size then none else some (V.unreliable_data memory)
  | other_type n ↦ none
]
