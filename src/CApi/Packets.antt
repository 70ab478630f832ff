-- ===== src/CApi/Packets.antt =====
-- `mesh_packet_handler` of the C library against that of hwctrl.
use khawasu_pc.Base.{nat_eq}
use khawasu_pc.Base.Outcome.{Outcome, Settles}
use khawasu_pc.Manager.State.{Manager}
use khawasu_pc.App
