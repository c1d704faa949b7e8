-- ===== src/Packets.antt =====
-- The packet builders and readers of rw_packets.c, one child for each family of messages. Each
-- builder stores a list of fields into the write buffer, one entry for each assignment in the
-- source, and returns the switch with the counters that it sets.
pub mod Sound
pub mod Requests
pub mod Echo
pub mod PacketOut
pub mod FlowMod
pub mod PortMod
pub mod PacketIn
pub mod Ports
pub mod Framing
pub mod Echoed
