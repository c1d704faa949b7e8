-- ===== src/Wire.antt =====
-- openflow.h: the constants that the controller uses, the structures, and a decoder for the messages that
-- is independent of the code that builds them.
pub mod Enums
pub mod Oxm
pub mod Layout
pub mod Actions
pub mod Messages
pub mod Multipart
pub mod Declared
pub mod Decode
