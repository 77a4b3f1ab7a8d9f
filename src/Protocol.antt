-- ===== src/Protocol.antt =====
-- include/livox/mid360/protocol.hpp and src/protocol.cpp: the wire formats.
pub mod Types
pub mod CommandFrame
pub mod DataPacket
pub mod KeyValues
pub mod Acks
