-- ===== src/Session.antt =====
-- src/session.cpp: discovery, and the commands to one LiDAR.
pub mod Types
pub mod Acks
pub mod Request
pub mod Commands
pub mod Connect
pub mod Discover
pub mod Peer
