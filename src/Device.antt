-- ===== src/Device.antt =====
-- src/device.cpp with include/livox/mid360/device.hpp: one LiDAR that is kept connected.
pub mod Absorb
pub mod Connection
pub mod Open
pub mod Push
pub mod Reconnect
pub mod Log
pub mod Stats
pub mod Streams
pub mod Commands
