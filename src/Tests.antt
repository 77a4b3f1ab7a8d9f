-- ===== src/Tests.antt =====
-- Runs of the model on concrete bytes, and the theorems applied to them.
mod Wire
mod Lists
mod Frames
mod Values
mod Sessions
mod Recordings
mod Contexts
mod Devices
mod Host
mod Links
