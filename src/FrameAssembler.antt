-- ===== src/FrameAssembler.antt =====
-- src/frame_assembler.hpp and src/frame_assembler.cpp: packets into frames.
pub mod DropCounter
pub mod TimeMapper
pub mod Points
pub mod State
pub mod Push
