-- ===== src/Pipeline.antt =====
-- backend/pipeline.py: one iteration of the live pipeline, and what it may send.
pub mod Current
pub mod Sending
pub mod Tick
