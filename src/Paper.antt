-- ===== src/Paper.antt =====
-- backend/paper: the book of hypothetical positions.
pub mod Models
pub mod Engine
pub mod Update
pub mod Summary
pub mod Local
pub mod Contract
pub mod Soundness
pub mod Runs
pub mod Agreement
pub mod Totals
