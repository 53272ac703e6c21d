-- ===== src/Features.antt =====
-- The feature engines of backend/engines, and the validators of backend/data.
pub mod Chain
pub mod Oi
pub mod Bars
pub mod Health
pub mod Build
pub mod Severity
pub mod Overlay
pub mod Complete
pub mod Clean
pub mod Faultless
pub mod Passed
pub mod Totality
