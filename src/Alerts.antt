-- ===== src/Alerts.antt =====
-- backend/alerts: the messages of alerts, and the service that sends each once.
pub mod Formatter
pub mod Models
pub mod Once
pub mod Service
