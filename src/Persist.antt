-- ===== src/Persist.antt =====
-- go/internal/persist: the bounded queue to the database, and alerts.
pub mod Shipper
pub mod Alerts
