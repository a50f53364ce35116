-- ===== src/Obs.antt =====
-- go/internal/obs: measurements.
pub mod Latency
