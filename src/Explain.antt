-- ===== src/Explain.antt =====
-- go/internal/explain: how a decision is explained from its record. Trace is trace.go.
pub mod Trace
