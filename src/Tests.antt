-- ===== src/Tests.antt =====
-- Concrete inputs, and the theorems of the other modules applied to them.
mod Sample
mod Decide
mod Ladder
mod Audit
mod Graph
mod Consortium
mod Reports
mod Features
mod Wal
mod Lanes
mod Novelty
mod Fanout
mod Server
mod Tuning
mod Profile
mod Scoring
mod Explain
