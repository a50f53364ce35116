-- ===== src/Decide.antt =====
-- go/internal/decide: the decision engine. The children follow its files: the policy bundle and its
-- hot-swap slot, the blocklist, the cost table, the ladder's rails and advisories, and Decide itself.
pub mod Policy
pub mod Blocklist
pub mod Prevalence
pub mod Cost
pub mod Ladder
pub mod Engine
pub mod Sequence
