-- ===== src/Profile.antt =====
-- go/internal/profile: the store behind the decision path. Idempotency holds its stored decisions.
pub mod Empty
pub mod Fake
pub mod Helpers
pub mod Keys
pub mod Loads
pub mod Updates
pub mod Idempotency
