-- ===== src/Contract.antt =====
-- go/internal/contract: the event, the profile bundle, findings, feature vectors and decisions.
pub mod Action
pub mod Event
pub mod Finding
pub mod Feature
pub mod Profile
pub mod Decision
pub mod Summary
