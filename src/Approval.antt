-- ===== src/Approval.antt =====
-- The approval service of internal/transport/http/services.go and approval_worker.go.
pub mod State
pub mod Policy
pub mod Service
pub mod Submit
pub mod Tick
pub mod Queries
pub mod History
mod Tests
