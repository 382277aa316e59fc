-- ===== src/Intake.antt =====
-- internal/transport/http/job_handler.go: how a job enters the tables, and how the handlers that stand
-- in front of the approval gate read and write them.
pub mod Request
pub mod Callback
pub mod Store
pub mod CreateJob
pub mod Decisions
mod Tests
