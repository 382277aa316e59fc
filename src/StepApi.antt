-- ===== src/StepApi.antt =====
-- `stepAPIAdapter` of internal/runner/step_api.go: the calls that a module makes while it runs.
-- internal/stepapi/stepapi.go has its types. Its logger and its audit log are left out, and the
-- secrets' vault is what it answers.
pub mod Steps
pub mod Approvals
pub mod Connect
mod Tests
