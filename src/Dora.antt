-- ===== src/Dora.antt =====
-- The DORA events: what the normalizers of internal/dora make of webhooks, and how the handlers of
-- internal/transport/http/dora_handler.go admit callers, store events and compute rates.
pub mod Events
pub mod Providers
pub mod Headers
pub mod Store
pub mod Webhook
pub mod Admission
pub mod Replay
pub mod Rates
pub mod Reads
pub mod Tests
