-- ===== src/Connectors.antt =====
-- internal/connector: the connectors' registry, the families that name them, and the default set-up.
pub mod Types
pub mod Registry
pub mod Family
pub mod Setup
mod Tests
