-- ===== src/Infra.antt =====
-- internal/module/infra/template: what a request for infrastructure must satisfy before it is rendered.
pub mod Capabilities
pub mod Params
pub mod Catalog
pub mod Checks
pub mod Engine
pub mod Resolve
pub mod Spec
pub mod Storage
mod Tests
