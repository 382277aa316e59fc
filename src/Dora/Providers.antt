-- ===== src/Dora/Providers.antt =====
-- GitHub, GitLab, Opsgenie and Datadog.
pub mod Commits
pub mod Faithful
pub mod Incidents
