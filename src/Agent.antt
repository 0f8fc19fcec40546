-- ===== src/Agent.antt =====
-- src/agent.rs: the headless node core, its configuration, its policies and its peer workers.
pub mod Config
pub mod Policy
pub mod Events
pub mod Node
pub mod Core
pub mod Worker
pub mod System
pub mod Consent
