-- ===== src/Messages.antt =====
-- src/messages.rs.

pub mod Reader
pub mod Wire
pub mod Sample
pub mod Setup
pub mod Funding
pub mod Frames
