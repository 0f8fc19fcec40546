-- ===== src/Bet.antt =====
-- src/bet.rs: a bet of one party over its wallet, its chain and its transport.
pub mod Library
pub mod State
pub mod Env
pub mod Amounts
pub mod Persist
pub mod Agreement
pub mod Funding
pub mod Claim
pub mod Overlay
pub mod Verbs
pub mod Quiet
pub mod Joint
pub mod Locate
pub mod Sample
pub mod Safety
