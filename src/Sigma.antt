-- ===== src/Sigma.antt =====
-- src/sigma.rs: the sigma protocols of the bet, over any curve.
pub mod Curve
pub mod Dlog
pub mod Or2
pub mod Statements
pub mod Sound
pub mod OrDlog
pub mod Adaptor
pub mod Sample
