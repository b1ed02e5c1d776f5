-- ===== src/Space.antt =====
-- The tuple space daemon tsd.
pub mod Glob
pub mod Types
pub mod Compare
pub mod Zlistx
pub mod Cases
pub mod Element
pub mod Matching
pub mod Store
pub mod Named
pub mod Connect
pub mod Peers
pub mod Dispatch
pub mod Exchange
