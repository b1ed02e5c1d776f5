-- ===== src/Ring.antt =====
-- The ring overlay of p2pmd (src/p2pmd and the p2pm files of src).
pub mod Types
pub mod Reqtype
pub mod Reptype
pub mod NodeInfo
pub mod Node
pub mod Server
pub mod Loop
