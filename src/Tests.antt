-- ===== src/Tests.antt =====
-- Runs of the definitions on small inputs, and the theorems applied to them.
pub mod Memory
pub mod Frames
pub mod Ledger
pub mod Pages
pub mod Peers
pub mod Messages
pub mod Users
pub mod Toy
pub mod Tables
pub mod Texts
pub mod Trees
pub mod Sparse
pub mod Nodes
pub mod Pending
pub mod Keys
