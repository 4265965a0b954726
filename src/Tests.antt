-- ===== src/Tests.antt =====
-- Runs of the modelled code on small inputs, and the theorems applied to them.
pub mod Container
pub mod Opening
pub mod Names
pub mod Json
pub mod Documents
pub mod Images
pub mod Objects
pub mod Lookup
pub mod Stored
