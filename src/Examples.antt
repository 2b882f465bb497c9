-- ===== src/Examples.antt =====
-- A concrete engine, and the theorems applied to concrete inputs in it.
pub mod Field3
pub mod TwoParties
pub mod Supply
pub mod Witnesses
pub mod SmallCurve
pub mod SmallParties
pub mod KeyWitnesses
pub mod OrderWitnesses
pub mod SignWitnesses
pub mod StageWitnesses
