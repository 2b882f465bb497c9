-- ===== src/OnlineOp.antt =====
-- POC/OnlineOp.hpp: arithmetic, bit and hash protocols on shares, built on the engine's calls.
pub mod Linear
pub mod Products
pub mod Complexes
pub mod Bits
pub mod Folds
pub mod Compare
pub mod Adder
pub mod Convert
pub mod Hash
