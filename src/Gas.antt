-- ===== src/Gas.antt =====
-- The gas schedule and the gas meter of aptos-gas.
pub mod Algebra
pub mod Schedule
pub mod Params
pub mod Views
pub mod Sizes
pub mod Transaction
pub mod Meter
pub mod Examples
