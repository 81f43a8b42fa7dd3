-- ===== src/Aggregator.antt =====
-- aptos-aggregator: speculative sums, their deltas, and change sets that carry deltas.
pub mod Delta
pub mod Extension
pub mod Registry
pub mod Natives
pub mod Changes
pub mod Deltas
pub mod Squash
pub mod Output
pub mod Examples
