-- ===== src/Evm.antt =====
-- crates/executor-evm: validation and normalization of actions.
pub mod Validate
pub mod Normalize
pub mod Agreement
pub mod Units
pub mod Wire
