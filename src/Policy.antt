-- ===== src/Policy.antt =====
-- crates/executor-policy: the deny-by-default policy engine.
pub mod Model
pub mod Eval
pub mod Spec
pub mod Dimensions
pub mod Correct
pub mod Config
pub mod Load
pub mod Loaded
