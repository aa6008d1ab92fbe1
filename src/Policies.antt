-- ===== src/Policies.antt =====
-- crates/zhir-policies and the default policies of crates/zhir-kernel/src/defaults.
pub mod Retry
pub mod Scheduling
pub mod Window
pub mod Tests
