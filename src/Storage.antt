-- ===== src/Storage.antt =====
-- crates/zhir-core/src/storage/, crates/zhir-core/src/wire/mod.rs and the stores that keep a run's
-- checkpoints: crates/zhir-storage/src/memory.rs and crates/zhir-kernel/src/defaults/store.rs.
pub mod Core
pub mod Commit
pub mod Memory
pub mod Resume
pub mod Tests
