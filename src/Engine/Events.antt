-- ===== src/Engine/Events.antt =====
-- crates/zhir-kernel/src/engine/model_events.rs: the events of a session.
pub mod Output
pub mod Response
pub mod Apply
pub mod Batch
pub mod Model
