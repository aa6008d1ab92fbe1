-- ===== src/Engine.antt =====
-- crates/zhir-kernel/src/engine/: the engine of one run. State is what it holds; Action is how its
-- methods are written; the other modules are named for the files of the directory.
pub mod State
pub mod Action
pub mod Commit
pub mod Changes
pub mod Completion
pub mod Operations
pub mod Keeps
pub mod Durable
pub mod Steps
pub mod Announced
pub mod Heads
pub mod Replay
pub mod Session
pub mod Commands
pub mod Boundary
pub mod Media
pub mod Events
pub mod Controls
pub mod Recovery
pub mod Admission
pub mod Workers
pub mod Lifecycle
pub mod Tests
