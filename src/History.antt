-- ===== src/History.antt =====
-- crates/zhir-core/src/run/history.rs: the persistent, chunked, append-only history.
-- `Option<Arc<Node>>` is `Chain`: the nodes are immutable, so sharing them is not modelled. The
-- proofs are in the modules below.
pub mod Entry
pub mod Order
pub mod Chain
pub mod Since
pub mod Refine
pub mod Identity
pub mod Lives
pub mod Conversation
pub mod Tests
