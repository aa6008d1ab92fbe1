-- ===== src/Lib.antt =====
-- The durable core of zhir: the history of a run, its checkpoints with their validation, the
-- commits that follow one another, the stores that keep them in memory, and the engine that runs a
-- run by committing each change of its checkpoint.
--
-- Parts, files and code (paths from the repository's root):
--   Error       crates/zhir-core/src/error.rs: the errors, `Result` and its `?`
--   Profile, Resource, Operation, Message, Model
--               profile.rs, resource.rs, operation.rs, message/mod.rs, tool/mod.rs and model/ of
--               crates/zhir-core/src: the data of a conversation and its `validate` methods
--   History     run/history.rs. Entry: `HistoryEntry` and `append_digest`. Order: `Order`, the ledger
--               of calls and results. Chain: `Node` and `History`, an `Option<Arc<Node>>` being the
--               data type `Chain` with `nil` for `None`. Since: `appended_since`. Identity and
--               Lives: what `by_id` and the ledger say of a history. Conversation:
--               model/conversation.rs
--   Run         run/mod.rs, run/options.rs, tool/catalog.rs and run/validation.rs: the checkpoint of
--               a run and `Checkpoint::validate`; Consistency, Completed and References hold what
--               follows from it. Ticket: run/ticket.rs and run/completion.rs
--   Storage     Core: `CheckpointCore` of wire/mod.rs. Commit: storage/commit.rs. Memory: the stores
--               crates/zhir-storage/src/memory.rs and
--               crates/zhir-kernel/src/defaults/store.rs. Resume: `Runtime::resume` of
--               crates/zhir-kernel/src/runtime.rs, with the selector of request.rs
--   Request     `ModelRequest` of crates/zhir-core/src/model/mod.rs
--   Engine      crates/zhir-kernel/src/engine. State: `Engine`, `Work` and what goes in and out (mod.rs).
--               Action: the methods' monad and the interfaces. Changes: changes of a checkpoint.
--               Commit: checkpoint.rs. Operations: operations.rs. Completion: completion.rs.
--               Commands: commands.rs. Session: session.rs. Events: model_events.rs, with Batch for
--               `collect`, Apply for `apply_event`, Output for `stage_output`, Response for
--               `complete_response` and acknowledgements, Model for `model_event`. Controls and
--               Recovery: controls.rs. Admission: admission.rs. Workers: workers.rs. Lifecycle: lifecycle.rs.
--               Media: media.rs. Keeps, Steps: what every method keeps, and the engine as a
--               machine. Durable, Heads, Announced: the store and the events along its steps.
--               Replay: an operation event, or a completion, that comes again. Boundary: the
--               submission of commands
--   Policies    Retry: crates/zhir-policies/src/retry.rs. Scheduling:
--               crates/zhir-kernel/src/defaults/scheduling.rs. Window:
--               crates/zhir-policies/src/history.rs
--   Fixtures, Tests
--               concrete data and runs
--
-- A commit carries a checkpoint and a delta of its history. A store compares it with the head of
-- the run (`Commit::validate_against`), which ends with `Checkpoint::validate`, and that reads the
-- history and its ledger.
--
-- The model. A method that changes its receiver returns the new value; `?` is the bind of
-- `Result`. A machine integer is a natural number: the code that is modelled adds only to lengths
-- of vectors in memory and subtracts where it has compared before; `checked_sub` is `checked_pred`.
-- Loops are recursion on the list or the chain that they walk, so no fuel is needed. A map is an
-- association list and a set is a list; where the code loops over a hash map, which of several
-- errors it reports depends on the order, and the model has one order. `Arc` shares immutable
-- values, so sharing is not modelled, nor are the caches of a commit's core and digest. A method
-- of a store holds its lock from start to end, so concurrent calls are a sequence of steps
-- (Storage/Memory/Reach); a poisoned lock is not modelled. An index or a slice out of range is
-- `none`.
-- A method of the engine takes the engine and returns a result with the engine as it is then, so
-- what was changed before an error stays. A branch where the code panics (`expect`, an index) is an
-- error of its own. `MemoryStore` (Engine/Durable) answers every commit in time; over `RunStore` a
-- write may also not answer. Counters of a checkpoint are u64 (`next_u64` adds one modulo 2 ^ 64).
-- A step of the engine (Engine/Steps) is one call by its loop, with any argument and any result, or
-- any change of the channels, tasks and sets that are not part of a checkpoint. The walk along the
-- archive of media takes `archive_bound` nodes at most, a bound that the environment gives; it is
-- enough for an archive that is not longer (Engine/Media/Archive).
-- A double is its bit pattern. Where a sum, a product or a shift can overflow (Policies/Retry) the
-- width is written out.
--
-- Parameters. `Json` stands for `serde_json::Value`, `Hashing` and `CoreEncoding` for
-- `serde_json::to_vec`, SHA-256 and the hexadecimal text of a digest. `NoCollision` names the two
-- lists of entries whose digests are assumed to differ if they do. `RunStore` is a store behind its
-- timeout, and `Environment` holds what the host and other packages supply: identities (`uuid`, the
-- n-th that is drawn), the readings of the clock and of the cancellation, JSON texts, the model with
-- its negotiation, the catalog's bindings, the history reducer and the store of resources.
-- `DrawsOnce` says that `uuid` does not repeat.
--
-- Not modelled: of the engine, the first checkpoint (`initial`), the opening of a catalog and of a
-- model, `admit`, the tasks that carry media and the `select!` loop, which are channels and other
-- tasks; the negotiation of crates/zhir-policies, the durable stores, providers,
-- transports and built-in tools, which are input and output, and the JSON schemas.
pub mod Prelude
pub mod Error
pub mod Value
pub mod Profile
pub mod Resource
pub mod Operation
pub mod Message
pub mod History
pub mod Model
pub mod Request
pub mod Run
pub mod Storage
pub mod Engine
pub mod Policies
pub mod Fixtures
