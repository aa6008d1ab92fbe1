-- ===== src/Engine/Commit.antt =====
-- crates/zhir-kernel/src/engine/checkpoint.rs: every change of the checkpoint goes through `commit`.
pub mod Outcome
use zhir.Prelude.{
  ℕ, ◌+◌, String, Bool, true, false, not, ◌&&◌, Option, none, some, List, [], ◌∷◌, Map, lookup,
  same, String-discrete, if◌then◌else◌, length,
}
use zhir.Error.{Error, Result, ok, err, storage}
use zhir.Operation.{OperationRecord, OperationState, OperationState-discrete}
use zhir.Run.{Checkpoint, State, Fact, ControlAction}
use zhir.Run
use zhir.Storage.Commit.{Commit, HistoryDelta}
use zhir.Engine.State.{Engine, EventData, StateKind, operation_changed, checkpoint_committed}
use zhir.Engine.Action.{
  RunStore, Environment, Action, next_u64, pure, raise, lift, gets, ◌>>=◌, ◌>>◌, done, checkpoint,
  emit, new_id, read_clock,
}

-- `State::kind`
unfoldable pub kind : {V : Type 0} → State V → StateKind
kind State.running = StateKind.running
kind (State.suspended _) = StateKind.suspended
kind (State.completed _) = StateKind.completed
kind (State.failed _) = StateKind.failed
kind State.cancelled = StateKind.cancelled
kind (State.limited _) = StateKind.limited

pub data WaitReason : Type 0 where
  recovery input : WaitReason

-- `WaitReason::as_str`
unfoldable pub as_str : WaitReason → String
as_str recovery = "RecoveryRequired"
as_str input = "InputRequired"

-- The result of a write; no result is the end of the time.
abbrev pub answered : Option (Result (Unit {0})) → Result (Unit {0})
answered none = err (storage "checkpoint commit timed out; reload the durable head before retrying")
answered (some r) = r

module _ {V : Type 0} where
  -- The checkpoint that `commit` writes.
  abbrev pub successor : Checkpoint V → Checkpoint V → String → Fact → Checkpoint V
  successor current next id fact = record next {
    id = id;
    parent_id = some current.id;
    revision = next_u64 current.revision;
    fact = fact;
  }

  -- Whether an operation's state is not the one that it had.
  abbrev pub is_changed : Map String (OperationRecord V) → String × OperationRecord V → Bool
  is_changed before (id, operation) = elim (lookup String-discrete id before) [
    | none ↦ true
    | some old ↦ not (same OperationState-discrete old.state operation.state)
  ]

module _ {V S : Type 0} where
  -- The loop over the operations of the checkpoint that was written.
  unfoldable pub announce :
      Map String (OperationRecord V) → Map String (OperationRecord V) → Action V S (Unit {0})
  announce before [] = done
  announce before ((id, operation) ∷ rest) = do
    if is_changed before (id, operation) then emit (operation_changed id operation.state) else done
    announce before rest

  -- `self.current = ...`
  unfoldable pub install : Checkpoint V → Action V S (Unit {0})
  install c e = (ok tt, record e { current = c })

module _ {V S : Type 0} ⦃store : RunStore V S⦄ ⦃environment : Environment V⦄ where
  unfoldable pub write : Commit V → ℕ → Action V S (Unit {0})
  write c now e = let (r, s) = store.write e.store c now in (answered r, record e { store = s })

  -- `persist`
  unfoldable pub persist : Checkpoint V → HistoryDelta V → Action V S (Checkpoint V)
  persist next history = do
    reading ← read_clock
    let c : Commit V = record {
      checkpoint = next;
      history = history;
      deadline = some (reading.0 + next.options.limits.commit_timeout_ms);
    }
    later ← read_clock
    write c later.0
    pure next

  -- `Engine::commit`
  unfoldable pub commit : Checkpoint V → Fact → HistoryDelta V → Action V S (Unit {0})
  commit next fact history = do
    id ← new_id
    previous ← checkpoint
    current ← persist (successor previous next id fact) history
    install current
    emit (checkpoint_committed current.id current.revision (kind current.state) current.fact)
    announce previous.active.operations current.active.operations

  -- `Engine::suspend`
  unfoldable pub suspend : WaitReason → Action V S (Unit {0})
  suspend reason = do
    current ← checkpoint
    let waiting : State V =
        State.suspended
          (record { reason = as_str reason; source = "runtime"; wait_id = none; metadata = [] })
    commit (record current { state = waiting }) (Fact.control ControlAction.suspended)
        HistoryDelta.unchanged
