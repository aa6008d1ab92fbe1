-- ===== src/Engine/Operations.antt =====
-- crates/zhir-kernel/src/engine/operations.rs: the events of an operation.
use zhir.Prelude.{
  ℕ, String, Bool, true, false, not, ◌||◌, Option, none, some, List, ◌==◌, ltb, lookup, add,
  String-discrete, if◌then◌else◌,
}
use zhir.Error.{protocol, for_each}
use zhir.Value.{Json}
use zhir.Operation.{
  Content, OperationRecord, OperationState, OperationEvent, OperationUpdate, RecoveryRef,
  OperationUpdate-discrete, terminal, validate_content,
}
use zhir.Operation
use zhir.History.Entry.{Hashing}
use zhir.Run.{CommandIntent, Fact}
use zhir.Run.Operations.{is_delegation, is_just}
use zhir.Storage.Commit.{HistoryDelta}
use zhir.Engine.State.{operation_progress, cancel_call, listen}
use zhir.Engine.Action.{
  RunStore, Environment, Action, raise, lift, ◌>>=◌, ◌>>◌, done, raise_if, or_raise, checkpoint,
  adjust, emit, spawn, new_id,
}
use zhir.Engine.Changes.{or_else, put_operation, push_command}
use zhir.Engine.Commit.{commit}
use zhir.Engine.Completion.{finish_at}

-- What an event is to the events that its operation has had.
pub data Cursor : Type 0 where
  fresh replayed conflicting : Cursor

module _ {V : Type 0} ⦃j : Json V⦄ where
  abbrev is_last : OperationRecord V → OperationUpdate V → Bool
  is_last operation update = is_just OperationUpdate-discrete operation.last_update update

  -- The comparison with the last sequence: an equal one must have the same update, and an earlier one is
  -- a replay.
  abbrev cursor_at : Option ℕ → OperationRecord V → OperationEvent V → Cursor
  cursor_at none operation event = fresh
  cursor_at (some previous) operation event =
      if event.sequence == previous
      then (if is_last operation event.update then replayed else conflicting)
      else (if ltb event.sequence previous then replayed else fresh)

  unfoldable pub cursor : OperationRecord V → OperationEvent V → Cursor
  cursor operation event = cursor_at operation.last_sequence operation event

abbrev pub is_cancelling : OperationState → Bool
is_cancelling OperationState.cancelling = true
is_cancelling _ = false

module _ {V : Type 0} where
  abbrev pub noted : OperationRecord V → OperationEvent V → OperationRecord V
  noted operation event = record operation {
    last_sequence = some event.sequence;
    last_update = some event.update;
  }

module _ {V : Type 0} ⦃environment : Environment V⦄ where
  -- The change by an update of one of the three states.
  abbrev pub updated : OperationRecord V → OperationUpdate V → OperationRecord V
  updated operation (Operation.running reference) = record operation {
    state = OperationState.running;
    recovery = or_else reference operation.recovery;
    wait = none;
  }
  updated operation (Operation.waiting prompt reference) = record operation {
    state = OperationState.waiting;
    recovery = or_else reference operation.recovery;
    wait = some prompt;
  }
  updated operation (Operation.unknown reason) = record operation {
    state = OperationState.unknown;
    wait = some (environment.reason_json reason);
  }
  updated operation _ = operation

module _ {V S : Type 0} ⦃j : Json V⦄ ⦃hashing : Hashing V⦄ ⦃store : RunStore V S⦄
    ⦃environment : Environment V⦄ where
  abbrev pub by_cursor : Cursor → String → Action V S (Unit {0}) → Action V S (Unit {0})
  by_cursor fresh conflict m = m
  by_cursor replayed conflict m = done
  by_cursor conflicting conflict m = raise (protocol conflict)

  -- The context of an active delegation: its command is committed with the event's sequence.
  unfoldable pub add_context :
      String → OperationRecord V → OperationEvent V → List (Content V) → Action V S (Unit {0})
  add_context id operation event content = do
    lift (for_each validate_content content)
    current ← checkpoint
    command ← new_id
    commit
        (push_command command (CommandIntent.delegation_context id content)
          (put_operation id (noted operation event) current))
        (Fact.operation id operation.state) HistoryDelta.unchanged

  unfoldable pub update_state :
      String → OperationRecord V → OperationEvent V → Action V S (Unit {0})
  update_state id operation event = do
    raise_if (terminal operation.state) (protocol "update follows terminal operation")
    current ← checkpoint
    let changed : OperationRecord V = updated (noted operation event) event.update
    commit (put_operation id changed current) (Fact.operation id changed.state)
        HistoryDelta.unchanged

  -- An event that is not a context, after its cursor.
  abbrev pub advance :
      String → OperationRecord V → OperationEvent V → OperationUpdate V → Action V S (Unit {0})
  advance id operation event (Operation.finished outcome) =
      finish_at id outcome (some event.sequence)
  advance id operation event (Operation.progress value) = emit (operation_progress id value)
  advance id operation event _ = update_state id operation event

  -- An event of an operation that is there.
  abbrev pub receive :
      String → OperationRecord V → OperationEvent V → OperationUpdate V → Action V S (Unit {0})
  receive id operation event (Operation.context content) =
      if not (is_delegation operation.owner) || terminal operation.state
      then raise (protocol "context requires an active delegation")
      else by_cursor (cursor operation event) "conflicting delegation context"
          (add_context id operation event content)
  receive id operation event update =
      by_cursor (cursor operation event) "conflicting operation event sequence"
        (advance id operation event update)

  -- An event of an operation that is not there.
  abbrev pub receive_unknown : String → ℕ → OperationUpdate V → Action V S (Unit {0})
  receive_unknown id sequence (Operation.context _) = raise (protocol "unknown context operation")
  receive_unknown id sequence (Operation.finished outcome) = finish_at id outcome (some sequence)
  receive_unknown id sequence _ = raise (protocol "unknown operation event")

  abbrev pub receive_found :
      String → OperationEvent V → Option (OperationRecord V) → Action V S (Unit {0})
  receive_found id event none = receive_unknown id event.sequence event.update
  receive_found id event (some operation) = receive id operation event event.update

  -- `Engine::operation_event`
  unfoldable pub operation_event : String → OperationEvent V → Action V S (Unit {0})
  operation_event id event = do
    current ← checkpoint
    receive_found id event (lookup String-discrete id current.active.operations)

  -- `Engine::local_operation_update`
  unfoldable pub local_operation_update : String → OperationState → Option V → Action V S (Unit {0})
  local_operation_update id state wait = do
    current ← checkpoint
    operation ←
        or_raise (lookup String-discrete id current.active.operations)
          (protocol "unknown operation")
    raise_if (terminal operation.state) (protocol "update follows terminal operation")
    commit (put_operation id (record operation { state = state; wait = wait }) current)
        (Fact.operation id state) HistoryDelta.unchanged

  -- `Engine::unknown`
  unfoldable pub unknown : String → String → Action V S (Unit {0})
  unknown id reason =
      local_operation_update id OperationState.unknown (some (environment.reason_json reason))

  -- `Engine::install_operation`, of a handle by its recovery reference.
  unfoldable pub install_operation : String → Option (RecoveryRef V) → Action V S (Unit {0})
  install_operation id handle = do
    current ← checkpoint
    operation ←
        or_raise (lookup String-discrete id current.active.operations)
          (protocol "unknown started operation")
    commit
        (put_operation id (record operation { recovery = or_else handle operation.recovery })
          current)
        (Fact.operation id operation.state) HistoryDelta.unchanged
    if is_cancelling operation.state then spawn (cancel_call id) else done
    adjust (λ v. record v { operation_controls = add String-discrete id v.operation_controls })
    spawn (listen id)
